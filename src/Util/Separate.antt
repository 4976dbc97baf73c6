-- ===== src/Util/Separate.antt =====
-- `TokenizeMultiCharSeparator` against fields that are joined with the separator.
use mathlib.Core.List.{append_assoc}
use mathlib.Core.Path.{subst}
use gpu_moses.Prelude.{
  ℕ, zero, suc, ◌+◌, ◌-◌, ◌≤◌, ◌<◌, ◌≡◌, refl, ap, sym, ◌∙◌, some, List, [], ◌∷◌, ◌++◌, arith,
  length, length-append, map, inl, inr, not-ltb,
}
use gpu_moses.Outcome.{done}
use gpu_moses.Text.{Str, find_str, scan_str, substr}
use gpu_moses.Text.Find.{drop-append, substr_middle, substr_npos}
use gpu_moses.Text.Separator.{Clean, Clean-cases, scan_str_at, scan_str-Clean}
use gpu_moses.Util.{trim, tokenize_multi_char_separator, separate_loop, white}

module _ (s : ℕ) (ss : Str) where
  abbrev pub join_fields : Str → List Str → Str
  join_fields f [] = f
  join_fields f (g ∷ fs) = f ++ ((s ∷ ss) ++ join_fields g fs)

  -- No separator starts in a field.
  abbrev pub CleanFields : Str → List Str → Type 0
  CleanFields f [] = Clean s ss f []
  CleanFields f (g ∷ fs) = Clean s ss f ((s ∷ ss) ++ join_fields g fs) × CleanFields g fs

  -- Every string is such fields.
  split_fields :
      (n : ℕ) (str : Str)
      → length str ≤ n
      → (f : Str) × (fs : List Str) × (str ≡ join_fields f fs) × CleanFields f fs
  split_fields zero str short = elim (Clean-cases s ss str) [
    | inl clean ↦ (str, [], refl, clean)
    | inr (f, rest, e, clean) ↦
        absurd (omega (arith, ap length e, length-append f ((s ∷ ss) ++ rest)))
  ]
  split_fields (suc n) str short = elim (Clean-cases s ss str) [
    | inl clean ↦ (str, [], refl, clean)
    | inr (f, rest, e, clean) ↦
        let (g, fs, e', cleans) = split_fields n rest (
          omega (
            arith,
            ap length e,
            length-append f ((s ∷ ss) ++ rest),
            length-append (s ∷ ss) rest,
          )) in
        (
          f,
          g ∷ fs,
          e ∙ ap (λ (x : Str). f ++ ((s ∷ ss) ++ x)) e',
          (subst (λ (x : Str). Clean s ss f ((s ∷ ss) ++ x)) e' clean, cleans),
        )
  ]

  find_str_after :
      (front str : Str)
      → find_str (s ∷ ss) (front ++ str) (length front) ≡ scan_str (s ∷ ss) (length front) str
  unfolding find_str
  find_str_after front str =
      rw
        (
          not-ltb (length (front ++ str)) (length front) (omega (arith, length-append front str)),
          drop-append front str,
        )
        refl

  separate_loop-fields :
      (fuel : ℕ) (front f : Str) (fs output : List Str)
      → length fs < fuel
      → CleanFields f fs
      → separate_loop fuel (s ∷ ss) (front ++ join_fields f fs) (length front) output
        ≡ done (output ++ map (λ (f : Str). trim f white) (f ∷ fs))
  unfolding separate_loop
  separate_loop-fields zero front f fs output enough clean = absurd (omega arith)
  separate_loop-fields (suc fuel) front f [] output enough clean =
      rw
        (
          separate_loop,
          find_str_after front f,
          scan_str-Clean s ss (length front) f clean,
          substr_npos front f,
        )
        refl
  separate_loop-fields (suc fuel) front f (g ∷ fs) output enough clean =
      let rest : Str = join_fields g fs in
      let same : front ++ (f ++ ((s ∷ ss) ++ rest)) ≡ (front ++ (f ++ (s ∷ ss))) ++ rest =
        ap (λ (x : Str). front ++ x) (sym (append_assoc f (s ∷ ss) rest))
        ∙ sym (append_assoc front (f ++ (s ∷ ss)) rest) in
      let field : substr (some (length front)) (some (length front + length f - length front))
            (front ++ (f ++ ((s ∷ ss) ++ rest)))
          ≡ done f =
        ap (λ (n : ℕ). substr (some (length front)) (some n) (front ++ (f ++ ((s ∷ ss) ++ rest))))
          (omega arith)
        ∙ substr_middle front f ((s ∷ ss) ++ rest) in
      let place : length front + length f + length (s ∷ ss) ≡ length (front ++ (f ++ (s ∷ ss))) =
        omega (arith, length-append front (f ++ (s ∷ ss)), length-append f (s ∷ ss)) in
      rw
        (
          separate_loop,
          find_str_after front (f ++ ((s ∷ ss) ++ join_fields g fs)),
          scan_str_at s ss (length front) f (join_fields g fs) clean.0,
          field,
          same,
          place,
        )
        (separate_loop-fields fuel (front ++ (f ++ (s ∷ ss))) g fs (output ++ trim f white ∷ [])
            (omega arith) clean.1
          ∙ ap done
              (append_assoc output (trim f white ∷ []) (map (λ (f : Str). trim f white) (g ∷ fs))))

  length-join_fields : (f : Str) (fs : List Str) → length fs ≤ length (join_fields f fs)
  length-join_fields f [] = omega arith
  length-join_fields f (g ∷ fs) = omega (
    arith,
    length-join_fields g fs,
    length-append f ((s ∷ ss) ++ join_fields g fs),
    length-append (s ∷ ss) (join_fields g fs),
  )

  -- On fields that are joined with the separator.
  pub tokenize_multi-join :
      (output : List Str) (f : Str) (fs : List Str)
      → CleanFields f fs
      → tokenize_multi_char_separator output (join_fields f fs) (s ∷ ss)
        ≡ done (output ++ map (λ (f : Str). trim f white) (f ∷ fs))
  unfolding tokenize_multi_char_separator
  tokenize_multi-join output f fs clean =
      separate_loop-fields (length (join_fields f fs) + 1) [] f fs output
        (omega (arith, length-join_fields f fs)) clean

  -- With a separator that is not empty, `TokenizeMultiCharSeparator` of any string ends without an
  -- exception, within the rounds that it is given. The string is fields joined with the separator,
  -- where no separator starts in a field, as they are found from the left; the fields, trimmed, are appended
  -- to the output in order.
  pub tokenize_multi-fields :
      (output : List Str) (str : Str)
      → (f : Str) × (fs : List Str) × (str ≡ join_fields f fs)
        × CleanFields f fs
        × (tokenize_multi_char_separator output str (s ∷ ss)
            ≡ done (output ++ map (λ (f : Str). trim f white) (f ∷ fs)))
  tokenize_multi-fields output str =
      let (f, fs, e, clean) = split_fields (length str) str (omega arith) in
      (
        f,
        fs,
        e,
        clean,
        ap (λ (x : Str). tokenize_multi_char_separator output x (s ∷ ss)) e
            ∙ tokenize_multi-join output f fs clean,
      )
