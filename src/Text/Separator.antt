-- ===== src/Text/Separator.antt =====
-- Where a string has a separator.
use mathlib.Core.List.{append-nil}
use mathlib.Core.Path.{subst}
use gpu_moses.Prelude.{
  ℕ, ◌+◌, ◌≡◌, refl, ap, sym, ◌∙◌, true, false, none, some, [], ◌∷◌, ◌++◌, arith, length,
  Bool-cases, inl, inr, ◌⊎◌, ==_self,
}
use gpu_moses.Text.{Str, is_prefix, scan_str}

-- A separator that is not empty.
module _ (s : ℕ) (ss : Str) where
  -- The separator starts at no place of the field, with what comes after it.
  abbrev pub Clean : Str → Str → Type 0
  Clean [] tail = Unit
  Clean (c ∷ f) tail = (is_prefix (s ∷ ss) (c ∷ (f ++ tail)) ≡ false) × Clean f tail

  is_prefix-append : (ps rest : Str) → is_prefix ps (ps ++ rest) ≡ true
  is_prefix-append [] rest = refl
  is_prefix-append (p ∷ ps) rest = rw (==_self p) (is_prefix-append ps rest)

  is_prefix-rest : (ps str : Str) → is_prefix ps str ≡ true → (rest : Str) × (str ≡ ps ++ rest)
  is_prefix-rest [] str h = (str, refl)
  is_prefix-rest (p ∷ ps) [] h = cc
  is_prefix-rest (p ∷ ps) (c ∷ str) h =
      let (rest, e) = is_prefix-rest ps str (ground arith) in (rest, ground arith)

  pub scan_str_at :
      (i : ℕ) (f rest : Str)
      → Clean f ((s ∷ ss) ++ rest)
      → scan_str (s ∷ ss) i (f ++ ((s ∷ ss) ++ rest)) ≡ some (i + length f)
  unfolding scan_str
  scan_str_at i [] rest h = rw (is_prefix-append (s ∷ ss) rest) (ap some (omega arith))
  scan_str_at i (c ∷ f) rest h = rw h.0 (scan_str_at (i + 1) f rest h.1 ∙ ap some (omega arith))

  pub scan_str-Clean : (i : ℕ) (f : Str) → Clean f [] → scan_str (s ∷ ss) i f ≡ none
  unfolding scan_str
  scan_str-Clean i [] h = refl
  scan_str-Clean i (c ∷ f) h =
      let miss : is_prefix (s ∷ ss) (c ∷ f) ≡ false =
        subst (λ (x : Str). is_prefix (s ∷ ss) (c ∷ x) ≡ false) (append-nil f) h.0 in
      rw miss (scan_str-Clean (i + 1) f h.1)

  -- The first separator of a string, if there is one.
  pub Clean-cases :
      (str : Str)
      → Clean str []
        ⊎ ((f : Str) × (rest : Str) × (str ≡ f ++ ((s ∷ ss) ++ rest)) × Clean f ((s ∷ ss) ++ rest))
  Clean-cases [] = inl tt
  Clean-cases (c ∷ str) = elim (Bool-cases (is_prefix (s ∷ ss) (c ∷ str))) [
    | inl hit ↦ let (rest, e) = is_prefix-rest (s ∷ ss) (c ∷ str) hit in inr ([], rest, e, tt)
    | inr miss ↦ elim (Clean-cases str) [
      | inl h ↦
          inl
            (subst (λ (x : Str). is_prefix (s ∷ ss) (c ∷ x) ≡ false) (sym (append-nil str)) miss, h)
      | inr (f, rest, e, h) ↦ inr (
        c ∷ f,
        rest,
        ap (◌∷◌ c) e,
        (subst (λ (x : Str). is_prefix (s ∷ ss) (c ∷ x) ≡ false) e miss, h),
      )
    ]
  ]
