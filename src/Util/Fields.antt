-- ===== src/Util/Fields.antt =====
-- `Trim`, `TokenizeFirstOnly` and `TokenizeMultiCharSeparator`, against how the string is put together.
use mathlib.Core.List.{append_assoc}
use gpu_moses.Prelude.{
  ℕ, ◌+◌, ◌-◌, ◌≡◌, refl, ap, sym, ◌∙◌, true, some, [], ◌∷◌, ◌++◌, arith, length, length-append,
  take, take_all,
}
use gpu_moses.Outcome.{done}
use gpu_moses.Text.{Str, after_last, one_of, none_of, substr}
use gpu_moses.Text.Find.{
  None, take-append, drop-append, find_start_at, find_start_none, substr-take, substr_front,
  after_last_at, after_last_clean,
}
use gpu_moses.Util.{tokenize_first_only, erase_front, trim}

-- A key with no delimiter, a delimiter, and a value of any kind.
pub tokenize_first_only-pair :
    (ds key : Str) (d : ℕ) (value : Str)
    → None (one_of ds) key
    → one_of ds d ≡ true
    → tokenize_first_only (key ++ (d ∷ value)) ds ≡ done (key ∷ value ∷ [])
unfolding tokenize_first_only
tokenize_first_only-pair ds key d value clean hit =
    let behind : substr (some (length key + 1))
          (some (length (key ++ (d ∷ value)) - length key - 1)) (key ++ (d ∷ value))
        ≡ done value =
      rw (← append_assoc key (d ∷ []) value) (
        ap
          (λ (pos : ℕ).
            substr (some pos) (some (length ((key ++ d ∷ []) ++ value) - length key - 1))
              ((key ++ d ∷ []) ++ value))
          (sym (length-append key (d ∷ [])))
        ∙ substr-take (key ++ d ∷ []) value (length ((key ++ d ∷ []) ++ value) - length key - 1)
        ∙ ap done (
            take_all (length ((key ++ d ∷ []) ++ value) - length key - 1) value
              (omega (arith, length-append (key ++ d ∷ []) value, length-append key (d ∷ []))))) in
    rw
      (
        tokenize_first_only,
        find_start_at (one_of ds) key d value clean hit,
        substr_front key (d ∷ value),
        behind,
      )
      refl

pub tokenize_first_only-single :
    (ds str : Str) → None (one_of ds) str → tokenize_first_only str ds ≡ done (str ∷ [])
unfolding tokenize_first_only
tokenize_first_only-single ds str clean =
    rw (tokenize_first_only, find_start_none (one_of ds) str clean) refl

module _ (ds : Str) where
  -- A first and a last character that stay.
  pub record IsTrimmed (core : Str) : Type 0 where
    pub first : ℕ
    pub rest : Str
    pub starts : core ≡ first ∷ rest
    pub first_stays : none_of ds first ≡ true
    pub init : Str
    pub last : ℕ
    pub ends : core ≡ init ++ last ∷ []
    pub last_stays : none_of ds last ≡ true

  pub trim_gap : (str : Str) → None (none_of ds) str → trim str ds ≡ []
  unfolding trim
  trim_gap str gap =
      rw
        (
          trim,
          erase_front,
          after_last_clean (none_of ds) str gap,
          find_start_none (none_of ds) [] tt,
        )
        refl

  erase_front_at :
      (front core : Str) (c : ℕ) (rest : Str)
      → None (none_of ds) front
      → core ≡ c ∷ rest
      → none_of ds c ≡ true
      → erase_front ds (front ++ core) ≡ core
  unfolding erase_front
  erase_front_at front core c rest before e stays = rw e (
      rw (erase_front, find_start_at (none_of ds) front c rest before stays)
        (drop-append front (c ∷ rest)))

  -- `Trim` drops what is to be dropped at both ends.
  pub trim_core :
      (front core back : Str)
      → None (none_of ds) front
      → None (none_of ds) back
      → IsTrimmed core
      → trim (front ++ (core ++ back)) ds ≡ core
  unfolding trim
  trim_core front core back before behind t =
      let whole : front ++ (core ++ back) ≡ (front ++ t.init) ++ (t.last ∷ back) =
        ap (λ (x : Str). front ++ (x ++ back)) t.ends
        ∙ ap (λ (x : Str). front ++ x) (append_assoc t.init (t.last ∷ []) back)
        ∙ sym (append_assoc front t.init (t.last ∷ back)) in
      let stop : after_last (none_of ds) (front ++ (core ++ back)) ≡ length (front ++ core) =
        ap (after_last (none_of ds)) whole
        ∙ after_last_at (none_of ds) (front ++ t.init) t.last back t.last_stays behind
        ∙ omega (
          arith,
          length-append front t.init,
          length-append front core,
          ap length t.ends,
          length-append t.init (t.last ∷ []),
        ) in
      let cut : take (length (front ++ core)) (front ++ (core ++ back)) ≡ front ++ core =
        rw (← append_assoc front core back) (take-append (front ++ core) back) in
      ap (erase_front ds) (ap (λ n. take n (front ++ (core ++ back))) stop ∙ cut)
      ∙ erase_front_at front core t.first t.rest before t.starts t.first_stays
