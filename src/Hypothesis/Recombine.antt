-- ===== src/Hypothesis/Recombine.antt =====
-- `RecombineCompare` orders hypotheses by what they cover and by their state, and only by these.
use gpu_moses.Prelude.{ℕ, ◌≡◌, refl, Bool, List, [], ◌∷◌, arith, ltb, ◌↔◌}
use gpu_moses.Outcome.{Outcome, done}
use gpu_moses.Cuda.Holds.{Holds}
use gpu_moses.Cuda.Order.{StrictWeakOrder}
use gpu_moses.Cuda.Sign.{
  Sign, minus_one, no_sign, plus_one, is_minus, or_else, IsComparison, or_else-IsComparison,
  on-IsComparison, IsComparison-order, entry_sign,
}
use gpu_moses.Cuda.Compare.Laws.{lists_sign, entries_sign, lists_sign-IsComparison, compare_lem}
use gpu_moses.Bitmap.{bit_lt, compare_bitmaps}
use gpu_moses.Hypothesis.{Hypothesis, fields, recombine_compare}

bit_lt-order : StrictWeakOrder bit_lt
bit_lt-order = record {
  irrefl = λ a. ground arith;
  trans = λ a b c p q. ground arith;
  cotrans = λ a b c p q. ground arith;
}

ltb-order : StrictWeakOrder ltb
ltb-order = record {
  irrefl = λ a. ground arith;
  trans = λ a b c p q. ground arith;
  cotrans = λ a b c p q. ground arith;
}

-- What counts for recombination: the coverage and the bytes of the state.
abbrev pub Key : Type 0
Key = List Bool × List ℕ

abbrev pub key_sign : Key → Key → Sign
key_sign a b = or_else (lists_sign bit_lt a.0 b.0) (lists_sign ltb a.1 b.1)

Key_ext : (a b : Key) → a.0 ≡ b.0 → a.1 ≡ b.1 → a ≡ b
Key_ext a b p q = λ i. (p i, q i)

pub record HasKey {ℓ} {S : Type ℓ} (h : Hypothesis S) (key : Key) : Type ℓ where
  pub covers : Holds (fields h).bitmap.bits key.0
  pub state : Holds (fields h).state_data key.1

or_else-no_sign : (s t : Sign) → or_else s t ≡ no_sign → (s ≡ no_sign) × (t ≡ no_sign)
or_else-no_sign s t h = ground arith

-- Where no two different entries are equivalent, only equal lists compare as the same.
module _ {ℓ} {A : Type ℓ} (lt : A → A → Bool)
    (total : (x y : A) → entry_sign lt x y ≡ no_sign → x ≡ y) where
  entries_sign-no_sign : (xs ys : List A) → entries_sign lt xs ys ≡ no_sign → xs ≡ ys
  entries_sign-no_sign [] [] h = refl
  entries_sign-no_sign [] (y ∷ ys) h = absurd (ground (arith, h))
  entries_sign-no_sign (x ∷ xs) [] h = absurd (ground (arith, h))
  entries_sign-no_sign (x ∷ xs) (y ∷ ys) h =
      let (first, rest) = or_else-no_sign _ _ h in
      rw (total x y first, entries_sign-no_sign xs ys rest) refl

  lists_sign-no_sign : (xs ys : List A) → lists_sign lt xs ys ≡ no_sign → xs ≡ ys
  lists_sign-no_sign xs ys h = entries_sign-no_sign xs ys (or_else-no_sign _ _ h).1

bits_total : (x y : Bool) → entry_sign bit_lt x y ≡ no_sign → x ≡ y
bits_total x y h = ground arith

numbers_total : (x y : ℕ) → entry_sign ltb x y ≡ no_sign → x ≡ y
numbers_total x y h = ground arith

pub key_sign-IsComparison : IsComparison key_sign
key_sign-IsComparison =
    or_else-IsComparison
      (on-IsComparison (λ (k : Key). k.0) (lists_sign-IsComparison bit_lt bit_lt-order))
      (on-IsComparison (λ (k : Key). k.1) (lists_sign-IsComparison ltb ltb-order))

-- `HypothesisRecombinationOrderer` on what it reads is a strict weak order, as the beam needs it.
pub key_sign-order : StrictWeakOrder (λ a b. is_minus (key_sign a b))
key_sign-order = IsComparison-order key_sign-IsComparison

module _ {ℓ} {S : Type ℓ} (a b : Hypothesis S) (k l : Key) (ha : HasKey a k) (hb : HasKey b l) where
  pub recombine_compare_key : recombine_compare a b ≡ done (key_sign k l)
  unfolding recombine_compare compare_bitmaps
  recombine_compare_key = rw (compare_lem bit_lt k.0 l.0 ha.covers hb.covers) (
      first (lists_sign bit_lt k.0 l.0) (lists_sign ltb k.1 l.1) _
        (compare_lem ltb k.1 l.1 ha.state hb.state))
    where
      first :
          (s t : Sign) (m : Outcome Sign)
          → m ≡ done t
          → (elim s as (λ _. Outcome Sign) [
            | minus_one ↦ done minus_one
            | no_sign ↦ m
            | plus_one ↦ done plus_one
          ])
            ≡ done (or_else s t)
      first minus_one t m e = refl
      first no_sign t m e = e
      first plus_one t m e = refl

  -- `RecombineCompare` of two hypotheses with known coverage and state returns a value, and 0 exactly
  -- if they cover the same words and have the same state.
  pub recombine_compare-same :
      (s : Sign) × (recombine_compare a b ≡ done s) × ((s ≡ no_sign) ↔ (k ≡ l))
  recombine_compare-same = (
    key_sign k l,
    recombine_compare_key,
    (
      λ none.
          let (bits, state) = or_else-no_sign _ _ none in
          Key_ext k l (lists_sign-no_sign bit_lt bits_total k.0 l.0 bits)
            (lists_sign-no_sign ltb numbers_total k.1 l.1 state),
      λ same. rw same (key_sign-IsComparison.self l),
    ),
  )
