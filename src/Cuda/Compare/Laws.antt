-- ===== src/Cuda/Compare/Laws.antt =====
-- `Compare` returns a value on any two written arrays, and is a consistent three-way comparison.
use gpu_moses.Prelude.{
  ℕ, zero, suc, ◌+◌, ◌≡◌, refl, sym, ◌∙◌, Bool, some, List, [], ◌∷◌, arith, length, drop, drop_get,
  drop_end, get_elem?, get_elem?-some, ltb, if◌then◌else◌, ℕ_discrete,
}
use native.Mathlib.Numerals.{add-one}
use gpu_moses.Outcome.{done}
use gpu_moses.Cuda.Buffer.{Buffer}
use gpu_moses.Cuda.Holds.{Holds, size-Holds, read-Holds}
use gpu_moses.Cuda.Order.{StrictWeakOrder}
use gpu_moses.Cuda.Sign.{
  Sign, minus_one, no_sign, plus_one, negate, or_else, IsComparison, or_else-IsComparison,
  on-IsComparison, entry_sign, entry_sign-IsComparison, Composes, Composes-or_else, Composes-below,
  Composes-above, negate-or_else,
}
use gpu_moses.Cuda.Compare.{compare_loop, compare}

abbrev pub size_sign : ℕ → ℕ → Sign
size_sign m n = if ltb m n then minus_one else if ltb n m then plus_one else no_sign

size_sign-IsComparison : IsComparison size_sign
size_sign-IsComparison = record {
  self = λ a. ground arith;
  flip = λ a b. ground arith;
  comp = λ a b c. ground arith;
}

module _ {ℓ} {A : Type ℓ} (lt : A → A → Bool) where
  abbrev pub entries_sign : List A → List A → Sign
  entries_sign [] [] = no_sign
  entries_sign [] (y ∷ ys) = minus_one
  entries_sign (x ∷ xs) [] = plus_one
  entries_sign (x ∷ xs) (y ∷ ys) = or_else (entry_sign lt x y) (entries_sign xs ys)

  -- By size, and then by the first entry that differs.
  abbrev pub lists_sign : List A → List A → Sign
  lists_sign xs ys = or_else (size_sign (length xs) (length ys)) (entries_sign xs ys)

  module _ (order : StrictWeakOrder lt) where
    entries_sign-IsComparison : IsComparison entries_sign
    entries_sign-IsComparison = record { self = same; flip = turn; comp = chain }
      where
        entry : IsComparison (entry_sign lt)
        entry = entry_sign-IsComparison lt order

        same : (xs : List A) → entries_sign xs xs ≡ no_sign
        same [] = refl
        same (x ∷ xs) = rw (entry.self x) (same xs)

        turn : (xs ys : List A) → entries_sign ys xs ≡ negate (entries_sign xs ys)
        turn [] [] = refl
        turn [] (y ∷ ys) = refl
        turn (x ∷ xs) [] = refl
        turn (x ∷ xs) (y ∷ ys) = rw (entry.flip x y, turn xs ys) (sym (negate-or_else _ _))

        chain :
            (xs ys zs : List A)
            → Composes (entries_sign xs ys) (entries_sign ys zs) (entries_sign xs zs)
        chain [] [] zs = refl
        chain [] (y ∷ ys) [] = tt
        chain [] (y ∷ ys) (z ∷ zs) = Composes-below (entries_sign (y ∷ ys) (z ∷ zs))
        chain (x ∷ xs) [] [] = refl
        chain (x ∷ xs) [] (z ∷ zs) = tt
        chain (x ∷ xs) (y ∷ ys) [] = Composes-above (entries_sign (x ∷ xs) (y ∷ ys))
        chain (x ∷ xs) (y ∷ ys) (z ∷ zs) =
            Composes-or_else _ _ _ _ _ _ (entry.comp x y z) (chain xs ys zs)

    pub lists_sign-IsComparison : IsComparison lists_sign
    lists_sign-IsComparison =
        or_else-IsComparison (on-IsComparison length size_sign-IsComparison)
          entries_sign-IsComparison

  module _ {a b : Buffer A} (xs ys : List A) (ha : Holds a xs) (hb : Holds b ys) where
    compare_loop_step :
        (rounds i : ℕ) (x y : A) (rest : Sign)
        → get_elem? xs i ≡ some x
        → get_elem? ys i ≡ some y
        → compare_loop lt rounds (i + 1) a b ≡ done rest
        → compare_loop lt (suc rounds) i a b ≡ done (or_else (entry_sign lt x y) rest)
    unfolding compare_loop
    compare_loop_step rounds i x y rest at_x at_y e =
        rw (read-Holds ha i x at_x, read-Holds hb i y at_y) (ground arith)

    compare_loop_lem :
        (rounds i : ℕ)
        → rounds + i ≡ length xs
        → length xs ≡ length ys
        → compare_loop lt rounds i a b ≡ done (entries_sign (drop i xs) (drop i ys))
    unfolding compare_loop
    compare_loop_lem zero i e len =
        rw (drop_end i xs (omega arith), drop_end i ys (omega arith)) refl
    compare_loop_lem (suc rounds) i e len =
        let (x, at_x) = get_elem?-some xs i (omega arith) in
        let (y, at_y) = get_elem?-some ys i (omega arith) in
        let rest : compare_loop lt rounds (i + 1) a b
            ≡ done (entries_sign (drop (suc i) xs) (drop (suc i) ys)) =
          rw (← add-one i) (compare_loop_lem rounds (i + 1) (omega arith) len) in
        compare_loop_step rounds i x y _ at_x at_y rest
        ∙ rw (drop_get i x xs at_x, drop_get i y ys at_y) refl

    -- `Compare` of two written arrays ends and reads inside both; its result is the sign by size,
    -- and between arrays of one size that of the first two entries that differ, reversed.
    pub compare_lem : compare lt a b ≡ done (lists_sign xs ys)
    unfolding compare
    compare_lem =
        rw (size-Holds ha, size-Holds hb)
          (elim (ℕ_discrete (length xs) (length ys)) [
            | yes len ↦ ground (arith, compare_loop_lem (length xs) 0 (omega arith) len)
            | no differ ↦ ground arith
          ])
