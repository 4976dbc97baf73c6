-- ===== src/Cuda/Search/Finds.antt =====
-- On a sorted buffer `upperBound` finds an equivalent entry or the place where the value belongs.
use gpu_moses.Prelude.{
  ℕ, zero, suc, ◌+◌, ◌-◌, ◌/◌, ◌≤◌, ◌<◌, ◌≡◌, Bool, true, false, some, List, arith, length,
  get_elem?, get_elem?-some, get_elem?_lt, Bool-cases, inl, inr, dec_lt, lt→ltb, insert_at, ltb,
}
use gpu_moses.Outcome.{Returns, returns}
use gpu_moses.Cuda.Buffer.{Buffer}
use gpu_moses.Cuda.Order.{
  StrictWeakOrder, IsSorted, Ordered_get, insert_at-Ordered, cotrans_right, lt_asymm,
  not_after_trans,
}
use gpu_moses.Cuda.Holds.{Holds, size-Holds, read-Holds}
use gpu_moses.Cuda.Search.{search_loop, upper_bound}

module _ {ℓ} {A : Type ℓ} (lt : A → A → Bool) (xs : List A) (sought : A) where
  -- All entries before `i` are below the value; all from `i` on are above it.
  abbrev pub AllBelow : ℕ → Type ℓ
  AllBelow i = (j : ℕ) (y : A) → j < i → get_elem? xs j ≡ some y → lt y sought ≡ true

  abbrev pub AllAbove : ℕ → Type ℓ
  AllAbove i = (j : ℕ) (y : A) → i ≤ j → get_elem? xs j ≡ some y → lt sought y ≡ true

  -- What the pair returned says.
  abbrev pub Finds : Bool × ℕ → Type ℓ
  Finds (true, i) =
      (y : A) × (get_elem? xs i ≡ some y) × (lt sought y ≡ false) × (lt y sought ≡ false)
  Finds (false, i) = (i ≤ length xs) × AllBelow i × AllAbove i

module _ {ℓ} {A : Type ℓ} (lt : A → A → Bool) (order : StrictWeakOrder lt) (sought : A)
    {b : Buffer A} (xs : List A) (holds : Holds b xs) (sorted : IsSorted lt xs) where
  open order use {cotrans}

  AllAbove-mid :
      (x : ℕ) (obj : A) → get_elem? xs x ≡ some obj → lt sought obj ≡ true → AllAbove lt xs sought x
  AllAbove-mid x obj at_x h j y le e = elim (dec_lt x j) [
    | yes later ↦
        cotrans_right order sought y obj h (Ordered_get _ xs x j obj y later sorted at_x e)
    | no here ↦ let same : x ≡ j = omega arith in cc
  ]

  AllBelow-mid :
      (x : ℕ) (obj : A)
      → get_elem? xs x ≡ some obj
      → lt obj sought ≡ true
      → AllBelow lt xs sought (x + 1)
  AllBelow-mid x obj at_x h j y le e = elim (dec_lt j x) [
    | yes earlier ↦ cotrans obj y sought h (Ordered_get _ xs j x y obj earlier sorted e at_x)
    | no here ↦ let same : x ≡ j = omega arith in cc
  ]

  search_loop-Finds :
      (fuel l bound : ℕ)
      → bound < l + fuel
      → l ≤ bound
      → bound ≤ length xs
      → AllBelow lt xs sought l
      → AllAbove lt xs sought bound
      → Returns (Finds lt xs sought) (search_loop lt sought b fuel l bound bound)
  unfolding search_loop
  search_loop-Finds zero l bound f le in_range below above = absurd (omega arith)
  search_loop-Finds (suc fuel) l bound f le in_range below above = elim (Bool-cases (ltb l bound)) [
    | inr stop ↦
        let met : l ≡ bound = ground arith in
        rw (stop, search_loop) (returns (in_range, rw met at below, above))
    | inl go ↦
        let x = (l + (bound - 1)) / 2 in
        let inside : x < bound = ground arith in
        let (obj, at_x) = get_elem?-some xs x (omega arith) in
        rw (go, search_loop, read-Holds holds x obj at_x)
          (elim (Bool-cases (lt sought obj)) [
            | inl before ↦
                rw (before, lt→ltb x bound inside)
                  (search_loop-Finds fuel l x (omega arith) (ground arith) (omega arith) below
                    (AllAbove-mid x obj at_x before))
            | inr not_before ↦ rw not_before (elim (Bool-cases (lt obj sought)) [
              | inl after ↦ rw after (
                  search_loop-Finds fuel (x + 1) bound (ground arith) (omega arith) in_range
                    (AllBelow-mid x obj at_x after) above)
              | inr not_after ↦ rw not_after (returns (obj, at_x, not_before, not_after))
            ])
          ])
  ]

  -- On a buffer sorted by a strict weak order `upperBound` ends, reads no cell that is not there, and
  -- returns either the index of an entry equivalent to the value, or, if there is none, the index
  -- before which all entries are below the value and from which on all are above it.
  pub upper_bound-Finds : Returns (Finds lt xs sought) (upper_bound lt sought b)
  unfolding upper_bound
  upper_bound-Finds = rw (size-Holds holds) (
      search_loop-Finds (suc (length xs)) 0 (length xs) (omega arith) (omega arith) (omega arith)
        (λ j y less e. absurd (omega arith))
        (λ j y more e. absurd (omega (arith, get_elem?_lt xs j y e))))

  -- Either way, a value put at that index leaves the entries in order.
  pub Finds-insert : (r : Bool × ℕ) → Finds lt xs sought r → IsSorted lt (insert_at r.1 sought xs)
  Finds-insert (true, i) (y, at_i, not_before, not_after) =
      insert_at-Ordered _ i sought xs sorted (omega (arith, get_elem?_lt xs i y at_i))
        (λ j z less e.
          not_after_trans order z y sought (Ordered_get _ xs j i z y less sorted e at_i) not_before)
        (λ j z more e. elim (dec_lt i j) [
          | yes later ↦
              not_after_trans order sought y z not_after
                (Ordered_get _ xs i j y z later sorted at_i e)
          | no here ↦ let same : i ≡ j = omega arith in cc
        ])
  Finds-insert (false, i) (in_range, below, above) =
      insert_at-Ordered _ i sought xs sorted in_range
        (λ j z less e. lt_asymm order z sought (below j z less e))
        (λ j z more e. lt_asymm order sought z (above j z more e))

  pub Finds-le : (r : Bool × ℕ) → Finds lt xs sought r → r.1 ≤ length xs
  Finds-le (true, i) (y, at_i, not_before, not_after) = omega (arith, get_elem?_lt xs i y at_i)
  Finds-le (false, i) (in_range, below, above) = in_range
