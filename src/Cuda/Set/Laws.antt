-- ===== src/Cuda/Set/Laws.antt =====
-- `insert` of CUDA/Set.h keeps the entries strictly sorted, and refuses an entry that is there already.
use gpu_moses.Prelude.{
  ℕ, ◌≤◌, ◌<◌, ◌≡◌, refl, ◌⊎◌, Bool, true, false, some, List, [], ◌∷◌, arith, length, get_elem?,
  insert_at, All, All_get, inl, inr, dec_lt, true≢false,
}
use gpu_moses.Outcome.{done, fault, assertion, Returns, Returns-map, Returns-inv}
use gpu_moses.Cuda.Buffer.{Buffer}
use gpu_moses.Cuda.Holds.{Holds}
use gpu_moses.Cuda.Order.{StrictWeakOrder, IsSorted, IsStrictlySorted, lt_asymm, insert_at-Ordered}
use gpu_moses.Cuda.Search.{upper_bound}
use gpu_moses.Cuda.Search.Finds.{Finds, upper_bound-Finds}
use gpu_moses.Cuda.Insert.{vector_insert-Holds, host_insert-Holds}
use gpu_moses.Cuda.Set.{insert, insert_host}

module _ {ℓ} {A : Type ℓ} (lt : A → A → Bool) (order : StrictWeakOrder lt) where
  All-asymm : (x : A) (xs : List A) → All (λ y. lt x y ≡ true) xs → All (λ y. lt y x ≡ false) xs
  All-asymm x [] h = tt
  All-asymm x (y ∷ xs) h = (lt_asymm order x y h.0, All-asymm x xs h.1)

  pub IsStrictlySorted→IsSorted : (xs : List A) → IsStrictlySorted lt xs → IsSorted lt xs
  IsStrictlySorted→IsSorted [] h = tt
  IsStrictlySorted→IsSorted (x ∷ xs) h = (All-asymm x xs h.0, IsStrictlySorted→IsSorted xs h.1)

  -- No entry is equivalent to the value.
  abbrev pub IsNew : A → List A → Type 0
  IsNew v = All (λ x. (lt v x ≡ true) ⊎ (lt x v ≡ true))

  -- The value has its place between the entries below it and those above it.
  abbrev pub PutIn : A → List A → List A → Type ℓ
  PutIn v xs ys = (i : ℕ) × (i ≤ length xs) × (ys ≡ insert_at i v xs) × IsStrictlySorted lt ys

  module _ (v : A) (xs : List A) (b : Buffer A) (holds : Holds b xs)
      (sorted : IsStrictlySorted lt xs) where
    weak : IsSorted lt xs
    weak = IsStrictlySorted→IsSorted xs sorted

    clash : (y : A) → (lt v y ≡ true) ⊎ (lt y v ≡ true) → lt v y ≡ false → lt y v ≡ false → ⊥
    clash y (inl p) q r = cc
    clash y (inr p) q r = cc

    insert_found :
        length xs < b.max_size
        → IsNew v xs
        → (r : Bool × ℕ) → upper_bound lt v b ≡ done r
        → Finds lt xs v r
        → Returns
            (λ b'. ((ys : List A) × Holds b' ys × PutIn v xs ys) × (b'.max_size ≡ b.max_size))
            (insert lt v b)
    unfolding insert
    insert_found space new (true, i) e (y, at_i, not_before, not_after) =
        absurd (clash y (All_get _ xs i y new at_i) not_before not_after)
    insert_found space new (false, i) e (in_range, below, above) = rw e (
        Returns-map (vector_insert-Holds i v xs b holds space in_range) λ b' p. (
          (
            insert_at i v xs,
            p.0,
            (i, in_range, refl, insert_at-Ordered _ i v xs sorted in_range below above),
          ),
          p.1,
        ))

    -- On the device, with room for one more, an entry that is new goes to its place in the order.
    pub insert-PutIn :
        length xs < b.max_size
        → IsNew v xs
        → Returns
            (λ b'. ((ys : List A) × Holds b' ys × PutIn v xs ys) × (b'.max_size ≡ b.max_size))
            (insert lt v b)
    insert-PutIn space new =
        let (r, e, found) = Returns-inv (upper_bound-Finds lt order v xs holds weak) in
        insert_found space new r e found

    host_found :
        IsNew v xs
        → (r : Bool × ℕ) → upper_bound lt v b ≡ done r
        → Finds lt xs v r
        → Returns (λ b'. (ys : List A) × Holds b' ys × PutIn v xs ys) (insert_host lt v b)
    unfolding insert_host
    host_found new (true, i) e (y, at_i, not_before, not_after) =
        absurd (clash y (All_get _ xs i y new at_i) not_before not_after)
    host_found new (false, i) e (in_range, below, above) = rw e (
        Returns-map (host_insert-Holds i v xs b holds in_range) λ b' p. (
          insert_at i v xs,
          p,
          (i, in_range, refl, insert_at-Ordered _ i v xs sorted in_range below above),
        ))

    -- On the host there is always room.
    pub insert_host-PutIn :
        IsNew v xs
        → Returns (λ b'. (ys : List A) × Holds b' ys × PutIn v xs ys) (insert_host lt v b)
    insert_host-PutIn new =
        let (r, e, found) = Returns-inv (upper_bound-Finds lt order v xs holds weak) in
        host_found new r e found

    present_found :
        (j : ℕ) (x : A)
        → get_elem? xs j ≡ some x
        → lt v x ≡ false
        → lt x v ≡ false
        → (r : Bool × ℕ) → upper_bound lt v b ≡ done r
        → Finds lt xs v r
        → insert lt v b ≡ fault assertion
    unfolding insert
    present_found j x at_x p q (true, i) e found = rw e
    present_found j x at_x p q (false, i) e (in_range, below, above) = elim (dec_lt j i) [
      | yes less ↦ absurd (true≢false (below j x less at_x) q)
      | no more ↦ absurd (true≢false (above j x (omega arith) at_x) p)
    ]

    -- An entry equivalent to one that is there fails the assertion.
    pub insert_present :
        (j : ℕ) (x : A)
        → get_elem? xs j ≡ some x
        → lt v x ≡ false
        → lt x v ≡ false
        → insert lt v b ≡ fault assertion
    insert_present j x at_x p q =
        let (r, e, found) = Returns-inv (upper_bound-Finds lt order v xs holds weak) in
        present_found j x at_x p q r e found
