-- ===== src/Cuda/Map/Laws.antt =====
-- A map against the list of its pairs: `upperBound` with `GetValue` finds a key, `Insert` adds one.
use gpu_moses.Prelude.{
  ℕ, zero, suc, ◌<◌, ◌≡◌, ◌≢◌, refl, sym, ap, ◌∙◌, Bool, true, false, Option, none, some, List, [],
  ◌∷◌, arith, get_elem?, insert_at, All_get, All-of_get, Bool-cases, inl, inr, ◌⊎◌, none≢some, ltb,
  ltb→lt, ==_iff, not-==, dec_lt, ◌==◌, if◌then◌else◌,
}
use mathlib.Core.Option.{some-injective}
use gpu_moses.Outcome.{done, Returns, Returns-inv, Returns-map}
use gpu_moses.Cuda.Buffer.{Buffer}
use gpu_moses.Cuda.Holds.{Holds, read-Holds}
use gpu_moses.Cuda.Order.{StrictWeakOrder, IsStrictlySorted}
use gpu_moses.Cuda.Search.Finds.{Finds, upper_bound-Finds}
use gpu_moses.Cuda.Set.Laws.{IsStrictlySorted→IsSorted, IsNew, insert_host-PutIn}
use gpu_moses.Cuda.Map.{key_lt, get_value, insert_host, upper_bound}

module _ {ℓ} {V : Type ℓ} where
  pub key_lt-order : StrictWeakOrder (key_lt {V = V})
  key_lt-order = record {
    irrefl = λ a. ground arith;
    trans = λ a b c p q. ground arith;
    cotrans = λ a b c p q. ground arith;
  }

  -- The value of the first pair with the key.
  abbrev pub assoc : ℕ → List (ℕ × V) → Option V
  assoc k [] = none
  assoc k ((j, v) ∷ kvs) = if j == k then some v else assoc k kvs

  abbrev pub IsMap : List (ℕ × V) → Type 0
  IsMap = IsStrictlySorted key_lt

  assoc-found :
      (k i : ℕ) (j : ℕ) (v : V) (kvs : List (ℕ × V))
      → IsMap kvs
      → get_elem? kvs i ≡ some (j, v)
      → j ≡ k
      → assoc k kvs ≡ some v
  assoc-found k i j v [] m at e = cc
  assoc-found k zero j v ((j', v') ∷ kvs) m at e =
      let pair : (j', v') ≡ (j, v) = some-injective _ _ at in
      let same : j' ≡ k = ap (λ (p : ℕ × V). p.0) pair ∙ e in
      rw ((==_iff j' k).1 same) (ap (λ (p : ℕ × V). some p.1) pair)
  assoc-found k (suc i) j v ((j', v') ∷ kvs) m at e =
      let less : j' < j = ltb→lt j' j (All_get _ kvs i (j, v) m.0 at) in
      rw (not-== j' k (λ same. absurd (omega arith))) (assoc-found k i j v kvs m.1 at e)

  assoc-missing :
      (k : ℕ) (kvs : List (ℕ × V))
      → ((i j : ℕ) (v : V) → get_elem? kvs i ≡ some (j, v) → j ≢ k)
      → assoc k kvs ≡ none
  assoc-missing k [] h = refl
  assoc-missing k ((j, v) ∷ kvs) h =
      rw (not-== j k (h 0 j v refl)) (assoc-missing k kvs (λ i. h (suc i)))

  -- What the pair that the search returns says of the key.
  abbrev pub FindsKey : ℕ → List (ℕ × V) → Buffer (ℕ × V) → Bool × ℕ → Type ℓ
  FindsKey k kvs b (true, i) = (v : V) × (assoc k kvs ≡ some v) × (get_value b i ≡ done v)
  FindsKey k kvs b (false, i) = assoc k kvs ≡ none

  finds_key :
      (default : V) (k : ℕ) (kvs : List (ℕ × V)) (b : Buffer (ℕ × V))
      → Holds b kvs
      → IsMap kvs
      → (r : Bool × ℕ) → Finds key_lt kvs (k, default) r
      → FindsKey k kvs b r
  unfolding get_value
  finds_key default k kvs b h m (true, i) ((j, v), at, not_before, not_after) =
      (v, assoc-found k i j v kvs m at (ground arith), rw (read-Holds h i (j, v) at))
  finds_key default k kvs b h m (false, i) (in_range, below, above) =
      assoc-missing k kvs λ n j v at same. elim (dec_lt n i) [
        | yes less ↦ absurd (omega (arith, ltb→lt j k (below n (j, v) less at)))
        | no more ↦ absurd (omega (arith, ltb→lt k j (above n (j, v) (omega arith) at)))
      ]

  -- The search for a key, and then the value at the index found: what `Lookup` and
  -- `AddOrCreateNode` do with a node's children.
  pub upper_bound_assoc :
      (default : V) (k : ℕ) (kvs : List (ℕ × V)) (b : Buffer (ℕ × V))
      → Holds b kvs
      → IsMap kvs
      → (r : Bool × ℕ) × (upper_bound default k b ≡ done r) × FindsKey k kvs b r
  unfolding upper_bound
  upper_bound_assoc default k kvs b h m =
      let (r, e, found) = Returns-inv (
        upper_bound-Finds key_lt key_lt-order (k, default) kvs h
          (IsStrictlySorted→IsSorted key_lt key_lt-order kvs m)) in
      (r, e, finds_key default k kvs b h m r found)

  assoc-insert :
      (k j i : ℕ) (v : V) (kvs : List (ℕ × V))
      → assoc k kvs ≡ none
      → assoc j (insert_at i (k, v) kvs) ≡ (if k == j then some v else assoc j kvs)
  assoc-insert k j zero v kvs new = refl
  assoc-insert k j (suc i) v [] new = refl
  assoc-insert k j (suc i) v ((k', v') ∷ kvs) new = elim (Bool-cases (k' == k)) [
    | inl here ↦ absurd (none≢some v' (sym new ∙ rw here))
    | inr other ↦ elim (Bool-cases (k' == j)) [
      | inl at_j ↦ rw (at_j, differ at_j other)
      | inr not_at_j ↦ rw not_at_j (assoc-insert k j i v kvs (rw other at new))
    ]
  ]
    where
      differ : (k' == j) ≡ true → (k' == k) ≡ false → (k == j) ≡ false
      differ p q = ground arith

  IsNew-key :
      (k : ℕ) (v : V) (kvs : List (ℕ × V))
      → IsMap kvs
      → assoc k kvs ≡ none
      → IsNew key_lt key_lt-order (k, v) kvs
  IsNew-key k v kvs m new = All-of_get _ kvs λ i (j, w) at.
      apart k j λ same. none≢some w (sym new ∙ assoc-found k i j w kvs m at (sym same))
    where
      apart : (k j : ℕ) → k ≢ j → (ltb k j ≡ true) ⊎ (ltb j k ≡ true)
      apart k j h = ground arith

  -- `Insert` of a key that is not there adds its pair and changes no other.
  pub insert_host-assoc :
      (k : ℕ) (v : V) (kvs : List (ℕ × V)) (b : Buffer (ℕ × V))
      → Holds b kvs
      → IsMap kvs
      → assoc k kvs ≡ none
      → Returns
          (λ b'.
            (kvs' : List (ℕ × V)) × Holds b' kvs'
            × IsMap kvs'
            × ((j : ℕ) → assoc j kvs' ≡ (if k == j then some v else assoc j kvs)))
          (insert_host k v b)
  unfolding insert_host
  insert_host-assoc k v kvs b h m new =
      Returns-map (insert_host-PutIn key_lt key_lt-order (k, v) kvs b h m (IsNew-key k v kvs m new))
        λ b' (kvs', h', (i, in_range, e, m')).
          (kvs', h', m', λ j. rw e (assoc-insert k j i v kvs new))
