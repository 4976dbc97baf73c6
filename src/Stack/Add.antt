-- ===== src/Stack/Add.antt =====
-- `Stack::add` never faults, keeps one hypothesis of each class, the better one, and loses none unseen.
use mathlib.Core.List.{Permᴰ}
use mathlib.Core.Path.{subst}
use mathlib.Core.Option.{some-injective}
use gpu_moses.Prelude.{
  ℕ, zero, suc, ◌*◌, ◌<◌, ◌≡◌, refl, ◌∙◌, inl, inr, Bool, true, false, some, List, [], ◌∷◌, ◌++◌,
  arith, length, All, All-of_get, set, get_elem?, get_elem?_lt, Bool-cases, dec_lt,
}
use gpu_moses.Outcome.{done, Returns, returns, Returns-bind, Returns-inv}
use gpu_moses.Cuda.Holds.{read-Holds, write-Holds}
use gpu_moses.Cuda.Order.{StrictWeakOrder, IsStrictlySorted, cotrans_right}
use gpu_moses.Cuda.Search.{upper_bound}
use gpu_moses.Cuda.Search.Finds.{Finds, AllBelow, AllAbove, upper_bound-Finds}
use gpu_moses.Cuda.Set.Laws.{IsStrictlySorted→IsSorted, insert-PutIn, IsNew}
use gpu_moses.Stack.{Stack, recombine}
use gpu_moses.Stack.Perms.{insert_at-Permᴰ}
use gpu_moses.Stack.Prune.{IsStack}

module _ {ℓ} {H : Type ℓ} (recomb better : H → H → Bool) (stack_size : ℕ)
    (recomb_order : StrictWeakOrder recomb) where
  -- The stack after a hypothesis has been offered to one that held `xs`: either it is new and is added,
  -- or one entry `other` is of its class, and of the two the one that is not better is deleted.
  pub data Offered (hypo : H) (s : Stack H) (xs : List H) (s' : Stack H) (ys : List H)
      : Type ℓ where
    added : Permᴰ ys (hypo ∷ xs) → s'.freed ≡ s.freed → Offered hypo s xs s' ys
    replaced :
        (i : ℕ) (other : H)
        → get_elem? xs i ≡ some other
        → recomb hypo other ≡ false
        → recomb other hypo ≡ false
        → better hypo other ≡ true
        → ys ≡ set xs i hypo
        → s'.freed ≡ s.freed ++ other ∷ []
        → Offered hypo s xs s' ys
    refused :
        (i : ℕ) (other : H)
        → get_elem? xs i ≡ some other
        → recomb hypo other ≡ false
        → recomb other hypo ≡ false
        → better hypo other ≡ false
        → ys ≡ xs
        → s'.freed ≡ s.freed ++ hypo ∷ []
        → Offered hypo s xs s' ys

  set-All :
      (i : ℕ) (hypo x other : H) (xs : List H)
      → get_elem? xs i ≡ some other
      → recomb hypo other ≡ false
      → All (λ y. recomb x y ≡ true) xs
      → All (λ y. recomb x y ≡ true) (set xs i hypo)
  set-All i hypo x other [] at not_before h = tt
  set-All zero hypo x other (y ∷ xs) at not_before h = (
    cotrans_right recomb_order x hypo other (rw (← some-injective y other at) h.0) not_before,
    h.1,
  )
  set-All (suc i) hypo x other (y ∷ xs) at not_before h =
      (h.0, set-All i hypo x other xs at not_before h.1)

  All-equivalent :
      (hypo other : H) (xs : List H)
      → recomb other hypo ≡ false
      → All (λ y. recomb other y ≡ true) xs
      → All (λ y. recomb hypo y ≡ true) xs
  All-equivalent hypo other [] not_after h = tt
  All-equivalent hypo other (y ∷ xs) not_after h =
      (recomb_order.cotrans other hypo y h.0 not_after, All-equivalent hypo other xs not_after h.1)

  -- An entry of the same class takes its place in the order.
  set-IsStrictlySorted :
      (i : ℕ) (hypo other : H) (xs : List H)
      → get_elem? xs i ≡ some other
      → recomb hypo other ≡ false
      → recomb other hypo ≡ false
      → IsStrictlySorted recomb xs
      → IsStrictlySorted recomb (set xs i hypo)
  set-IsStrictlySorted i hypo other [] at not_before not_after is = tt
  set-IsStrictlySorted zero hypo other (x ∷ xs) at not_before not_after is = (
    All-equivalent hypo other xs not_after
        (subst (λ x. All (λ y. recomb x y ≡ true) xs) (some-injective x other at) is.0),
    is.1,
  )
  set-IsStrictlySorted (suc i) hypo other (x ∷ xs) at not_before not_after is = (
    set-All i hypo x other xs at not_before is.0,
    set-IsStrictlySorted i hypo other xs at not_before not_after is.1,
  )

  module _ (hypo : H) (s : Stack H) (xs : List H) (v : IsStack recomb better stack_size s xs)
      (space : length xs < stack_size * 2) where
    recombine_case :
        (r : Bool × ℕ)
        → upper_bound recomb hypo s.m_coll ≡ done r
        → Finds recomb xs hypo r
        → Returns
            (λ s'. (ys : List H) × IsStack recomb better stack_size s' ys × Offered hypo s xs s' ys)
            (recombine recomb better stack_size hypo s)
    unfolding recombine
    recombine_case (true, i) e (other, at, not_before, not_after) =
        rw (e, read-Holds v.holds i other at)
          (elim (Bool-cases (better hypo other)) [
            | inl wins ↦ rw wins (
                Returns-bind (write-Holds v.holds i hypo (get_elem?_lt xs i other at))
                  λ coll (h, max). returns (
                    set xs i hypo,
                    record {
                      holds = h;
                      sorted =
                          set-IsStrictlySorted i hypo other xs at not_before not_after v.sorted;
                      tolerance = v.tolerance;
                      capacity = max ∙ v.capacity;
                    },
                    replaced i other at not_before not_after wins refl refl,
                  ))
            | inr loses ↦
                rw loses (returns (xs, v', refused i other at not_before not_after loses refl refl))
          ])
      where
        v' : IsStack recomb better stack_size (record s { freed = s.freed ++ hypo ∷ [] }) xs
        v' = record {
          holds = v.holds;
          sorted = v.sorted;
          tolerance = v.tolerance;
          capacity = v.capacity;
        }
    recombine_case (false, i) e (in_range, below, above) = rw e (
        Returns-bind
          (insert-PutIn recomb recomb_order hypo xs s.m_coll v.holds v.sorted
            (omega (arith, v.capacity)) (apart i below above))
          λ coll ((ys, h, (j, in_range', e', is)), max). returns (
            ys,
            record { holds = h; sorted = is; tolerance = v.tolerance; capacity = max ∙ v.capacity },
            added (rw e' (insert_at-Permᴰ j hypo xs)) refl,
          ))
      where
        apart :
            (i : ℕ)
            → AllBelow recomb xs hypo i
            → AllAbove recomb xs hypo i
            → IsNew recomb recomb_order hypo xs
        apart i below above = All-of_get _ xs λ j y at. elim (dec_lt j i) [
          | yes less ↦ inr (below j y less at)
          | no more ↦ inl (above j y (omega arith) at)
        ]

    -- `add`, once there is room, ends without a fault. A hypothesis of a new class is inserted; of two of
    -- one class the one with the better score stays, the old one if they are equal, and the other is
    -- deleted. The entries stay sorted, with no two of one class.
    pub recombine-Offered :
        Returns
          (λ s'. (ys : List H) × IsStack recomb better stack_size s' ys × Offered hypo s xs s' ys)
          (recombine recomb better stack_size hypo s)
    recombine-Offered =
        let (r, e, found) = Returns-inv (
          upper_bound-Finds recomb recomb_order hypo xs v.holds
            (IsStrictlySorted→IsSorted recomb recomb_order xs v.sorted)) in
        recombine_case r e found
