-- ===== src/Stack/Entries.antt =====
-- What all entries of a stack have in common survives `add` and `prune`, and a stack does not become empty.
use mathlib.Core.List.Permᴰ
use gpu_moses.Prelude.{
  ℕ, ◌*◌, ◌<◌, ◌≡◌, refl, Bool, List, [], arith, length, length-set, get_elem?_lt, All, All-left,
  lt→ltb, min,
}
use gpu_moses.Outcome.{Returns, returns, Returns-map, Returns-both}
use gpu_moses.Cuda.Vector
use gpu_moses.Cuda.Holds.{size-Holds}
use gpu_moses.Cuda.Order.{StrictWeakOrder}
use gpu_moses.Stack.{Stack, new, prune, add}
use gpu_moses.Stack.Perms.{length-Permᴰ, All-Permᴰ}
use gpu_moses.Stack.Prune.{IsStack, prune-Pruned}
use gpu_moses.Stack.Add.{Offered, added, replaced, refused}
use gpu_moses.Stack.Keep.{add-Added, add-conserves}

module _ {ℓ} {H : Type ℓ} (recomb better : H → H → Bool) (stack_size : ℕ) where
  -- A stack of entries with the property.
  pub record Filled {κ} (P : H → Type κ) (s : Stack H) (xs : List H) : Type (ℓ ⊔ κ) where
    pub is_stack : IsStack recomb better stack_size s xs
    pub all : All P xs

  pub new-Filled {κ} :
      (P : H → Type κ)
      → 0 < stack_size
      → Returns (λ s. Filled P s []) (new recomb better stack_size)
  unfolding new Vector.reserve_host
  new-Filled P positive = rw (lt→ltb 0 (stack_size * 2) (omega arith)) (
      returns (record {
        is_stack = record {
          holds = record { contents = refl; fits = omega arith };
          sorted = tt;
          tolerance = refl;
          capacity = refl;
        };
        all = tt;
      }))

  module _ (recomb_order : StrictWeakOrder recomb) (better_order : StrictWeakOrder better)
      (positive : 0 < stack_size) where
    Offered-some :
        (hypo : H) (s : Stack H) (xs : List H) (s' : Stack H) (ys : List H)
        → Offered recomb better stack_size recomb_order hypo s xs s' ys
        → 0 < length ys
    Offered-some hypo s xs s' ys (added p same) = omega (arith, length-Permᴰ p)
    Offered-some hypo s xs s' ys (replaced i other at _ _ _ e del) =
        rw e (omega (arith, length-set xs i hypo, get_elem?_lt xs i other at))
    Offered-some hypo s xs s' ys (refused i other at _ _ _ e del) =
        rw e (omega (arith, get_elem?_lt xs i other at))

    module _ {κ} (P : H → Type κ) where
      pub add-Filled :
          (hypo : H) (s : Stack H) (xs : List H)
          → Filled P s xs
          → P hypo
          → Returns
              (λ s'. (ys : List H) × Filled P s' ys × (0 < length ys))
              (add recomb better stack_size hypo s)
      add-Filled hypo s xs f good =
          Returns-map
            (Returns-both
              (add-Added recomb better stack_size recomb_order better_order positive hypo s xs
                f.is_stack)
              (add-conserves recomb better stack_size recomb_order better_order positive hypo s xs
                f.is_stack))
            λ s' ((ys, a), (zs, valid, lost, del, p)). (
              zs,
              record {
                is_stack = valid;
                all = All-left P zs lost (All-Permᴰ P (Permᴰ.symm p) (good, f.all));
              },
              omega (
                arith,
                size-Holds valid.holds,
                size-Holds a.valid.holds,
                Offered-some hypo a.pruned a.kept s' ys a.offered,
              ),
            )

      pub prune-Filled :
          (s : Stack H) (xs : List H)
          → Filled P s xs
          → Returns
              (λ s'. (ys : List H) × Filled P s' ys × (length ys ≡ min stack_size (length xs)))
              (prune recomb better stack_size s)
      prune-Filled s xs f =
          Returns-map
            (prune-Pruned recomb better stack_size recomb_order better_order s xs f.is_stack)
            λ s' (kept, dropped, p). (
              kept,
              record {
                is_stack = p.valid;
                all = All-left P kept dropped (All-Permᴰ P (Permᴰ.symm p.split) f.all);
              },
              p.count,
            )
