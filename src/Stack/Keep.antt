-- ===== src/Stack/Keep.antt =====
-- `Stack::add` in full: room is made by `prune`, and no hypothesis is lost without being deleted.
use mathlib.Core.List.{Permᴰ, append_assoc, append-nil}
use mathlib.Core.List.Permᴰ
use gpu_moses.Prelude.{
  set, ℕ, ◌*◌, ◌<◌, ◌≡◌, refl, sym, ◌∙◌, Bool, List, [], ◌∷◌, ◌++◌, arith, length, leb, leb-false,
  leb→le, if◌then◌else◌, true, false,
}
use gpu_moses.Outcome.{done, Returns, returns, Returns-bind, Returns-map, Returns-if}
use gpu_moses.Cuda.Buffer.{size}
use gpu_moses.Cuda.Holds.{size-Holds}
use gpu_moses.Cuda.Order.{StrictWeakOrder}
use gpu_moses.Stack.{Stack, prune, add}
use gpu_moses.Stack.Perms.{set-Permᴰ}
use gpu_moses.Stack.Prune.{IsStack, NoneBetter, NoneBetter-nil, prune-Pruned}
use gpu_moses.Stack.Add.{Offered, added, replaced, refused, recombine-Offered}

module _ {ℓ} {H : Type ℓ} (recomb better : H → H → Bool) (stack_size : ℕ)
    (recomb_order : StrictWeakOrder recomb) (better_order : StrictWeakOrder better)
    (positive : 0 < stack_size) where
  -- The stack after `add`: if it was full, `dropped` has been deleted and the best `stack_size` entries
  -- are kept; then `hypo` has been offered to what was kept.
  pub record Added (hypo : H) (s : Stack H) (xs : List H) (s' : Stack H) (ys : List H)
      : Type ℓ where
    pub pruned : Stack H
    pub kept : List H
    pub dropped : List H
    pub split : Permᴰ (kept ++ dropped) xs
    pub deleted : pruned.freed ≡ s.freed ++ dropped
    pub best : NoneBetter recomb better stack_size kept dropped
    pub count : length kept ≡ (if leb (stack_size * 2) (length xs) then stack_size else length xs)
    pub valid : IsStack recomb better stack_size s' ys
    pub offered : Offered recomb better stack_size recomb_order hypo pruned kept s' ys

  -- What the first step of `add` leaves.
  record RoomMade (s : Stack H) (xs : List H) (s1 : Stack H) (kept dropped : List H) : Type ℓ where
    valid : IsStack recomb better stack_size s1 kept
    split : Permᴰ (kept ++ dropped) xs
    deleted : s1.freed ≡ s.freed ++ dropped
    best : NoneBetter recomb better stack_size kept dropped
    count : length kept ≡ (if leb (stack_size * 2) (length xs) then stack_size else length xs)

  count-space :
      (b : Bool) (n : ℕ)
      → leb (stack_size * 2) n ≡ b
      → (if b then stack_size else n) < stack_size * 2
  count-space true n e = omega arith
  count-space false n e = leb-false (stack_size * 2) n e

  make_room :
      (s : Stack H) (xs : List H)
      → IsStack recomb better stack_size s xs
      → Returns
          (λ s1. (kept : List H) × (dropped : List H) × RoomMade s xs s1 kept dropped)
          (if leb s.m_tolerance (size s.m_coll) then prune recomb better stack_size s else done s)
  make_room s xs v =
      Returns-if (leb s.m_tolerance (size s.m_coll))
        (λ full.
          let full' : leb (stack_size * 2) (length xs) ≡ true =
            rw (v.tolerance, size-Holds v.holds) at full in
          Returns-map (prune-Pruned recomb better stack_size recomb_order better_order s xs v)
            λ s1 (kept, dropped, p). (
              kept,
              dropped,
              record {
                valid = p.valid;
                split = p.split;
                deleted = p.deleted;
                best = p.best;
                count =
                    rw full' (omega (arith, p.count, leb→le (stack_size * 2) (length xs) full'));
              },
            ))
        λ room.
          let room' : leb (stack_size * 2) (length xs) ≡ false =
            rw (v.tolerance, size-Holds v.holds) at room in
          returns (
            xs,
            [],
            record {
              valid = v;
              split = rw (append-nil xs) (Permᴰ.refl xs);
              deleted = sym (append-nil s.freed);
              best = NoneBetter-nil recomb better stack_size xs;
              count = rw room' refl;
            },
          )

  -- With a beam that is not 0, `add` ends without a fault. If the stack was full, it is pruned: the best
  -- `stack_size` entries are kept, and the others, none of which is better, are deleted. Then the new
  -- hypothesis is inserted or recombined with the entry of its class. The entries stay sorted, with
  -- no two of one class, and within the capacity.
  pub add-Added :
      (hypo : H) (s : Stack H) (xs : List H)
      → IsStack recomb better stack_size s xs
      → Returns (λ s'. (ys : List H) × Added hypo s xs s' ys) (add recomb better stack_size hypo s)
  unfolding add
  add-Added hypo s xs v = Returns-bind (make_room s xs v) λ s1 (kept, dropped, room).
      Returns-map
        (recombine-Offered recomb better stack_size recomb_order hypo s1 kept room.valid
          (rw room.count (count-space _ (length xs) refl)))
        λ s' (ys, valid, offered). (
          ys,
          record {
            pruned = s1;
            kept = kept;
            dropped = dropped;
            split = room.split;
            deleted = room.deleted;
            best = room.best;
            count = room.count;
            valid = valid;
            offered = offered;
          },
        )

  pub Offered-conserves :
      (hypo : H) (s : Stack H) (xs : List H) (s' : Stack H) (ys : List H)
      → Offered recomb better stack_size recomb_order hypo s xs s' ys
      → (lost : List H) × (s'.freed ≡ s.freed ++ lost) × Permᴰ (ys ++ lost) (hypo ∷ xs)
  Offered-conserves hypo s xs s' ys (added p same) =
      ([], same ∙ sym (append-nil s.freed), rw (append-nil ys) p)
  Offered-conserves hypo s xs s' ys (replaced i other at _ _ _ e del) = (
    other ∷ [],
    del,
    rw e (
        Permᴰ.trans (Permᴰ.append_comm (set xs i hypo) (other ∷ []))
          (set-Permᴰ i hypo other xs at)),
  )
  Offered-conserves hypo s xs s' ys (refused i other at _ _ _ e del) =
      (hypo ∷ [], del, rw e (Permᴰ.append_comm xs (hypo ∷ [])))

  -- `add` loses no hypothesis: every one that was in the stack or is added is afterwards in the stack or deleted,
  -- and none is both.
  pub add-conserves :
      (hypo : H) (s : Stack H) (xs : List H)
      → IsStack recomb better stack_size s xs
      → Returns
          (λ s'.
            (ys : List H) × IsStack recomb better stack_size s' ys
            × (lost : List H) × (s'.freed ≡ s.freed ++ lost)
            × Permᴰ (ys ++ lost) (hypo ∷ xs))
          (add recomb better stack_size hypo s)
  add-conserves hypo s xs v = Returns-map (add-Added hypo s xs v) λ s' (ys, a).
      let (lost, del, p) = Offered-conserves hypo a.pruned a.kept s' ys a.offered in
      (
        ys,
        a.valid,
        a.dropped ++ lost,
        rw (del, a.deleted) (append_assoc s.freed a.dropped lost),
        Permᴰ.trans (Permᴰ.append_left ys (Permᴰ.append_comm a.dropped lost)) (
            Permᴰ.trans (rw (← append_assoc ys lost a.dropped) (Permᴰ.append_right a.dropped p))
              (Permᴰ.cons refl a.split)),
      )
