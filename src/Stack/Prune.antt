-- ===== src/Stack/Prune.antt =====
-- `Stack::prune` keeps the best `stack_size` hypotheses and deletes the rest.
use mathlib.Core.List.{Permᴰ, append-nil}
use mathlib.Core.List.Permᴰ
use gpu_moses.Prelude.{
  ℕ, ltb→lt, length-drop, min, ◌-◌, ◌*◌, ◌≤◌, ◌≡◌, refl, sym, ◌∙◌, Bool, false, List, [], ◌∷◌, ◌++◌,
  arith, length, length-take, take, drop, take-append-drop, All, ltb,
}
use gpu_moses.Outcome.{done, ◌>>=◌, Returns, returns, Returns-bind, Returns-if}
use gpu_moses.Cuda.Buffer.{Buffer, size, clear}
use gpu_moses.Cuda.Array
use gpu_moses.Cuda.Holds.{Holds, size-Holds}
use gpu_moses.Cuda.Order.{StrictWeakOrder, IsSorted, IsStrictlySorted, Ordered-left}
use gpu_moses.Stack.{Stack, prune, keep_loop, free_loop}
use gpu_moses.Stack.Perms.{
  Distinct-Permᴰ, IsStrictlySorted→Distinct, length-Permᴰ, All-Permᴰ, Ordered-cross,
}
use gpu_moses.Stack.Sort.{sort_loop-IsSorted, keep_loop-IsStrictlySorted, free_loop-append}

module _ {ℓ} {H : Type ℓ} (recomb better : H → H → Bool) (stack_size : ℕ) where
  -- The stack holds `xs`, no two of one recombination class, and has space for twice the beam.
  pub record IsStack (s : Stack H) (xs : List H) : Type ℓ where
    pub holds : Holds s.m_coll xs
    pub sorted : IsStrictlySorted recomb xs
    pub tolerance : s.m_tolerance ≡ stack_size * 2
    pub capacity : s.m_coll.max_size ≡ stack_size * 2

  -- No entry of `ys` has a better score than one of `xs`.
  abbrev pub NoneBetter : List H → List H → Type 0
  NoneBetter xs ys = All (λ x. All (λ y. better y x ≡ false) ys) xs

  -- The stack after a prune of one that held `xs`: it holds `kept`, the beam or all of `xs` if they
  -- are fewer; `dropped` was deleted, and none of it is better than anything kept.
  pub record Pruned (s : Stack H) (xs : List H) (s' : Stack H) (kept dropped : List H)
      : Type ℓ where
    pub valid : IsStack s' kept
    pub split : Permᴰ (kept ++ dropped) xs
    pub deleted : s'.freed ≡ s.freed ++ dropped
    pub best : NoneBetter kept dropped
    pub count : length kept ≡ min stack_size (length xs)

  pub NoneBetter-nil : (xs : List H) → NoneBetter xs []
  NoneBetter-nil [] = tt
  NoneBetter-nil (x ∷ xs) = (tt, NoneBetter-nil xs)

  module _ (recomb_order : StrictWeakOrder recomb) (better_order : StrictWeakOrder better) where
    -- The array that the sort starts from.
    reserve-empty : (n : ℕ) → Returns (λ b. Holds b []) (Array.reserve {A = H} n (Array.new 0))
    unfolding Array.reserve Array.new
    reserve-empty n =
        Returns-if (ltb 0 n) (λ _. returns (record { contents = refl; fits = omega arith }))
          (λ _. returns (record { contents = refl; fits = omega arith }))

    free_rest :
        (ss : List H) (sorted : Buffer H) (freed : List H)
        → Holds sorted ss
        → stack_size ≤ length ss
        → free_loop recomb better stack_size (size sorted - stack_size) stack_size sorted freed
          ≡ done (freed ++ drop stack_size ss)
    free_rest ss sorted freed hs enough =
        rw (rest, here) at
          (free_loop-append recomb better stack_size recomb_order better_order (take stack_size ss)
            (drop stack_size ss) sorted freed (rw (take-append-drop stack_size ss) hs))
      where
        here : length (take stack_size ss) ≡ stack_size
        here = omega (arith, length-take stack_size ss)

        rest : length (drop stack_size ss) ≡ size sorted - stack_size
        rest = omega (arith, length-drop stack_size ss, size-Holds hs)

    -- From the sorted array on: the beam is filled, and the rest is deleted.
    refill :
        (s : Stack H) (xs ss : List H) (sorted : Buffer H)
        → IsStack s xs
        → stack_size ≤ length xs
        → Holds sorted ss
        → IsSorted better ss
        → Permᴰ ss xs
        → Returns
            (λ s'. (kept : List H) × (dropped : List H) × Pruned s xs s' kept dropped)
            (keep_loop recomb better stack_size stack_size 0 sorted (clear s.m_coll) >>= λ coll.
              free_loop recomb better stack_size
                (size sorted - stack_size)
                stack_size
                sorted
                s.freed
              >>= λ freed. done (record s { m_coll = coll; freed = freed }))
    unfolding clear
    refill s xs ss sorted v enough hs is p =
        let enough' : stack_size ≤ length ss = omega (arith, length-Permᴰ p) in
        let best = take stack_size ss in
        let rest = drop stack_size ss in
        let whole : best ++ rest ≡ ss = take-append-drop stack_size ss in
        Returns-bind
          (keep_loop-IsStrictlySorted recomb better stack_size recomb_order better_order stack_size
            [] ss [] sorted (clear s.m_coll) hs enough'
            (record { contents = refl; fits = omega arith }) tt
            (rw (append-nil best) (
              Ordered-left _ best rest (
                rw whole (
                  Distinct-Permᴰ recomb (Permᴰ.symm p)
                    (IsStrictlySorted→Distinct recomb xs v.sorted)))))
            (omega (arith, v.capacity)))
          λ coll (kept, hk, is_k, pk', max).
            let pk : Permᴰ kept best = rw (append-nil best) at pk' in
            rw (free_rest ss sorted s.freed hs enough') (
              returns (
                kept,
                rest,
                record {
                  valid = record {
                    holds = hk;
                    sorted = is_k;
                    tolerance = v.tolerance;
                    capacity = max ∙ v.capacity;
                  };
                  split = Permᴰ.trans (Permᴰ.append_right rest pk) (rw whole p);
                  deleted = refl;
                  best =
                      All-Permᴰ _ (Permᴰ.symm pk)
                        (Ordered-cross (λ x y. better y x ≡ false) best rest (rw whole is));
                  count = omega (arith, length-Permᴰ pk, length-take stack_size ss, length-Permᴰ p);
                },
              ))

    -- `prune` ends without a fault. The stack then holds the best hypotheses, as many as the beam
    -- allows, and all others are deleted.
    pub prune-Pruned :
        (s : Stack H) (xs : List H)
        → IsStack s xs
        → Returns
            (λ s'. (kept : List H) × (dropped : List H) × Pruned s xs s' kept dropped)
            (prune recomb better stack_size s)
    unfolding prune
    prune-Pruned s xs v =
        Returns-if (ltb (size s.m_coll) stack_size)
          (λ few. returns (
            xs,
            [],
            record {
              valid = v;
              split = rw (append-nil xs) (Permᴰ.refl xs);
              deleted = sym (append-nil s.freed);
              best = NoneBetter-nil xs;
              count = omega (arith, ltb→lt (size s.m_coll) stack_size few, size-Holds v.holds);
            },
          ))
          λ many. rw (size-Holds v.holds) (
            Returns-bind (reserve-empty (length xs)) λ space hs.
              Returns-bind
                (sort_loop-IsSorted recomb better stack_size recomb_order better_order [] xs []
                  s.m_coll space v.holds hs tt)
                λ sorted (ss, hss, is, p).
                  refill s xs ss sorted v (ground (arith, size-Holds v.holds)) hss is
                    (rw (append-nil xs) at p))
