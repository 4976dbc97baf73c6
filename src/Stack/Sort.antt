-- ===== src/Stack/Sort.antt =====
-- The loops of `Stack::prune`: a sort by binary insertion, the first entries kept, the others deleted.
use mathlib.Core.List.{Permᴰ, append-nil}
use mathlib.Core.List.Permᴰ
use gpu_moses.Prelude.{
  ℕ, zero, suc, ◌+◌, ◌≤◌, ◌≡◌, refl, sym, ap, ◌∙◌, Bool, List, [], ◌∷◌, ◌++◌, arith, length,
  length-append, take, All-right, insert_at, get_elem?-middle,
}
use gpu_moses.Outcome.{done, Returns, returns, Returns-bind, Returns-map}
use gpu_moses.Cuda.Buffer.{Buffer}
use gpu_moses.Cuda.Holds.{Holds, read-Holds}
use gpu_moses.Cuda.Order.{StrictWeakOrder, IsSorted, IsStrictlySorted}
use gpu_moses.Cuda.Search.Finds.{upper_bound-Finds, Finds-insert, Finds-le}
use gpu_moses.Cuda.Insert.{array_insert-Holds}
use gpu_moses.Cuda.Set.Laws.{insert-PutIn}
use gpu_moses.Stack.{sort_loop, keep_loop, free_loop}
use gpu_moses.Stack.Perms.{insert_at-Permᴰ, Distinct, Distinct-Permᴰ, length-Permᴰ}

append_step {ℓ} : {A : Type ℓ} (xs ys : List A) (v : A) → (xs ++ v ∷ []) ++ ys ≡ xs ++ (v ∷ ys)
append_step [] ys v = refl
append_step (x ∷ xs) ys v = ap (◌∷◌ x) (append_step xs ys v)

module _ {ℓ} {H : Type ℓ} (recomb better : H → H → Bool) (stack_size : ℕ)
    (recomb_order : StrictWeakOrder recomb) (better_order : StrictWeakOrder better) where
  -- The vector's entries from `i` on join the sorted ones.
  pub sort_loop-IsSorted :
      (us vs ss : List H) (vec sorted : Buffer H)
      → Holds vec (us ++ vs)
      → Holds sorted ss
      → IsSorted better ss
      → Returns
          (λ sorted'.
            (ss' : List H) × Holds sorted' ss' × IsSorted better ss' × Permᴰ ss' (vs ++ ss))
          (sort_loop recomb better stack_size (length vs) (length us) vec sorted)
  unfolding sort_loop
  sort_loop-IsSorted us [] ss vec sorted hv hs is = returns (ss, hs, is, Permᴰ.refl ss)
  sort_loop-IsSorted us (v ∷ vs) ss vec sorted hv hs is =
      rw (read-Holds hv (length us) v (get_elem?-middle us vs v)) (
        Returns-bind (upper_bound-Finds better better_order v ss hs is) λ r found.
          Returns-bind
            (array_insert-Holds r.1 v ss sorted hs
              (Finds-le better better_order v ss hs is r found))
            λ sorted' hs'.
              Returns-map
                (rw (length-append us (v ∷ [])) at (
                  sort_loop-IsSorted (us ++ v ∷ []) vs (insert_at r.1 v ss) vec sorted'
                    (rw (append_step us vs v) hv) hs'
                    (Finds-insert better better_order v ss hs is r found)))
                λ sorted'' (ss', h', is', p). (
                  ss',
                  h',
                  is',
                  Permᴰ.trans p (
                      Permᴰ.trans (Permᴰ.append_left vs (insert_at-Permᴰ r.1 v ss))
                        (Permᴰ.middle v vs ss)),
                ))

  -- The first `rounds` of the sorted entries go into the set.
  pub keep_loop-IsStrictlySorted :
      (rounds : ℕ) (us vs cs : List H) (sorted coll : Buffer H)
      → Holds sorted (us ++ vs)
      → rounds ≤ length vs
      → Holds coll cs
      → IsStrictlySorted recomb cs
      → Distinct recomb (take rounds vs ++ cs)
      → length cs + rounds ≤ coll.max_size
      → Returns
          (λ coll'.
            (cs' : List H) × Holds coll' cs'
            × IsStrictlySorted recomb cs'
            × Permᴰ cs' (take rounds vs ++ cs)
            × (coll'.max_size ≡ coll.max_size))
          (keep_loop recomb better stack_size rounds (length us) sorted coll)
  unfolding keep_loop
  keep_loop-IsStrictlySorted zero us vs cs sorted coll hs fits hc is distinct space =
      returns (cs, hc, is, Permᴰ.refl cs, refl)
  keep_loop-IsStrictlySorted (suc rounds) us [] cs sorted coll hs fits hc is distinct space =
      absurd (omega arith)
  keep_loop-IsStrictlySorted (suc rounds) us (v ∷ vs) cs sorted coll hs fits hc is distinct space =
      rw (read-Holds hs (length us) v (get_elem?-middle us vs v)) (
        Returns-bind
          (insert-PutIn recomb recomb_order v cs coll hc is (omega arith)
            (All-right _ (take rounds vs) cs distinct.0))
          λ coll' ((cs', hc', (i, in_range, e, is')), max).
            let placed : Permᴰ (v ∷ cs) cs' = rw e (Permᴰ.symm (insert_at-Permᴰ i v cs)) in
            let shown : Permᴰ (v ∷ (take rounds vs ++ cs)) (take rounds vs ++ cs') =
              Permᴰ.trans (Permᴰ.symm (Permᴰ.middle v (take rounds vs) cs))
                (Permᴰ.append_left (take rounds vs) placed) in
            Returns-map
              (rw (length-append us (v ∷ [])) at (
                keep_loop-IsStrictlySorted rounds (us ++ v ∷ []) vs cs' sorted coll'
                  (rw (append_step us vs v) hs) (omega arith) hc' is'
                  (Distinct-Permᴰ recomb shown distinct) (omega (arith, max, length-Permᴰ placed))))
              λ coll'' (cs'', hc'', is'', p, max'').
                (cs'', hc'', is'', Permᴰ.trans p (Permᴰ.symm shown), max'' ∙ max))

  -- All entries from `i` on are deleted.
  pub free_loop-append :
      (us vs : List H) (sorted : Buffer H) (freed : List H)
      → Holds sorted (us ++ vs)
      → free_loop recomb better stack_size (length vs) (length us) sorted freed ≡ done (freed ++ vs)
  unfolding free_loop
  free_loop-append us [] sorted freed h = ap done (sym (append-nil freed))
  free_loop-append us (v ∷ vs) sorted freed h =
      rw (read-Holds h (length us) v (get_elem?-middle us vs v)) (
        (rw (length-append us (v ∷ [])) at (
          free_loop-append (us ++ v ∷ []) vs sorted (freed ++ v ∷ []) (rw (append_step us vs v) h)))
        ∙ ap done (append_step freed vs v))
