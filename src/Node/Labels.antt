-- ===== src/Node/Labels.antt =====
-- A heap of trie nodes is a tree: every node has one path from the root, which is its label.
use mathlib.Core.List.{append_assoc, append-nil}
use mathlib.Core.Option
use mathlib.Core.Option.{some-injective}
use gpu_moses.Prelude.{
  ℕ, ◌<◌, ◌≡◌, sym, ap, ◌∙◌, Bool, true, false, none, some, List, [], ◌∷◌, ◌++◌, arith, length,
  length-append, get_elem?, get_elem?-some, get_elem?_lt, get_elem?-append_left, get_elem?-middle,
  none≢some, if◌then◌else◌, ◌==◌, ==_iff, dec_lt, Bool-cases, inl, inr,
}
use gpu_moses.Outcome.{done, Returns, returns, Returns-bind, Returns-both, Returns-map}
use gpu_moses.Cuda.Buffer.{Buffer}
use gpu_moses.Cuda.Holds.{Holds}
use gpu_moses.Cuda.Map.Laws.{assoc, IsMap, upper_bound_assoc, FindsKey, insert_host-assoc}
use gpu_moses.Cuda.Map
use gpu_moses.Node.{Node, child_for, add_or_create_node}
use gpu_moses.Node.Heap.{IsHeap, pairs, find, find-Extends}
use gpu_moses.Node.Find.{node_at-get}
use gpu_moses.Node.Add.{child_for-Added}
use gpu_moses.Node.Grow.{Added, grown, grown-Added, grown_cases, linked, length-grown}

module _ {ℓ} {V : Type ℓ} where
  -- The label of a child is that of its parent, and the word.
  pub record IsLabelled (heap : List (Node V)) (labels : List (List ℕ)) : Type ℓ where
    pub one_each : length labels ≡ length heap
    pub root : get_elem? labels 0 ≡ some []
    pub edge :
        (p : ℕ) (node : Node V) (w c : ℕ)
        → get_elem? heap p ≡ some node
        → assoc w (pairs node) ≡ some c
        → (l : List ℕ) × (get_elem? labels p ≡ some l) × (get_elem? labels c ≡ some (l ++ w ∷ []))
    pub reached : (q : ℕ) (l : List ℕ) → get_elem? labels q ≡ some l → find heap 0 l ≡ some q

  -- A path, and a path from where it ends.
  find-append :
      (heap : List (Node V)) (p q r : ℕ) (us ws : List ℕ)
      → find heap p us ≡ some q
      → find heap q ws ≡ some r
      → find heap p (us ++ ws) ≡ some r
  unfolding find
  find-append heap p q r [] ws e e' = rw (some-injective p q e) e'
  find-append heap p q r (u ∷ us) ws e e' =
      let (node, at, rest) = (Option.bind-eq-some_iff (get_elem? heap p) _).0 e in
      let (c, child, rest') = (Option.bind-eq-some_iff (assoc u (pairs node)) _).0 rest in
      rw (at, child) (find-append heap c q r us ws rest' e')

  -- What is found has the path as its label.
  pub find-label :
      (heap : List (Node V)) (labels : List (List ℕ)) (p : ℕ) (l ws : List ℕ) (q : ℕ)
      → IsLabelled heap labels
      → get_elem? labels p ≡ some l
      → find heap p ws ≡ some q
      → get_elem? labels q ≡ some (l ++ ws)
  unfolding find
  find-label heap labels p l [] q is at e = rw (append-nil l, ← some-injective p q e) at
  find-label heap labels p l (w ∷ ws) q is at e =
      let (node, at_p, rest) = (Option.bind-eq-some_iff (get_elem? heap p) _).0 e in
      let (c, child, rest') = (Option.bind-eq-some_iff (assoc w (pairs node)) _).0 rest in
      let (l', at_l, at_c) = is.edge p node w c at_p child in
      let same : l' ≡ l = some-injective l' l (sym at_l ∙ at) in
      find-label heap labels c (l ++ w ∷ []) ws q is (rw (← same) at_c) rest'
      ∙ ap some (append_assoc l (w ∷ []) ws)

  -- Two paths from the root never lead to one node.
  pub find-injective :
      (heap : List (Node V)) (labels : List (List ℕ)) (ws ws' : List ℕ) (q : ℕ)
      → IsLabelled heap labels
      → find heap 0 ws ≡ some q
      → find heap 0 ws' ≡ some q
      → ws ≡ ws'
  find-injective heap labels ws ws' q is e e' = some-injective ws ws' (
      sym (find-label heap labels 0 [] ws q is is.root e)
      ∙ find-label heap labels 0 [] ws' q is is.root e')

  module _ (def_val : V) where
    -- More labels, the old ones kept.
    abbrev pub Relabels : List (List ℕ) → ℕ × List (Node V) → Type ℓ
    Relabels labels r =
        (labels' : List (List ℕ)) × IsLabelled r.1 labels'
        × ((q : ℕ) (l : List ℕ) → get_elem? labels q ≡ some l → get_elem? labels' q ≡ some l)

    grown-IsLabelled :
        (heap : List (Node V)) (well : IsHeap heap) (labels : List (List ℕ))
        (is : IsLabelled heap labels) (p : ℕ) (node : Node V) (at_p : get_elem? heap p ≡ some node)
        (w : ℕ) (missing : assoc w (pairs node) ≡ none) (children : Buffer (ℕ × ℕ))
        (kvs : List (ℕ × ℕ)) (holds : Holds children kvs) (sorted : IsMap kvs)
        (kids : (j : ℕ)
          → assoc j kvs ≡ (if w == j then some (length heap) else assoc j (pairs node)))
        (l : List ℕ)
        → get_elem? labels p ≡ some l
        → IsLabelled
            (grown def_val heap well p node at_p w missing children kvs holds sorted kids)
            (labels ++ (l ++ w ∷ []) ∷ [])
    grown-IsLabelled heap well labels is p node at_p w missing children kvs holds sorted kids l
          at_l =
        record {
          one_each = omega (
            arith,
            is.one_each,
            length-append labels ((l ++ w ∷ []) ∷ []),
            length-grown def_val heap well p node at_p w missing children kvs holds sorted kids,
          );
          root = kept 0 [] is.root;
          edge = edges;
          reached = reach;
        }
      where
        kept :
            (q : ℕ) (k : List ℕ)
            → get_elem? labels q ≡ some k
            → get_elem? (labels ++ (l ++ w ∷ []) ∷ []) q ≡ some k
        kept q k at = get_elem?-append_left labels _ q (get_elem?_lt labels q k at) ∙ at

        kept_edge :
            (q k c : ℕ) (n : Node V)
            → get_elem? heap q ≡ some n
            → assoc k (pairs n) ≡ some c
            → (x : List ℕ) × (get_elem? (labels ++ (l ++ w ∷ []) ∷ []) q ≡ some x)
              × (get_elem? (labels ++ (l ++ w ∷ []) ∷ []) c ≡ some (x ++ k ∷ []))
        kept_edge q k c n at e =
            let (x, at_q, at_c) = is.edge q n k c at e in
            (x, kept q x at_q, kept c (x ++ k ∷ []) at_c)

        last : get_elem? (labels ++ (l ++ w ∷ []) ∷ []) (length heap) ≡ some (l ++ w ∷ [])
        last = rw (← is.one_each) (get_elem?-middle labels [] (l ++ w ∷ []))

        -- The node that has the new link.
        link_edge :
            (k c : ℕ)
            → (if w == k then some (length heap) else assoc k (pairs node)) ≡ some c
            → (x : List ℕ) × (get_elem? (labels ++ (l ++ w ∷ []) ∷ []) p ≡ some x)
              × (get_elem? (labels ++ (l ++ w ∷ []) ∷ []) c ≡ some (x ++ k ∷ []))
        link_edge k c e = elim (Bool-cases (w == k)) [
          | inl new ↦
              let place : length heap ≡ c = some-injective _ _ (rw new at e) in
              let word : w ≡ k = (==_iff w k).0 new in (l, kept p l at_l, rw (← place, ← word) last)
          | inr old ↦ kept_edge p k c node at_p (rw old at e)
        ]

        edges :
            (q : ℕ) (n : Node V) (k c : ℕ)
            → get_elem?
                (grown def_val heap well p node at_p w missing children kvs holds sorted kids)
                q
              ≡ some n
            → assoc k (pairs n) ≡ some c
            → (x : List ℕ) × (get_elem? (labels ++ (l ++ w ∷ []) ∷ []) q ≡ some x)
              × (get_elem? (labels ++ (l ++ w ∷ []) ∷ []) c ≡ some (x ++ k ∷ []))
        edges q n k c at e =
            elim (grown_cases def_val heap well p node at_p w missing children kvs holds sorted kids
              q n at) [
                | inl (same, node_is) ↦
                    let e' : assoc k kvs ≡ some c =
                      ap (assoc k) (
                        sym (
                          linked def_val heap well p node at_p w missing children kvs holds sorted
                            kids))
                      ∙ ap (λ (m : Node V). assoc k (pairs m)) node_is
                      ∙ e in
                    rw (← same) (link_edge k c (sym (kids k) ∙ e'))
                | inr (inl (_, _, old)) ↦ kept_edge q k c n old e
                | inr (inr (_, fresh)) ↦ absurd (none≢some c (rw (← fresh) at e))
              ]

        added : Added def_val heap p (w ∷ []) (
          length heap,
          grown def_val heap well p node at_p w missing children kvs holds sorted kids,
        )
        added = grown-Added def_val heap well p node at_p w missing children kvs holds sorted kids

        reach :
            (q : ℕ) (k : List ℕ)
            → get_elem? (labels ++ (l ++ w ∷ []) ∷ []) q ≡ some k
            → find
                (grown def_val heap well p node at_p w missing children kvs holds sorted kids)
                0
                k
              ≡ some q
        reach q k at = elim (dec_lt q (length labels)) [
          | yes old ↦
              find-Extends heap
                (grown def_val heap well p node at_p w missing children kvs holds sorted kids) 0 k q
                added.extends (is.reached q k (sym (get_elem?-append_left labels _ q old) ∙ at))
          | no more ↦
              let place : length heap ≡ q = omega (
                arith,
                is.one_each,
                get_elem?_lt (labels ++ (l ++ w ∷ []) ∷ []) q k at,
                length-append labels ((l ++ w ∷ []) ∷ []),
              ) in
              let path : l ++ w ∷ [] ≡ k =
                some-injective _ _
                  (sym last ∙ ap (get_elem? (labels ++ (l ++ w ∷ []) ∷ [])) place ∙ at) in
              rw (← place, ← path)
                (find-append
                  (grown def_val heap well p node at_p w missing children kvs holds sorted kids) 0 p
                  (length heap) l (w ∷ [])
                  (find-Extends heap
                    (grown def_val heap well p node at_p w missing children kvs holds sorted kids) 0
                    l p added.extends (is.reached p l at_l))
                  added.found)
        ]

    child_for_labels :
        (heap : List (Node V)) (well : IsHeap heap) (labels : List (List ℕ))
        (is : IsLabelled heap labels) (p : ℕ) (node : Node V) (w : ℕ)
        (at_p : get_elem? heap p ≡ some node) (r : Bool × ℕ)
        → Map.upper_bound 0 w node.children ≡ done r
        → FindsKey w (pairs node) node.children r
        → Returns (Relabels labels) (child_for def_val w p heap)
    unfolding child_for
    child_for_labels heap well labels is p node w at_p (true, i) e (c, child, value) =
        rw (node_at-get heap p node at_p, e, value) (returns (labels, is, λ q l at. at))
    child_for_labels heap well labels is p node w at_p (false, i) e missing =
        let v = well p node at_p in
        let (l, at_l) =
          get_elem?-some labels p (omega (arith, is.one_each, get_elem?_lt heap p node at_p)) in
        rw (node_at-get heap p node at_p, e)
          (Returns-bind
            (insert_host-assoc w (length heap) (pairs node) node.children v.holds v.sorted missing)
            λ children (kvs, holds, sorted, kids). returns (
              labels ++ (l ++ w ∷ []) ∷ [],
              grown-IsLabelled heap well labels is p node at_p w missing children kvs holds sorted
                  kids l at_l,
              λ q k at. get_elem?-append_left labels _ q (get_elem?_lt labels q k at) ∙ at,
            ))

    pub add_or_create_node-labels :
        (heap : List (Node V)) (labels : List (List ℕ)) (p : ℕ) (ws : List ℕ)
        → IsHeap heap
        → IsLabelled heap labels
        → p < length heap
        → Returns (Relabels labels) (add_or_create_node def_val ws p heap)
    unfolding add_or_create_node
    add_or_create_node-labels heap labels p [] well is on_heap = returns (labels, is, λ q l at. at)
    add_or_create_node-labels heap labels p (w ∷ ws) well is on_heap =
        let (node, at_p) = get_elem?-some heap p on_heap in
        let v = well p node at_p in
        let (r, e, found) = upper_bound_assoc 0 w (pairs node) node.children v.holds v.sorted in
        Returns-bind
          (Returns-both (child_for-Added def_val heap p w well on_heap)
            (child_for_labels heap well labels is p node w at_p r e found))
          λ (child, heap') (a, (labels', is', kept)).
            Returns-map (add_or_create_node-labels heap' labels' child ws a.well is' a.on_heap)
              λ r (labels'', is'', kept'). (labels'', is'', λ q l at. kept' q l (kept q l at))
