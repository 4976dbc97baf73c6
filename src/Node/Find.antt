-- ===== src/Node/Find.antt =====
-- `Lookup` returns, and with the node that the words of the phrase lead to.
use gpu_moses.Prelude.{
  ℕ, zero, suc, ◌+◌, ◌≤◌, ◌<◌, ◌≡◌, refl, Bool, true, false, some, List, ◌∷◌, arith, length,
  get_elem?, get_elem?-some, take, drop, drop_get,
}
use native.Mathlib.Numerals.{add-one}
use gpu_moses.Outcome.{done}
use gpu_moses.Cuda.Buffer.{Buffer}
use gpu_moses.Cuda.Holds.{Holds, read-Holds}
use gpu_moses.Cuda.Map.Laws.{upper_bound_assoc, FindsKey}
use gpu_moses.Cuda.Map
use gpu_moses.Node.{Node, node_at, lookup}
use gpu_moses.Node.Heap.{IsHeap, pairs, find}

module _ {ℓ} {V : Type ℓ} where
  pub node_at-get :
      (heap : List (Node V)) (p : ℕ) (node : Node V)
      → get_elem? heap p ≡ some node
      → node_at heap p ≡ done node
  unfolding node_at
  node_at-get heap p node at = rw at

  module _ (heap : List (Node V)) (well : IsHeap heap) (phrase : Buffer ℕ) (ids : List ℕ)
      (h : Holds phrase ids) where
    lookup_child :
        (rounds pos p w : ℕ) (node : Node V) (ws : List ℕ)
        → get_elem? ids pos ≡ some w
        → get_elem? heap p ≡ some node
        → ((c : ℕ)
            → c < length heap
            → lookup phrase rounds (pos + 1) c heap ≡ done (find heap c ws))
        → (r : Bool × ℕ) → Map.upper_bound 0 w node.children ≡ done r
        → FindsKey w (pairs node) node.children r
        → lookup phrase (suc rounds) pos p heap ≡ done (find heap p (w ∷ ws))
    unfolding lookup find
    lookup_child rounds pos p w node ws at_pos at_p rest (true, i) e (c, child, value) =
        rw (read-Holds h pos w at_pos, node_at-get heap p node at_p, e, value, at_p, child)
          (rest c ((well p node at_p).bounded w c child))
    lookup_child rounds pos p w node ws at_pos at_p rest (false, i) e missing =
        rw (read-Holds h pos w at_pos, node_at-get heap p node at_p, e, at_p, missing) refl

    -- From a node of a well-formed heap, and for words inside the phrase, `Lookup` ends without a fault
    -- and finds the node to which those words lead, or none.
    pub lookup-find :
        (rounds pos p : ℕ)
        → p < length heap
        → pos + rounds ≤ length ids
        → lookup phrase rounds pos p heap ≡ done (find heap p (take rounds (drop pos ids)))
    unfolding lookup find
    lookup-find zero pos p on_heap fits = refl
    lookup-find (suc rounds) pos p on_heap fits =
        let (w, at_pos) = get_elem?-some ids pos (omega arith) in
        let (node, at_p) = get_elem?-some heap p on_heap in
        let here = well p node at_p in
        let (r, e, found) =
          upper_bound_assoc 0 w (pairs node) node.children here.holds here.sorted in
        rw (drop_get pos w ids at_pos) (
          lookup_child rounds pos p w node (take rounds (drop (suc pos) ids)) at_pos at_p
            (λ c less. rw (← add-one pos) (lookup-find rounds (pos + 1) c less (omega arith))) r e
            found)
