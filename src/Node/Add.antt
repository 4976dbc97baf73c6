-- ===== src/Node/Add.antt =====
-- `AddOrCreateNode` returns the node of its words, and leaves all that was there before.
use gpu_moses.Prelude.{
  zero, suc, none≢some, ℕ, ◌<◌, ◌≡◌, refl, sym, ap, ◌∙◌, Bool, true, false, some, List, [], ◌∷◌,
  arith, length, get_elem?, get_elem?-some, get_elem?_lt, take_all, dec_lt,
}
use mathlib.Core.Option
use mathlib.Core.Option.{some-injective}
use mathlib.Core.Path.{subst}
use gpu_moses.Outcome.{done, Returns, returns, Returns-bind, Returns-map}
use gpu_moses.Cuda.Buffer.{Buffer}
use gpu_moses.Cuda.Holds.{Holds}
use gpu_moses.Cuda.Map.Laws.{assoc, upper_bound_assoc, FindsKey, insert_host-assoc}
use gpu_moses.Cuda.Map
use gpu_moses.Node.{new_node, Node, child_for, add_or_create_node, lookup}
use gpu_moses.Node.Heap.{IsNode, IsHeap, pairs, find, Extends-refl, Extends-trans, find-Extends}
use gpu_moses.Node.Find.{node_at-get, lookup-find}
use gpu_moses.Node.Grow.{Added, grown-Added}

module _ {ℓ} {V : Type ℓ} (def_val : V) where
  -- A path goes on from the node that its first word leads to.
  find-cons :
      (heap : List (Node V)) (p c w : ℕ) (ws : List ℕ) (q : ℕ)
      → find heap p (w ∷ []) ≡ some c
      → find heap c ws ≡ some q
      → find heap p (w ∷ ws) ≡ some q
  unfolding find
  find-cons heap p c w ws q first rest =
      let (node, at, e) = (Option.bind-eq-some_iff (get_elem? heap p) _).0 first in
      let (c', child, last) = (Option.bind-eq-some_iff (assoc w (pairs node)) _).0 e in
      let same : c' ≡ c = some-injective _ _ last in rw (at, child, same) rest

  -- One step of the loop: the child is there, or it is made.
  child_for_case :
      (heap : List (Node V)) (well : IsHeap heap) (p : ℕ) (node : Node V) (w : ℕ)
      (at_p : get_elem? heap p ≡ some node) (r : Bool × ℕ)
      → Map.upper_bound 0 w node.children ≡ done r
      → FindsKey w (pairs node) node.children r
      → Returns (Added def_val heap p (w ∷ [])) (child_for def_val w p heap)
  unfolding child_for find
  child_for_case heap well p node w at_p (true, i) e (c, child, value) =
      rw (node_at-get heap p node at_p, e, value)
        (returns (record {
          well = well;
          on_heap = (well p node at_p).bounded w c child;
          extends = Extends-refl heap;
          found = rw (at_p, child) refl;
          fresh = λ q n above at. absurd (omega (arith, get_elem?_lt heap q n at));
        }))
  child_for_case heap well p node w at_p (false, i) e missing =
      let v = well p node at_p in
      rw (node_at-get heap p node at_p, e)
        (Returns-bind
          (insert_host-assoc w (length heap) (pairs node) node.children v.holds v.sorted missing)
          λ children (kvs, holds, sorted, kids).
            returns
              (grown-Added def_val heap well p node at_p w missing children kvs holds sorted kids))

  pub child_for-Added :
      (heap : List (Node V)) (p w : ℕ)
      → IsHeap heap
      → p < length heap
      → Returns (Added def_val heap p (w ∷ [])) (child_for def_val w p heap)
  child_for-Added heap p w well on_heap =
      let (node, at_p) = get_elem?-some heap p on_heap in
      let v = well p node at_p in
      let (r, e, found) = upper_bound_assoc 0 w (pairs node) node.children v.holds v.sorted in
      child_for_case heap well p node w at_p r e found

  -- On a well-formed heap `AddOrCreateNode` ends without a fault, on a well-formed heap. It returns the
  -- node to which the words now lead. All nodes that were there are still there, with their values and
  -- children, and a node that is new has the default value.
  pub add_or_create_node-Added :
      (heap : List (Node V)) (p : ℕ) (ws : List ℕ)
      → IsHeap heap
      → p < length heap
      → Returns (Added def_val heap p ws) (add_or_create_node def_val ws p heap)
  unfolding add_or_create_node find
  add_or_create_node-Added heap p [] well on_heap = returns (record {
    well = well;
    on_heap = on_heap;
    extends = Extends-refl heap;
    found = refl;
    fresh = λ q n above at. absurd (omega (arith, get_elem?_lt heap q n at));
  })
  add_or_create_node-Added heap p (w ∷ ws) well on_heap =
      Returns-bind (child_for-Added heap p w well on_heap) λ (child, heap') a.
        Returns-map (add_or_create_node-Added heap' child ws a.well a.on_heap) λ (q, heap'') b.
          record {
            well = b.well;
            on_heap = b.on_heap;
            extends = Extends-trans a.extends b.extends;
            found =
                find-cons heap'' p child w ws q
                  (find-Extends heap' heap'' p (w ∷ []) child b.extends a.found) b.found;
            fresh = λ m n above at. elim (dec_lt m (length heap')) [
              | yes less ↦
                  let (n₀, at₀) = get_elem?-some heap' m less in
                  let (n₁, at₁, kept, _) = b.extends.keeps m n₀ at₀ in
                  let same : n₁ ≡ n = some-injective _ _ (sym at₁ ∙ at) in
                  sym (ap (λ (k : Node V). k.value) same) ∙ kept ∙ a.fresh m n₀ above at₀
              | no more ↦ b.fresh m n (omega arith) at
            ];
          }

  -- On a well-formed heap, `Lookup` of all words of a phrase gives the node that `AddOrCreateNode` of
  -- these words has returned, on the heap that it has left.
  pub lookup-add_or_create_node :
      (heap : List (Node V)) (p : ℕ) (ws : List ℕ) (phrase : Buffer ℕ)
      → IsHeap heap
      → p < length heap
      → Holds phrase ws
      → Returns
          (λ r. lookup phrase (length ws) 0 p r.1 ≡ done (some r.0))
          (add_or_create_node def_val ws p heap)
  lookup-add_or_create_node heap p ws phrase well on_heap holds =
      Returns-map (add_or_create_node-Added heap p ws well on_heap) λ (q, heap') a.
        lookup-find heap' a.well phrase ws holds (length ws) 0 p (omega (arith, a.extends.longer))
          (omega arith)
        ∙ rw (take_all (length ws) ws (omega arith)) (ap done a.found)

  -- A root without children.
  pub new_node-IsHeap : IsHeap (new_node def_val ∷ [])
  new_node-IsHeap zero node at = subst (IsNode 1) (some-injective _ _ at) (record {
    holds = record { contents = refl; fits = omega arith };
    sorted = tt;
    bounded = λ k c e. absurd (none≢some c e);
  })
  new_node-IsHeap (suc p) node at = absurd (none≢some node at)
