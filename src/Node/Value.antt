-- ===== src/Node/Value.antt =====
-- A write to the value of a node leaves the tree as it is.
use mathlib.Core.Option
use mathlib.Core.Option.{some-injective}
use mathlib.Core.Path.{subst, fun_ext}
use gpu_moses.Prelude.{
  ℕ, ◌≡◌, ◌≢◌, refl, sym, ap, ◌∙◌, some, List, [], ◌∷◌, arith, length, set, length-set, get_elem?,
  get_elem?_lt, get_elem?-set_self, get_elem?-set_ne, ℕ_discrete, ◌⊎◌, inl, inr,
}
use gpu_moses.Cuda.Map.Laws.{assoc}
use gpu_moses.Node.{Node}
use gpu_moses.Node.Heap.{IsNode, IsHeap, pairs, find}
use gpu_moses.Node.Labels.{IsLabelled}

module _ {ℓ} {V : Type ℓ} (heap : List (Node V)) (p : ℕ) (node : Node V)
    (at_p : get_elem? heap p ≡ some node) (value : V) where
  -- The heap after `node.value = value`.
  abbrev pub valued : List (Node V)
  valued = set heap p (record node { value = value })

  pub valued_self : get_elem? valued p ≡ some (record node { value = value })
  valued_self = get_elem?-set_self heap p _ (get_elem?_lt heap p node at_p)

  pub valued_other : (q : ℕ) → p ≢ q → get_elem? valued q ≡ get_elem? heap q
  valued_other q differ = get_elem?-set_ne heap p q _ differ

  -- What a node was before.
  pub valued_cases :
      (q : ℕ) (n : Node V)
      → get_elem? valued q ≡ some n
      → ((p ≡ q) × (record node { value = value } ≡ n)) ⊎ ((p ≢ q) × (get_elem? heap q ≡ some n))
  valued_cases q n at = elim (ℕ_discrete p q) [
    | yes same ↦ inl (same, some-injective _ _ (sym valued_self ∙ ap (get_elem? valued) same ∙ at))
    | no differ ↦ inr (differ, sym (valued_other q differ) ∙ at)
  ]

  same_length : length valued ≡ length heap
  same_length = length-set heap p _

  pub valued-IsHeap : IsHeap heap → IsHeap valued
  valued-IsHeap well q n at = elim (valued_cases q n at) [
    | inl (_, e) ↦ subst (IsNode (length valued)) e (
        let v = well p node at_p in
        record {
          holds = v.holds;
          sorted = v.sorted;
          bounded = λ k c m. omega (arith, same_length, v.bounded k c m);
        })
    | inr (_, old) ↦
        let v = well q n old in
        record {
          holds = v.holds;
          sorted = v.sorted;
          bounded = λ k c m. omega (arith, same_length, v.bounded k c m);
        }
  ]

  pub find-valued : (q : ℕ) (ws : List ℕ) → find valued q ws ≡ find heap q ws
  unfolding find
  find-valued q [] = refl
  find-valued q (w ∷ ws) = elim (ℕ_discrete p q) [
    | yes same ↦
        rw (← same, valued_self, at_p)
          (ap (Option.bind (assoc w (pairs node))) (fun_ext (λ c. find-valued c ws)))
    | no differ ↦ rw (valued_other q differ) (
        ap
          (λ (f : ℕ → Option.Option ℕ).
            Option.bind (get_elem? heap q) (λ n. Option.bind (assoc w (pairs n)) f))
          (fun_ext (λ c. find-valued c ws)))
  ]

  pub valued-IsLabelled :
      (labels : List (List ℕ)) → IsLabelled heap labels → IsLabelled valued labels
  valued-IsLabelled labels is = record {
    one_each = omega (arith, same_length, is.one_each);
    root = is.root;
    edge = λ q n w c at child. elim (valued_cases q n at) [
      | inl (same, e) ↦
          rw (← same)
            (is.edge p node w c at_p (subst (λ m. assoc w (pairs m) ≡ some c) (sym e) child))
      | inr (_, old) ↦ is.edge q n w c old child
    ];
    reached = λ q l at. rw (find-valued 0 l) (is.reached q l at);
  }
