-- ===== src/Node/Grow.antt =====
-- A new child for a node: the heap after `AddOrCreateNode` has made one.
use gpu_moses.Prelude.{
  ℕ, suc, ◌≤◌, ◌<◌, ◌≡◌, ◌≢◌, refl, sym, ap, ◌∙◌, none, some, List, [], ◌∷◌, ◌++◌, arith, length,
  get_elem?, get_elem?_lt, set, length-set, length-append, get_elem?-set_self, get_elem?-set_ne,
  get_elem?-append_left, get_elem?-append_right, dec_lt, ℕ_discrete, if◌then◌else◌, ◌==◌, ==_self,
  ==_iff, Bool-cases, inl, inr, none≢some, ◌⊎◌,
}
use mathlib.Core.Option.{some-injective}
use mathlib.Core.Path.{subst}
use native.Mathlib.Nat.{sub_self}
use gpu_moses.Cuda.Buffer.{Buffer}
use gpu_moses.Cuda.Holds.{Holds}
use gpu_moses.Cuda.Map.Laws.{assoc, IsMap}
use gpu_moses.Node.{Node, new_node}
use gpu_moses.Node.Heap.{IsNode, IsHeap, pairs, find, Extends, written-map}

module _ {ℓ} {V : Type ℓ} (def_val : V) where
  -- The result of a call that starts at `p` on `heap`, with the words `ws`.
  pub record Added (heap : List (Node V)) (p : ℕ) (ws : List ℕ) (r : ℕ × List (Node V))
      : Type ℓ where
    pub well : IsHeap r.1
    pub on_heap : r.0 < length r.1
    pub extends : Extends heap r.1
    pub found : find r.1 p ws ≡ some r.0
    pub fresh :
        (q : ℕ) (node : Node V)
        → length heap ≤ q
        → get_elem? r.1 q ≡ some node
        → node.value ≡ def_val

  module _ (heap : List (Node V)) (well : IsHeap heap) (p : ℕ) (node : Node V)
      (at_p : get_elem? heap p ≡ some node) (w : ℕ) (missing : assoc w (pairs node) ≡ none)
      (children : Buffer (ℕ × ℕ)) (kvs : List (ℕ × ℕ)) (holds : Holds children kvs)
      (sorted : IsMap kvs)
      (kids : (j : ℕ)
        → assoc j kvs ≡ (if w == j then some (length heap) else assoc j (pairs node))) where
    -- The heap with the new node, and the pair that links it.
    abbrev pub grown : List (Node V)
    grown = set (heap ++ new_node def_val ∷ []) p (record node { children = children })

    p-lt : p < length heap
    p-lt = get_elem?_lt heap p node at_p

    pub length-grown : length grown ≡ suc (length heap)
    length-grown =
        length-set (heap ++ new_node def_val ∷ []) p (record node { children = children })
        ∙ length-append heap (new_node def_val ∷ [])
        ∙ omega arith

    pub linked : pairs (record node { children = children }) ≡ kvs
    linked = rw holds.contents (written-map kvs)

    grown_old : (q : ℕ) → p ≢ q → q < length heap → get_elem? grown q ≡ get_elem? heap q
    grown_old q differ less =
        get_elem?-set_ne (heap ++ new_node def_val ∷ []) p q _ differ
        ∙ get_elem?-append_left heap (new_node def_val ∷ []) q less

    grown_link : get_elem? grown p ≡ some (record node { children = children })
    grown_link =
        get_elem?-set_self (heap ++ new_node def_val ∷ []) p _
          (omega (arith, p-lt, length-append heap (new_node def_val ∷ [])))

    grown_new : get_elem? grown (length heap) ≡ some (new_node def_val)
    grown_new =
        get_elem?-set_ne (heap ++ new_node def_val ∷ []) p (length heap) _
          (λ e. absurd (omega (arith, p-lt)))
        ∙ get_elem?-append_right heap (new_node def_val ∷ []) (length heap) (omega arith)
        ∙ rw (sub_self (length heap)) refl

    -- The nodes of the new heap: the one with the new link, the old ones, and the new one.
    pub grown_cases :
        (q : ℕ) (n : Node V)
        → get_elem? grown q ≡ some n
        → ((p ≡ q) × (record node { children = children } ≡ n))
          ⊎ ((p ≢ q) × (q < length heap) × (get_elem? heap q ≡ some n))
          ⊎ ((length heap ≡ q) × (new_node def_val ≡ n))
    grown_cases q n at = elim (ℕ_discrete p q) [
      | yes same ↦ inl (same, some-injective _ _ (sym grown_link ∙ ap (get_elem? grown) same ∙ at))
      | no differ ↦ elim (dec_lt q (length heap)) [
        | yes less ↦ inr (inl (differ, less, sym (grown_old q differ less) ∙ at))
        | no more ↦
            let last : length heap ≡ q = omega (arith, get_elem?_lt grown q n at, length-grown) in
            inr (inr (last, some-injective _ _ (sym grown_new ∙ ap (get_elem? grown) last ∙ at)))
      ]
    ]

    link-IsNode : IsNode (length grown) (record node { children = children })
    link-IsNode = record {
      holds = rw linked holds;
      sorted = rw linked sorted;
      bounded = λ k c e.
          let e' : (if w == k then some (length heap) else assoc k (pairs node)) ≡ some c =
            sym (kids k) ∙ rw (← linked) e in
          elim (Bool-cases (w == k)) [
            | inl new ↦
                let c-last : length heap ≡ c = some-injective _ _ (rw new at e') in
                omega (arith, length-grown)
            | inr old ↦ omega (arith, length-grown, (well p node at_p).bounded k c (rw old at e'))
          ];
    }

    new-IsNode : IsNode (length grown) (new_node def_val)
    new-IsNode = record {
      holds = record { contents = refl; fits = omega arith };
      sorted = tt;
      bounded = λ k c e. absurd (none≢some c e);
    }

    old-IsNode : (q : ℕ) (n : Node V) → get_elem? heap q ≡ some n → IsNode (length grown) n
    old-IsNode q n at =
        let v = well q n at in
        record {
          holds = v.holds;
          sorted = v.sorted;
          bounded = λ k c e. omega (arith, length-grown, v.bounded k c e);
        }

    grown-IsHeap : IsHeap grown
    grown-IsHeap q n at = elim (grown_cases q n at) [
      | inl (_, e) ↦ subst (IsNode (length grown)) e link-IsNode
      | inr (inl (_, _, old)) ↦ old-IsNode q n old
      | inr (inr (_, e)) ↦ subst (IsNode (length grown)) e new-IsNode
    ]

    link_keeps :
        (k c : ℕ)
        → assoc k (pairs node) ≡ some c
        → assoc k (pairs (record node { children = children })) ≡ some c
    link_keeps k c e =
        rw (linked, kids k)
          (elim (Bool-cases (w == k)) [
            | inl new ↦
                let same : w ≡ k = (==_iff w k).0 new in
                absurd (none≢some c (sym missing ∙ rw same e))
            | inr old ↦ rw old e
          ])

    grown_keeps :
        (q : ℕ) (n : Node V)
        → get_elem? heap q ≡ some n
        → (n' : Node V) × (get_elem? grown q ≡ some n')
          × (n'.value ≡ n.value)
          × ((k c : ℕ) → assoc k (pairs n) ≡ some c → assoc k (pairs n') ≡ some c)
    grown_keeps q n at = elim (ℕ_discrete p q) [
      | yes same ↦
          let e : node ≡ n = some-injective _ _ (sym at_p ∙ rw same at) in
          (
            record node { children = children },
            rw (← same) grown_link,
            ap (λ (m : Node V). m.value) e,
            subst
                (λ m.
                  (k c : ℕ)
                  → assoc k (pairs m) ≡ some c
                  → assoc k (pairs (record node { children = children })) ≡ some c)
                e link_keeps,
          )
      | no differ ↦ (n, grown_old q differ (get_elem?_lt heap q n at) ∙ at, refl, λ k c e. e)
    ]

    pub grown-Added : Added heap p (w ∷ []) (length heap, grown)
    unfolding find
    grown-Added = record {
      well = grown-IsHeap;
      on_heap = omega (arith, length-grown);
      extends = record { longer = omega (arith, length-grown); keeps = grown_keeps };
      found = rw (grown_link, linked, kids w, ==_self w) refl;
      fresh = λ q n above at. elim (grown_cases q n at) [
        | inl (e, _) ↦ absurd (omega (arith, p-lt))
        | inr (inl (_, less, _)) ↦ absurd (omega arith)
        | inr (inr (_, e)) ↦ ap (λ (m : Node V). m.value) (sym e)
      ];
    }
