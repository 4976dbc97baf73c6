-- ===== src/Node/Heap.antt =====
-- Heaps of trie nodes: what makes one well formed, and how a call may change one.
use gpu_moses.Prelude.{
  ℕ, ◌≤◌, ◌<◌, ◌≡◌, refl, ap, ◌∙◌, Option, none, some, List, [], ◌∷◌, map, arith, length, get_elem?,
}
use mathlib.Core.Option
use gpu_moses.Cuda.Holds.{Holds}
use gpu_moses.Cuda.Map.Laws.{assoc, IsMap}
use gpu_moses.Node.{Node}

-- The written cells of a buffer.
abbrev pub written {ℓ} : {A : Type ℓ} → List (Option A) → List A
written [] = []
written (none ∷ cells) = written cells
written (some a ∷ cells) = a ∷ written cells

pub written-map {ℓ} : {A : Type ℓ} (xs : List A) → written (map some xs) ≡ xs
written-map [] = refl
written-map (x ∷ xs) = ap (◌∷◌ x) (written-map xs)

module _ {ℓ} {V : Type ℓ} where
  abbrev pub pairs : Node V → List (ℕ × ℕ)
  pairs node = written node.children.cells

  -- The children of a node are written and sorted by word, and their pointers lie on the heap.
  pub record IsNode (n : ℕ) (node : Node V) : Type 0 where
    pub holds : Holds node.children (pairs node)
    pub sorted : IsMap (pairs node)
    pub bounded : (k c : ℕ) → assoc k (pairs node) ≡ some c → c < n

  abbrev pub IsHeap : List (Node V) → Type ℓ
  IsHeap heap = (p : ℕ) (node : Node V) → get_elem? heap p ≡ some node → IsNode (length heap) node

  -- The node that the words lead to from `p`, if there is one.
  unfoldable pub find : List (Node V) → ℕ → List ℕ → Option ℕ
  unfolding Option.bind
  find heap p [] = some p
  find heap p (w ∷ ws) =
      Option.bind (get_elem? heap p) λ node. Option.bind (assoc w (pairs node)) λ c. find heap c ws

  -- Nodes stay, with their values and the children that they have.
  pub record Extends (heap heap' : List (Node V)) : Type ℓ where
    pub longer : length heap ≤ length heap'
    pub keeps :
        (p : ℕ) (node : Node V)
        → get_elem? heap p ≡ some node
        → (node' : Node V) × (get_elem? heap' p ≡ some node')
          × (node'.value ≡ node.value)
          × ((k c : ℕ) → assoc k (pairs node) ≡ some c → assoc k (pairs node') ≡ some c)

  pub Extends-refl : (heap : List (Node V)) → Extends heap heap
  Extends-refl heap = record {
    longer = omega arith;
    keeps = λ p node at. (node, at, refl, λ k c e. e);
  }

  pub Extends-trans : {a b c : List (Node V)} → Extends a b → Extends b c → Extends a c
  Extends-trans f g = record {
    longer = omega (arith, f.longer, g.longer);
    keeps = λ p node at.
        let (node', at', value', kids') = f.keeps p node at in
        let (node'', at'', value'', kids'') = g.keeps p node' at' in
        (node'', at'', value'' ∙ value', λ k c e. kids'' k c (kids' k c e));
  }

  -- What was found is found, at the same node.
  pub find-Extends :
      (heap heap' : List (Node V)) (p : ℕ) (ws : List ℕ) (q : ℕ)
      → Extends heap heap'
      → find heap p ws ≡ some q
      → find heap' p ws ≡ some q
  unfolding find
  find-Extends heap heap' p [] q x e = e
  find-Extends heap heap' p (w ∷ ws) q x e =
      let (node, at, rest) = (Option.bind-eq-some_iff (get_elem? heap p) _).0 e in
      let (c, child, rest') = (Option.bind-eq-some_iff (assoc w (pairs node)) _).0 rest in
      let (node', at', value', kids') = x.keeps p node at in
      rw (at', kids' w c child) (find-Extends heap heap' c ws q x rest')
