-- ===== src/Node.antt =====
-- Node.h: the tries of the phrase table and the language model. Nodes live on a heap, a list, and a
-- pointer is an index in it; the root is the node that a call is given.
pub mod Find
pub mod Heap
pub mod Grow
pub mod Add
pub mod Labels
pub mod Value
use gpu_moses.Prelude.{
  ℕ, zero, suc, ◌+◌, Option, none, some, List, [], ◌∷◌, ◌++◌, length, get_elem?, set, true, false,
}
use gpu_moses.Outcome.{Outcome, done, null_pointer, or_fault, ◌>>=◌}
use gpu_moses.Cuda.Buffer.{Buffer, read}
use gpu_moses.Cuda.Map

pub record Node {ℓ} (V : Type ℓ) : Type ℓ where
  pub value : V
  pub children : Buffer (ℕ × ℕ)

module _ {ℓ} {V : Type ℓ} where
  unfoldable pub node_at : List (Node V) → ℕ → Outcome (Node V)
  node_at heap p = or_fault (get_elem? heap p) null_pointer

  -- `new Node(defVal)`.
  abbrev pub new_node : V → Node V
  new_node def_val = record { value = def_val; children = record { max_size = 0; cells = [] } }

  -- The child for `vocab_id` of the node `p`, which is made if it is missing.
  unfoldable pub child_for : V → ℕ → ℕ → List (Node V) → Outcome (ℕ × List (Node V))
  unfolding node_at Map.upper_bound Map.get_value Map.insert_host
  child_for def_val vocab_id p heap = do
    node ← node_at heap p
    upper ← Map.upper_bound 0 vocab_id node.children
    elim upper.0 [
      | true ↦ do child ← Map.get_value node.children upper.1; done (child, heap)
      | false ↦ do
        children ← Map.insert_host vocab_id (length heap) node.children
        done (
          length heap,
          set (heap ++ new_node def_val ∷ []) p (record node { children = children }),
        )
    ]

  -- `AddOrCreateNode`: the words are those from `pos` on.
  unfoldable pub add_or_create_node : V → List ℕ → ℕ → List (Node V) → Outcome (ℕ × List (Node V))
  unfolding child_for
  add_or_create_node def_val [] p heap = done (p, heap)
  add_or_create_node def_val (vocab_id ∷ words) p heap = do
    (child, heap') ← child_for def_val vocab_id p heap
    add_or_create_node def_val words child heap'

  -- `Lookup`: `rounds` is `end + 1 - pos`, and `pos > end` that none is left.
  unfoldable pub lookup : Buffer ℕ → ℕ → ℕ → ℕ → List (Node V) → Outcome (Option ℕ)
  unfolding node_at Map.upper_bound Map.get_value read
  lookup phrase zero pos p heap = done (some p)
  lookup phrase (suc rounds) pos p heap = do
    vocab_id ← read phrase pos
    node ← node_at heap p
    upper ← Map.upper_bound 0 vocab_id node.children
    elim upper.0 [
      | true ↦ do
        child ← Map.get_value node.children upper.1
        lookup phrase rounds (pos + 1) child heap
      | false ↦ done none
    ]
