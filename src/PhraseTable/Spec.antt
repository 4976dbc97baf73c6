-- ===== src/PhraseTable/Spec.antt =====
-- What a phrase table holds: for every source phrase its target phrases, in the order of the file.

use gpu_moses.Prelude.{
  ℕ, ◌<◌, ◌≡◌, Option, none, some, List, [], ◌∷◌, length, get_elem?, if◌then◌else◌,
}
use gpu_moses.Text.{str_eq}
use gpu_moses.Cuda.Buffer.{Buffer}
use gpu_moses.Cuda.Holds.{Holds}
use gpu_moses.Node.{Node}
use gpu_moses.Node.Heap.{IsHeap, find}
use gpu_moses.Node.Labels.{IsLabelled}
use gpu_moses.PhraseTable.{Table}

module _ {ℓ} {P : Type ℓ} where
  -- The target phrases of the entries with this source.
  abbrev pub targets : List ℕ → List (List ℕ × P) → List P
  targets ws [] = []
  targets ws ((source, tp) ∷ entries) =
      if str_eq source ws then tp ∷ targets ws entries else targets ws entries

  -- A node without target phrases has NULL, and one with some has just these.
  abbrev pub Held : Option (Buffer P) → List P → Type ℓ
  Held none tps = tps ≡ []
  Held (some b) tps = Holds b tps

  pub record IsTable (entries : List (List ℕ × P)) (heap : Table P) : Type ℓ where
    pub well : IsHeap heap
    pub rooted : 0 < length heap
    pub labels : List (List ℕ)
    pub labelled : IsLabelled heap labels
    pub present :
        (ws : List ℕ) (q : ℕ) (node : Node (Option (Buffer P)))
        → find heap 0 ws ≡ some q
        → get_elem? heap q ≡ some node
        → Held node.value (targets ws entries)
    pub absent : (ws : List ℕ) → find heap 0 ws ≡ none → targets ws entries ≡ []
