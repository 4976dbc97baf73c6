-- ===== src/Examples/Tries.antt =====
-- Node.h: a trie with a root and no other node, and the phrase 7 8.
use gpu_moses.Prelude.{ℕ, ◌≡◌, refl, arith, some, List, [], ◌∷◌}
use gpu_moses.Outcome.{done, Returns}
use gpu_moses.Cuda.Buffer.{Buffer}
use gpu_moses.Cuda.Holds.{Holds}
use gpu_moses.Node.{Node, new_node, add_or_create_node, lookup}
use gpu_moses.Node.Heap.{find}
use gpu_moses.Node.Grow.{Added}
use gpu_moses.Node.Find.{lookup-find}
use gpu_moses.Node.Add.{add_or_create_node-Added, lookup-add_or_create_node, new_node-IsHeap}

abbrev root_only : List (Node ℕ)
root_only = new_node 0 ∷ []

abbrev phrase : Buffer ℕ
phrase = record { max_size = 2; cells = some 7 ∷ some 8 ∷ [] }

phrase-Holds : Holds phrase (7 ∷ 8 ∷ [])
phrase-Holds = record { contents = refl; fits = omega arith }

add_or_create_node-Added_example :
    Returns (Added 0 root_only 0 (7 ∷ 8 ∷ [])) (add_or_create_node 0 (7 ∷ 8 ∷ []) 0 root_only)
add_or_create_node-Added_example =
    add_or_create_node-Added 0 root_only 0 (7 ∷ 8 ∷ []) (new_node-IsHeap 0) (omega arith)

lookup-add_or_create_node_example :
    Returns
      (λ r. lookup phrase 2 0 0 r.1 ≡ done (some r.0))
      (add_or_create_node 0 (7 ∷ 8 ∷ []) 0 root_only)
lookup-add_or_create_node_example =
    lookup-add_or_create_node 0 root_only 0 (7 ∷ 8 ∷ []) phrase (new_node-IsHeap 0) (omega arith)
      phrase-Holds

lookup-find_example : lookup phrase 2 0 0 root_only ≡ done (find root_only 0 (7 ∷ 8 ∷ []))
lookup-find_example =
    lookup-find root_only (new_node-IsHeap 0) phrase (7 ∷ 8 ∷ []) phrase-Holds 2 0 0 (omega arith)
      (omega arith)
