-- ===== src/LanguageModel.antt =====
-- LM/LanguageModel.cu: the n-grams are a trie over the words from the last one back. `order` is
-- `m_order`, and the trie is the heap of its nodes with the index of the root.
pub mod Context
pub mod PastEnd
pub mod Load
use gpu_moses.Prelude.{
  ℕ, zero, suc, ◌+◌, ◌-◌, Bool, true, false, Option, none, some, List, ltb, if◌then◌else◌,
}
use gpu_moses.Outcome.{Outcome, done, ◌>>=◌}
use gpu_moses.Range.{sub64}
use gpu_moses.Cuda.Buffer.{Buffer, size, read, write, copy_cell, resize}
use gpu_moses.Cuda.Array
use gpu_moses.Node.{Node, node_at, lookup}

-- `LMScores`. `F` is the type of the scores.
pub record LmScores {ℓ} (F : Type ℓ) : Type ℓ where
  pub found : Bool
  pub prob : F
  pub backoff : F

-- `context[i] = context[i - 1]` for `i` down to 1.
unfoldable pub move_loop : ℕ → Buffer ℕ → Outcome (Buffer ℕ)
unfolding copy_cell
move_loop zero context = done context
move_loop (suc i) context = do context' ← copy_cell context i (suc i); move_loop i context'

unfoldable pub shift_or_push : ℕ → ℕ → Buffer ℕ → Outcome (Buffer ℕ)
unfolding move_loop resize Array.reserve write sub64
shift_or_push order vocab_id context = do
  grown ←
      (if ltb (size context) order
        then resize Array.reserve (size context + 1) context
        else done context)
  moved ← move_loop (sub64 (size grown) 1) grown
  write moved 0 vocab_id

-- `dest[i] = source[i + offset]` for the next `rounds` indices.
unfoldable pub copy_words : ℕ → ℕ → ℕ → Buffer ℕ → Buffer ℕ → Outcome (Buffer ℕ)
unfolding read write
copy_words zero i offset source dest = done dest
copy_words (suc rounds) i offset source dest = do
  id ← read source (i + offset)
  dest' ← write dest i id
  copy_words rounds (i + 1) offset source dest'

module _ {ℓ} {F : Type ℓ} (zero_score : F) (plus : F → F → F) (heap : List (Node (LmScores F)))
    (root : ℕ) where
  -- `node && node->value.found`, with the value.
  unfoldable pub found_value : Option ℕ → Outcome (Option (LmScores F))
  unfolding node_at
  found_value none = done none
  found_value (some p) = do
    node ← node_at heap p
    done (if node.value.found then some node.value else none)

  -- `Score`: the first argument is the size of the context. The `end` of a lookup is inclusive, and
  -- the source passes the size, so that one word more than the context has is looked up.
  unfoldable pub score : ℕ → Buffer ℕ → Outcome (F × Option ℕ)
  unfolding lookup found_value copy_words Array.new
  score zero context = done (zero_score, none)
  score (suc n) context = do
    node ← lookup context (size context + 1) 0 root heap
    value ← found_value node
    elim value [
      | some scores ↦ done (scores.prob, node)
      | none ↦ do
        back_off_context ← copy_words n 0 1 context (Array.new n)
        back_off_node ← lookup back_off_context (size back_off_context + 1) 0 root heap
        back_off_value ← found_value back_off_node
        new_context ← copy_words n 0 0 context (Array.new n)
        rest ← score n new_context
        done (
          plus (elim back_off_value [ some scores ↦ scores.backoff | none ↦ zero_score ]) rest.0,
          rest.1,
        )
    ]
