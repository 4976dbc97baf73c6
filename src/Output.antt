-- ===== src/Output.antt =====
-- `GetBestHypo` of Manager.cu: the words of the best hypothesis of the last stack.
pub mod Best
pub mod Copy
pub mod Reverse
pub mod Correct
use gpu_moses.Prelude.{
  ℕ, zero, suc, ◌+◌, ◌-◌, ◌/◌, Bool, true, false, Option, none, some, if◌then◌else◌,
}
use gpu_moses.Outcome.{Outcome, done, assertion, or_fault, ◌>>=◌}
use gpu_moses.Cuda.Buffer.{Buffer, size, read, write}
use gpu_moses.Hypothesis.{Hypothesis, initial, extending, fields}

-- From the last word of the phrase back: `rounds` is the `i` of the loop.
unfoldable pub copy_phrase : ℕ → Buffer ℕ → ℕ → Buffer ℕ → Outcome (ℕ × Buffer ℕ)
unfolding read write
copy_phrase zero tp pos ids = done (pos, ids)
copy_phrase (suc rounds) tp pos ids = do
  id ← read tp rounds
  ids' ← write ids pos id
  copy_phrase rounds tp (pos + 1) ids'

unfoldable pub copy_chain {ℓ} : {S : Type ℓ} → Hypothesis S → ℕ → Buffer ℕ → Outcome (ℕ × Buffer ℕ)
unfolding copy_phrase
copy_chain (initial f) pos ids = copy_phrase (size f.target_phrase) f.target_phrase pos ids
copy_chain (extending f prev) pos ids = do
  (pos', ids') ← copy_phrase (size f.target_phrase) f.target_phrase pos ids
  copy_chain prev pos' ids'

unfoldable pub reverse_loop : ℕ → ℕ → ℕ → Buffer ℕ → Outcome (Buffer ℕ)
unfolding read write
reverse_loop zero i pos ids = done ids
reverse_loop (suc rounds) i pos ids = do
  tmp_id ← read ids i
  other ← read ids (pos - i - 1)
  ids' ← write ids i other
  ids'' ← write ids' (pos - i - 1) tmp_id
  reverse_loop rounds (i + 1) pos ids''

-- `greater` is `>` on the scores, and `lowest` the -999999 that the search for the best starts from.
module _ {ℓ κ} {S : Type ℓ} {N : Type κ} (future_score : S → N) (greater : N → N → Bool)
    (lowest : N) where
  unfoldable pub best_loop :
      ℕ → ℕ → Buffer (Hypothesis S) → N → Option (Hypothesis S) → Outcome (Option (Hypothesis S))
  unfolding read
  best_loop zero i hypos best_score best = done best
  best_loop (suc rounds) i hypos best_score best = do
    hypo ← read hypos i
    let score = future_score (fields hypo).scores
    elim (greater score best_score) [
      | true ↦ best_loop rounds (i + 1) hypos score (some hypo)
      | false ↦ best_loop rounds (i + 1) hypos best_score best
    ]

  unfoldable pub get_best_hypo : Buffer (Hypothesis S) → Buffer ℕ → Outcome (Buffer ℕ)
  unfolding best_loop copy_chain reverse_loop
  get_best_hypo hypos vocab_ids = do
    best ← best_loop (size hypos) 0 hypos lowest none
    best_hypo ← or_fault best assertion
    (pos, ids) ← copy_chain best_hypo 0 vocab_ids
    reverse_loop (pos / 2) 0 pos ids
