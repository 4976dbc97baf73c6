-- ===== src/Decoder.antt =====
-- `Manager::Process` of Manager.cu up to the search for the best hypothesis: from the phrase table and the
-- input to the stacks.
pub mod Correct
pub mod Debug
pub mod Program
use gpu_moses.Prelude.{ℕ, Bool, List, [], ◌∷◌}
use gpu_moses.Outcome.{Outcome, done, uninitialised, or_fault, ◌>>=◌, ◌>>◌}
use gpu_moses.Cuda.Buffer.{Buffer, size}
use gpu_moses.Signed.{ℤ}
use gpu_moses.Hypothesis.{Hypothesis, Fields, TargetPhrase}
use gpu_moses.Stack.{Stack}
use gpu_moses.PhraseTable.{Table}
use gpu_moses.InputPaths.{fill_paths}
use gpu_moses.Process.{Parts, InputPath, fill_stacks}

-- What `DebugTPSArr` reads of every path: the range, and the pointer to the target phrases.
unfoldable pub debug_tps_arr {κ} : {T : Type κ} → List (InputPath T) → Outcome (Unit {0})
debug_tps_arr [] = done tt
debug_tps_arr (path ∷ tps_vec) = do
  range ← or_fault path.range uninitialised
  tps ← or_fault path.target_phrases uninitialised
  debug_tps_arr tps_vec

module _ {ℓ κ} {S : Type ℓ} {T : Type κ} (parts : Parts S T) (max_distortion : ℤ) where
  -- The orders in which the threads of each launch run are arguments.
  unfoldable pub process :
      Buffer ℕ
      → Table (TargetPhrase T)
      → Buffer ℕ
      → List (ℕ × ℕ)
      → List (ℕ × ℕ)
      → (ℕ → List ℕ)
      → Outcome (List (Stack (Hypothesis S)))
  unfolding fill_paths debug_tps_arr fill_stacks
  process input pt init_phrase init_order lookup_order schedules = do
    paths ← fill_paths (size input) input pt init_order lookup_order
    printed ← debug_tps_arr paths
    fill_stacks parts max_distortion (size input) paths init_phrase schedules
