-- ===== src/InputPaths.antt =====
-- `InitInputPaths` and `Lookup` of Manager.cu: the table of the ranges of the input, and the target phrases
-- of each.
pub mod Filled
pub mod Unwritten
use gpu_moses.Prelude.{
  ℕ, ◌+◌, ◌*◌, Option, none, some, List, [], ◌∷◌, replicate, set, ltb, if◌then◌else◌,
}
use gpu_moses.Outcome.{Outcome, done, ◌>>=◌}
use gpu_moses.Cuda.Buffer.{Buffer}
use gpu_moses.Manager.{range_to_ind}
use gpu_moses.Hypothesis.{TargetPhrase}
use gpu_moses.PhraseTable.{Table, lookup_phrases}
use gpu_moses.Process.{InputPath, get_input_path}

-- The threads of a launch, one for each pair of a block and a thread index. They run in some order.
unfoldable pub launch {ℓ} : {A : Type ℓ} → (ℕ × ℕ → A → Outcome A) → List (ℕ × ℕ) → A → Outcome A
launch thread [] a = done a
launch thread (t ∷ threads) a = do a' ← thread t a; launch thread threads a'

abbrev pub Paths {κ} : Type κ → Type κ
Paths T = List (InputPath T)

-- `Resize` of the empty vector constructs no element.
abbrev pub raw_path {κ} : {T : Type κ} → InputPath T
raw_path = record { target_phrases = none; range = none }

module _ {κ} {T : Type κ} (input_size : ℕ) where
  -- `InitPathRange`.
  unfoldable pub init_path_range : ℕ × ℕ → Paths T → Outcome (Paths T)
  unfolding get_input_path range_to_ind
  init_path_range (start, end) paths = if ltb end start then done paths else (do
    path ← get_input_path input_size start end paths
    done (
        set paths (range_to_ind input_size start end)
          (record path { range = some (record { start_pos = start; end_pos = end }) })))

  unfoldable pub init_input_paths : List (ℕ × ℕ) → Outcome (Paths T)
  unfolding launch init_path_range
  init_input_paths order =
      launch init_path_range order (replicate (input_size * input_size) raw_path)

  -- A thread of `Lookup`.
  unfoldable pub lookup_thread :
      Buffer ℕ → Table (TargetPhrase T) → ℕ × ℕ → Paths T → Outcome (Paths T)
  unfolding lookup_phrases get_input_path range_to_ind
  lookup_thread input pt (start, end) paths = if ltb end start then done paths else (do
    tps ← lookup_phrases input start end pt
    path ← get_input_path input_size start end paths
    done
        (set paths (range_to_ind input_size start end) (record path { target_phrases = some tps })))

  -- Both launches.
  unfoldable pub fill_paths :
      Buffer ℕ → Table (TargetPhrase T) → List (ℕ × ℕ) → List (ℕ × ℕ) → Outcome (Paths T)
  unfolding init_input_paths launch lookup_thread
  fill_paths input pt init_order lookup_order = do
    paths ← init_input_paths init_order
    launch (lookup_thread input pt) lookup_order paths
