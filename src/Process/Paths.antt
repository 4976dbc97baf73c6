-- ===== src/Process/Paths.antt =====
-- The input paths that `ProcessStack` finds.
use gpu_moses.Prelude.{ℕ, ◌≤◌, ◌<◌, ◌≡◌, Option, none, some, List, All}
use gpu_moses.Outcome.{done}
use gpu_moses.Cuda.Buffer.{Buffer, size}
use gpu_moses.Cuda.Holds.{Holds}
use gpu_moses.Hypothesis.{TargetPhrase}
use gpu_moses.Process.{InputPath, get_input_path}

module _ {κ} {T : Type κ} (Fits : T → Type κ) where
  abbrev pub Readable : Option (Buffer (TargetPhrase T)) → Type κ
  Readable none = Unit
  Readable (some tps) =
      (ts : List (TargetPhrase T)) × Holds tps ts × All (λ tp. Fits tp.tp_scores) ts

  -- The path of a range, with what the phrase table gave for it.
  pub record IsPath (start end : ℕ) (path : InputPath T) : Type κ where
    pub found : Option (Buffer (TargetPhrase T))
    pub written : path.target_phrases ≡ some found
    pub readable : Readable found
    pub ranged : path.range ≡ some (record { start_pos = start; end_pos = end })

  -- Every range of the input has its path, and every word of it has a translation.
  pub record IsPaths (n : ℕ) (paths : List (InputPath T)) : Type κ where
    pub path_of :
        (start end : ℕ)
        → start ≤ end
        → end < n
        → (path : InputPath T) × (get_input_path n start end paths ≡ done path)
          × IsPath start end path
    pub word_of :
        (g : ℕ) (path : InputPath T)
        → g < n
        → get_input_path n g g paths ≡ done path
        → (tps : Buffer (TargetPhrase T)) × (path.target_phrases ≡ some (some tps)) × (0 < size tps)
