-- ===== src/Features.antt =====
-- FF/FeatureFunctions.cu and System.cu: the features that the configuration names, the places of their
-- scores and states, and the weights. `W` is the type of strings, and `same` their `==`.
pub mod Layout
pub mod Weights
use gpu_moses.Prelude.{
  ℕ, zero, suc, ◌+◌, ◌%◌, Bool, true, false, not, Option, none, some, List, [], ◌∷◌, ◌++◌, length,
  ◌==◌, if◌then◌else◌,
}
use gpu_moses.Outcome.{Outcome, done, fault, exception, or_fault, guard, ◌>>=◌, ◌>>◌}
use gpu_moses.Range.{word}
use gpu_moses.Cuda.Buffer.{Buffer, write}

-- `FeatureFunction::ClassId`.
pub data ClassId : Type 0 where
  distortion word_penalty phrase_dictionary_memory unknown_word_penalty language_model : ClassId

-- A line of the [feature] section as `ParseLine` reads it: its first token, `name` and `num-features`.
pub record Line {ℓ} (W : Type ℓ) : Type ℓ where
  pub stub : W
  pub line_name : W
  pub num_features : ℕ

pub record Feature {ℓ} (W : Type ℓ) : Type ℓ where
  pub class_id : ClassId
  pub m_name : W
  pub start_ind : ℕ
  pub num_scores : ℕ
  pub state_offset : ℕ
  pub state_size : ℕ

pub record FeatureFunctions {ℓ} (W : Type ℓ) : Type ℓ where
  pub ffs : List (Feature W)
  pub stateful_ffs : List (Feature W)
  pub stateless_ffs : List (Feature W)
  pub pt : Option (Feature W)
  pub total_num_scores : ℕ
  pub total_state_size : ℕ

-- The string constants of `Create`.
pub record Names {ℓ} (W : Type ℓ) : Type ℓ where
  pub distortion_name : W
  pub word_penalty_name : W
  pub phrase_dictionary_name : W
  pub unknown_word_name : W
  pub language_model_name : W

-- `dynamic_cast<StatefulFeatureFunction*>`: `stateSize`, a `size_t` or a pointer, of those that have one.
abbrev pub state_bytes : ClassId → Option ℕ
state_bytes distortion = some 8
state_bytes language_model = some 8
state_bytes word_penalty = none
state_bytes unknown_word_penalty = none
state_bytes phrase_dictionary_memory = none

module _ {ℓ} {W : Type ℓ} (same : W → W → Bool) (names : Names W) where
  abbrev pub class_of : W → Option ClassId
  class_of stub =
      if same stub names.distortion_name
      then some distortion
      else if same stub names.word_penalty_name
      then some word_penalty
      else if same stub names.phrase_dictionary_name
      then some phrase_dictionary_memory
      else if same stub names.unknown_word_name
      then some unknown_word_penalty
      else if same stub names.language_model_name
      then some language_model
      else none

  -- "put into correct vector", for a feature of the class. The sums are `size_t`.
  unfoldable pub put : ClassId → Line W → FeatureFunctions W → FeatureFunctions W
  put class_id line s =
      let start = s.total_num_scores in
      let total = (s.total_num_scores + line.num_features) % word in
      let plain : Feature W = record {
        class_id = class_id;
        m_name = line.line_name;
        start_ind = start;
        num_scores = line.num_features;
        state_offset = 0;
        state_size = 0;
      } in
      elim (state_bytes class_id) [
        | some bytes ↦
            let sfff : Feature W = record plain {
              state_offset = s.total_state_size;
              state_size = bytes;
            } in
            record s {
              ffs = s.ffs ++ sfff ∷ [];
              stateful_ffs = s.stateful_ffs ++ sfff ∷ [];
              total_num_scores = total;
              total_state_size = (s.total_state_size + bytes) % word;
            }
        | none ↦ elim class_id [
          | phrase_dictionary_memory ↦ record s {
            ffs = s.ffs ++ plain ∷ [];
            pt = some plain;
            total_num_scores = total;
          }
          | distortion ↦ record s {
            ffs = s.ffs ++ plain ∷ [];
            stateless_ffs = s.stateless_ffs ++ plain ∷ [];
            total_num_scores = total;
          }
          | word_penalty ↦ record s {
            ffs = s.ffs ++ plain ∷ [];
            stateless_ffs = s.stateless_ffs ++ plain ∷ [];
            total_num_scores = total;
          }
          | unknown_word_penalty ↦ record s {
            ffs = s.ffs ++ plain ∷ [];
            stateless_ffs = s.stateless_ffs ++ plain ∷ [];
            total_num_scores = total;
          }
          | language_model ↦ record s {
            ffs = s.ffs ++ plain ∷ [];
            stateless_ffs = s.stateless_ffs ++ plain ∷ [];
            total_num_scores = total;
          }
        ]
      ]

  -- `FindFeatureFunction`.
  unfoldable pub find_feature_function : W → List (Feature W) → Option (Feature W)
  find_feature_function name [] = none
  find_feature_function name (ff ∷ ffs) =
      if same ff.m_name name then some ff else find_feature_function name ffs

-- The loop of `SetWeights`.
unfoldable pub weight_loop {ℓ} : {N : Type ℓ} → ℕ → ℕ → List N → Buffer N → Outcome (Buffer N)
unfolding write
weight_loop start_ind i [] weights = done weights
weight_loop start_ind i (weight ∷ rest) weights = do
  weights' ← write weights (start_ind + i) weight
  weight_loop start_ind (i + 1) rest weights'

module _ {ℓ κ} {W : Type ℓ} {N : Type κ} (same : W → W → Bool) (names : Names W) where
  -- `System::SetWeights`.
  unfoldable pub set_weights : List (Feature W) → W → List N → Buffer N → Outcome (Buffer N)
  unfolding find_feature_function weight_loop
  set_weights ffs ff_name ff_weights weights = do
    ff ← or_fault (find_feature_function same names ff_name ffs) exception
    guard (length ff_weights == ff.num_scores) exception
    weight_loop ff.start_ind 0 ff_weights weights
