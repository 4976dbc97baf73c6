-- ===== src/Configure.antt =====
-- FF/FeatureFunctions.cu and System.cu, from the lines of the configuration: the constructors that `Create`
-- calls, and the weights that `LoadWeights` sets.
pub mod Lines
pub mod Weights
use gpu_moses.Prelude.{ℕ, Bool, Option, none, some, List, [], ◌∷◌, ◌++◌}
use gpu_moses.Outcome.{Outcome, done, fault, exception, assertion, or_fault, ◌>>=◌}
use gpu_moses.Text.{Str, codes, str_eq}
use gpu_moses.Util.{tokenize, blanks}
use gpu_moses.Cuda.Buffer.{Buffer}
use gpu_moses.Features.{ClassId, Line, Feature, FeatureFunctions, Names, class_of, put, set_weights}
use gpu_moses.FeatureLine.{Parsed, Settings, parse_line, read_parameters}

-- The names that `Create` compares with.
abbrev pub names : Names Str
names = record {
  distortion_name = codes "Distortion";
  word_penalty_name = codes "WordPenalty";
  phrase_dictionary_name = codes "PhraseDictionaryMemory";
  unknown_word_name = codes "UnknownWordPenalty";
  language_model_name = codes "LanguageModel";
}

abbrev pub unset : Settings
unset = record { m_tuneable = none; m_path = []; m_factor_type = none; m_order = none }

-- The constructors: `ParseLine`, and then `ReadParameters`.
unfoldable pub construct : ClassId → Str → Outcome (Parsed × Settings)
unfolding parse_line read_parameters
construct class_id line = do
  ff ← parse_line line
  settings ← read_parameters class_id ff.m_args unset
  done (ff, settings)

abbrev pub first_token : List Str → Outcome Str
first_token [] = fault assertion
first_token (tok ∷ toks) = done tok

-- The loop of `Create`, with the settings of the features in their order.
unfoldable pub create_lines :
    List Str → FeatureFunctions Str → List Settings → Outcome (FeatureFunctions Str × List Settings)
create_lines [] s all = done (s, all)
create_lines (line ∷ lines) s all = do
  toks ← tokenize line blanks
  stub ← first_token toks
  class_id ← or_fault (class_of str_eq names stub) exception
  (ff, settings) ← construct class_id line
  let feature_line : Line Str = record {
    stub = stub;
    line_name = ff.m_name;
    num_features = ff.num_scores;
  }
  create_lines lines (put str_eq names class_id feature_line s) (all ++ settings ∷ [])

-- What `Create` starts from.
abbrev pub no_features : FeatureFunctions Str
no_features = record {
  ffs = [];
  stateful_ffs = [];
  stateless_ffs = [];
  pt = none;
  total_num_scores = 0;
  total_state_size = 0;
}

-- `Create`, where `none` is a configuration without a [feature] section.
unfoldable pub create : Option (List Str) → Outcome (FeatureFunctions Str × List Settings)
unfolding create_lines
create none = fault exception
create (some ff_params) = create_lines ff_params no_features []

-- The loop of `System::LoadWeights`.
unfoldable pub load_weights {κ} :
    {N : Type κ} → List (Feature Str) → List (Str × List N) → Buffer N → Outcome (Buffer N)
unfolding set_weights
load_weights ffs [] weights = done weights
load_weights ffs ((ff_name, ff_weights) ∷ all_weights) weights = do
  weights' ← set_weights str_eq names ffs ff_name ff_weights weights
  load_weights ffs all_weights weights'
