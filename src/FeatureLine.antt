-- ===== src/FeatureLine.antt =====
-- FF/FeatureFunction.cu, and the SetParameter of TranslationModel/PhraseTableMemory.cu and
-- LM/LanguageModel.cu: what a line of the [feature] section sets.
pub mod Parse
use gpu_moses.Prelude.{
  ℕ, Bool, true, false, not, ◌||◌, Option, none, some, List, [], ◌∷◌, ◌++◌, if◌then◌else◌,
}
use gpu_moses.Outcome.{Outcome, done, fault, exception, guard, ◌>>=◌, ◌>>◌}
use gpu_moses.Text.{Str, codes, str_eq}
use gpu_moses.Util.{tokenize, tokenize_first_only, scan_bool, blanks}
use gpu_moses.Decimal.{scan_size}
use gpu_moses.Features.{
  ClassId, distortion, word_penalty, phrase_dictionary_memory, unknown_word_penalty, language_model,
}

-- The members that `ParseLine` writes.
pub record Parsed : Type 0 where
  pub m_name : Str
  pub num_scores : ℕ
  pub m_args : List (Str × Str)

-- The members that the `SetParameter` of all classes write; none where nothing was written.
pub record Settings : Type 0 where
  pub m_tuneable : Option Bool
  pub m_path : Str
  pub m_factor_type : Option ℕ
  pub m_order : Option ℕ

-- "Incorrect format", unless there are two.
abbrev pub key_value : List Str → Outcome (Str × Str)
key_value [] = fault exception
key_value (key ∷ []) = fault exception
key_value (key ∷ (value ∷ [])) = done (key, value)
key_value (key ∷ (value ∷ (other ∷ rest))) = fault exception

abbrev pub contains : List Str → Str → Bool
contains [] key = false
contains (k ∷ keys) key = str_eq k key || contains keys key

unfoldable pub put_arg : Str → Str → Parsed → Outcome Parsed
unfolding scan_size
put_arg key value ff =
    if str_eq key (codes "num-features")
    then (do n ← scan_size value; done (record ff { num_scores = n }))
    else if str_eq key (codes "name")
    then done (record ff { m_name = value })
    else done (record ff { m_args = ff.m_args ++ (key, value) ∷ [] })

unfoldable pub parse_loop : List Str → List Str → Parsed → Outcome Parsed
unfolding put_arg
parse_loop [] keys ff = done ff
parse_loop (tok ∷ toks) keys ff = do
  args ← tokenize_first_only tok (codes "=")
  (key, value) ← key_value args
  guard (not (contains keys key)) exception
  ff' ← put_arg key value ff
  parse_loop toks (key ∷ keys) ff'

-- The constructor leaves one score.
abbrev pub unparsed : Parsed
unparsed = record { m_name = []; num_scores = 1; m_args = [] }

unfoldable pub parse_toks : List Str → Outcome Parsed
unfolding parse_loop
parse_toks [] = fault exception
parse_toks (name_stub ∷ toks) = parse_loop toks [] unparsed

-- `ParseLine`.
unfoldable pub parse_line : Str → Outcome Parsed
unfolding parse_toks
parse_line line = do toks ← tokenize line blanks; parse_toks toks

-- `FeatureFunction::SetParameter`.
unfoldable pub set_parameter : Str → Str → Settings → Outcome Settings
set_parameter key value s =
    if str_eq key (codes "tuneable")
    then (do b ← scan_bool value; done (record s { m_tuneable = some b }))
    else fault exception

-- `PhraseTableMemory::SetParameter`.
unfoldable pub set_phrase_table_parameter : Str → Str → Settings → Outcome Settings
unfolding set_parameter
set_phrase_table_parameter key value s =
    if str_eq key (codes "input-factor")
      || str_eq key (codes "output-factor")
      || str_eq key (codes "table-limit")
    then done s
    else if str_eq key (codes "path")
    then done (record s { m_path = value })
    else set_parameter key value s

-- `LanguageModel::SetParameter`.
unfoldable pub set_language_model_parameter : Str → Str → Settings → Outcome Settings
unfolding set_parameter scan_size
set_language_model_parameter key value s =
    if str_eq key (codes "path")
    then done (record s { m_path = value })
    else if str_eq key (codes "factor")
    then (do n ← scan_size value; done (record s { m_factor_type = some n }))
    else if str_eq key (codes "order")
    then (do n ← scan_size value; done (record s { m_order = some n }))
    else set_parameter key value s

-- The call is virtual.
unfoldable pub set_parameter_of : ClassId → Str → Str → Settings → Outcome Settings
unfolding set_parameter set_phrase_table_parameter set_language_model_parameter
set_parameter_of distortion = set_parameter
set_parameter_of word_penalty = set_parameter
set_parameter_of unknown_word_penalty = set_parameter
set_parameter_of phrase_dictionary_memory = set_phrase_table_parameter
set_parameter_of language_model = set_language_model_parameter

-- `ReadParameters`, which takes the arguments from the front.
unfoldable pub read_parameters : ClassId → List (Str × Str) → Settings → Outcome Settings
unfolding set_parameter_of
read_parameters class_id [] s = done s
read_parameters class_id ((key, value) ∷ args) s = do
  s' ← set_parameter_of class_id key value s
  read_parameters class_id args s'
