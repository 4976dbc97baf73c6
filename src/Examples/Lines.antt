-- ===== src/Examples/Lines.antt =====
-- FeatureFunction.cu, FeatureFunctions.cu and System.cu: the line of a language model, and its weights.
use gpu_moses.Prelude.{
  ℕ, ◌≡◌, ◌≢◌, refl, arith, some, none, List, [], ◌∷◌, map, All, Ordered, ap, length, if◌then◌else◌,
  true≢false, false, true,
}
use gpu_moses.Outcome.{done, fault, exception, Returns}
use gpu_moses.Text.{Str, codes, str_eq}
use gpu_moses.Util.{blanks}
use gpu_moses.Util.Join.{IsToken, join}
use gpu_moses.Decimal.{scan_size}
use gpu_moses.Cuda.Buffer.{Buffer}
use gpu_moses.Features.{Feature, class_of, find_feature_function, language_model}
use gpu_moses.Features.Layout.{IsPacked}
use gpu_moses.FeatureLine.{Settings, parse_line, read_parameters}
use gpu_moses.FeatureLine.Parse.{
  IsSetting, setting, distinct, IsCount, settings_of, parse_line-settings,
}
use gpu_moses.Configure.{names, unset, no_features, create, load_weights}
use gpu_moses.Configure.Lines.{Entry, IsEntry, show, Creates, create-Creates}
use gpu_moses.Configure.Weights.{Fits, Loaded, load_weights-Loaded}

abbrev lm : Str
lm = codes "LanguageModel"

lm-IsToken : IsToken blanks lm
lm-IsToken = (
  refl,
  (
    refl,
    (refl, (refl, (refl, (refl, (refl, (refl, (refl, (refl, (refl, (refl, (refl, tt))))))))))),
  ),
)

abbrev kvs : List (Str × Str)
kvs = (codes "name", codes "LM0") ∷ (codes "order", codes "5") ∷ []

kvs-IsSetting : All IsSetting kvs
kvs-IsSetting = (
  (
    (refl, (refl, (refl, (refl, tt)))),
    (refl, (refl, (refl, (refl, tt)))),
    (refl, (refl, (refl, tt))),
  ),
  (
    (
      (refl, (refl, (refl, (refl, (refl, tt))))),
      (refl, (refl, (refl, (refl, (refl, tt))))),
      (refl, tt),
    ),
    tt,
  ),
)

not_count : {A : Type 0} → false ≡ true → A
not_count e = absurd (true≢false e refl)

kvs-IsCount : All IsCount kvs
kvs-IsCount = ((λ e. not_count e), ((λ e. not_count e), tt))

parse_line-settings_example :
    parse_line (join b' ' (lm ∷ map setting kvs))
    ≡ (if distinct [] kvs then done (settings_of kvs) else fault exception)
parse_line-settings_example = parse_line-settings lm kvs lm-IsToken kvs-IsSetting kvs-IsCount

abbrev entry : Entry
entry = record { class_id = language_model; stub = lm; kvs = kvs }

lm_class : class_of str_eq names lm ≡ some language_model
lm_class = refl

abbrev taken_settings : Settings
taken_settings = record { m_tuneable = none; m_path = []; m_factor_type = none; m_order = some 5 }

order_taken : read_parameters language_model (settings_of kvs).m_args unset ≡ done taken_settings
unfolding read_parameters scan_size
order_taken = refl

entry-IsEntry : IsEntry entry
entry-IsEntry = record {
  is_class = lm_class;
  stub_token = lm-IsToken;
  are_settings = kvs-IsSetting;
  counts = kvs-IsCount;
  no_key_twice = refl;
  settings = taken_settings;
  taken = order_taken;
}

create-Creates_example :
    Returns (Creates (entry ∷ []) no_features) (create (some (show entry ∷ [])))
    × (create none ≡ fault exception)
create-Creates_example = create-Creates (entry ∷ []) (entry-IsEntry, tt) (omega arith) (omega arith)

abbrev feature : Str → ℕ → Feature Str
feature name start = record {
  class_id = language_model;
  m_name = name;
  start_ind = start;
  num_scores = 1;
  state_offset = 0;
  state_size = 0;
}

abbrev features : List (Feature Str)
features = feature (codes "D0") 0 ∷ feature (codes "LM0") 1 ∷ []

abbrev all_weights : List (Str × List ℕ)
all_weights = (codes "LM0", 6 ∷ []) ∷ (codes "D0", 7 ∷ []) ∷ []

abbrev weights : Buffer ℕ
weights = record { max_size = 2; cells = none ∷ none ∷ [] }

features-IsPacked : IsPacked (λ (f : Feature Str). f.start_ind) (λ f. f.num_scores) features 2
features-IsPacked = (((omega arith, tt), (tt, tt)), (omega arith, (omega arith, tt)))

weights_fit : All (Fits features) all_weights
unfolding find_feature_function
weights_fit = ((feature (codes "LM0") 1, refl, refl), ((feature (codes "D0") 0, refl, refl), tt))

names_differ : Ordered (λ (a b : Str × List ℕ). a.0 ≢ b.0) all_weights
names_differ = (((λ e. absurd (omega (arith, ap (length {A = ℕ}) e))), tt), (tt, tt))

load_weights-Loaded_example :
    Returns (Loaded features all_weights weights) (load_weights features all_weights weights)
load_weights-Loaded_example =
    load_weights-Loaded features 2 features-IsPacked all_weights weights weights_fit names_differ
      (omega arith)
