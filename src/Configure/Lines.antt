-- ===== src/Configure/Lines.antt =====
-- `Create` on lines that are put together from names and settings.
use mathlib.Core.List.{append_assoc, append-nil, map-append}
use gpu_moses.Prelude.{
  ℕ, ◌+◌, ◌*◌, ◌≤◌, ◌<◌, ◌≡◌, refl, ap, sym, ◌∙◌, true, none, some, List, [], ◌∷◌, ◌++◌, map, All,
  arith, length,
}
use gpu_moses.Outcome.{done, fault, exception, Returns, returns, Returns-map}
use gpu_moses.Range.{word}
use gpu_moses.Text.{Str, codes, str_eq}
use gpu_moses.Decimal.{signed_size, skip_spaces}
use gpu_moses.Util.{blanks}
use gpu_moses.Util.Join.{IsToken, join, tokenize-join}
use gpu_moses.Features.{
  ClassId, distortion, word_penalty, phrase_dictionary_memory, unknown_word_penalty, language_model,
  Line, Feature, FeatureFunctions, class_of, put,
}
use gpu_moses.Features.Layout.{IsLayout, put-IsLayout}
use gpu_moses.FeatureLine.{Parsed, Settings, read_parameters}
use gpu_moses.FeatureLine.Parse.{
  IsSetting, setting, settings-IsToken, distinct, IsCount, settings_of, last_value, given,
  parse_line-settings,
}
use gpu_moses.Configure.{names, unset, no_features, construct, create_lines, create}

-- A line as it is meant: its class, with the name of that, and settings.
pub record Entry : Type 0 where
  pub class_id : ClassId
  pub stub : Str
  pub kvs : List (Str × Str)

abbrev pub show : Entry → Str
show e = join b' ' (e.stub ∷ map setting e.kvs)

-- What the line comes to.
abbrev pub meant : Entry → Parsed
meant e = settings_of e.kvs

-- The line can be written and read, and its class takes its arguments.
pub record IsEntry (e : Entry) : Type 0 where
  pub is_class : class_of str_eq names e.stub ≡ some e.class_id
  pub stub_token : IsToken blanks e.stub
  pub are_settings : All IsSetting e.kvs
  pub counts : All IsCount e.kvs
  pub no_key_twice : distinct [] e.kvs ≡ true
  pub settings : Settings
  pub taken : read_parameters e.class_id (meant e).m_args unset ≡ done settings

construct-meant :
    (e : Entry) (is : IsEntry e) → construct e.class_id (show e) ≡ done (meant e, is.settings)
unfolding construct
construct-meant e is =
    rw
      (
        parse_line-settings e.stub e.kvs is.stub_token is.are_settings is.counts,
        is.no_key_twice,
        is.taken,
      )
      refl

abbrev line_of : Entry → Line Str
line_of e = record {
  stub = e.stub;
  line_name = (meant e).m_name;
  num_features = (meant e).num_scores;
}

abbrev pub name_and_scores : Feature Str → Str × ℕ
name_and_scores ff = (ff.m_name, ff.num_scores)

-- The value of `name` and the number of `num-features` in a line, or what stands for them.
abbrev pub name_and_count : Entry → Str × ℕ
name_and_count e = (
  given (λ v. v) [] (last_value (codes "name") e.kvs),
  given (λ v. signed_size (skip_spaces v)) 1 (last_value (codes "num-features") e.kvs),
)

abbrev pub total_count : List Entry → ℕ
total_count [] = 0
total_count (e ∷ entries) = (name_and_count e).1 + total_count entries

-- The features of the entries, after those that were there.
pub record Creates (entries : List Entry) (before : FeatureFunctions Str)
    (r : FeatureFunctions Str × List Settings) : Type 0 where
  pub layout : IsLayout str_eq names r.0
  pub features :
      map name_and_scores r.0.ffs ≡ map name_and_scores before.ffs ++ map name_and_count entries

put-features :
    (c : ClassId) (line : Line Str) (s : FeatureFunctions Str)
    → map name_and_scores (put str_eq names c line s).ffs
      ≡ map name_and_scores s.ffs ++ (line.line_name, line.num_features) ∷ []
unfolding put
put-features distortion line s = map-append name_and_scores s.ffs _
put-features word_penalty line s = map-append name_and_scores s.ffs _
put-features phrase_dictionary_memory line s = map-append name_and_scores s.ffs _
put-features unknown_word_penalty line s = map-append name_and_scores s.ffs _
put-features language_model line s = map-append name_and_scores s.ffs _

put-total :
    (c : ClassId) (line : Line Str) (s : FeatureFunctions Str)
    → s.total_num_scores + line.num_features < word
    → s.total_state_size + 8 < word
    → ((put str_eq names c line s).total_num_scores ≡ s.total_num_scores + line.num_features)
      × ((put str_eq names c line s).total_state_size ≤ s.total_state_size + 8)
unfolding put
put-total distortion line s scores states = (ground arith, ground arith)
put-total word_penalty line s scores states = (ground arith, omega arith)
put-total phrase_dictionary_memory line s scores states = (ground arith, omega arith)
put-total unknown_word_penalty line s scores states = (ground arith, omega arith)
put-total language_model line s scores states = (ground arith, ground arith)

create_lines-Creates :
    (entries : List Entry) (s : FeatureFunctions Str) (all : List Settings)
    → All IsEntry entries
    → s.total_num_scores + total_count entries < word
    → s.total_state_size + length entries * 8 < word
    → IsLayout str_eq names s
    → Returns (Creates entries s) (create_lines (map show entries) s all)
unfolding create_lines
create_lines-Creates [] s all h scores states l =
    returns (record { layout = l; features = sym (append-nil (map name_and_scores s.ffs)) })
create_lines-Creates (e ∷ entries) s all h scores states l =
    let (total, size) =
      put-total e.class_id (line_of e) s (omega (arith, scores)) (omega (arith, states)) in
    rw
      (
        tokenize-join blanks b' ' (e.stub ∷ map setting e.kvs) refl
            (h.0.stub_token, settings-IsToken e.kvs h.0.are_settings),
        h.0.is_class,
        construct-meant e h.0,
      )
      (Returns-map
        (create_lines-Creates entries (put str_eq names e.class_id (line_of e) s)
          (all ++ h.0.settings ∷ []) h.1 (omega (arith, scores, total))
          (omega (arith, states, size))
          (put-IsLayout str_eq names e.class_id (line_of e) s (omega (arith, scores))
            (omega (arith, states)) l))
        λ r c. record {
          layout = c.layout;
          features =
              c.features
              ∙ ap (λ (x : List (Str × ℕ)). x ++ map name_and_count entries)
                  (put-features e.class_id (line_of e) s)
              ∙ append_assoc (map name_and_scores s.ffs) _ _;
        })

-- On lines that are put together from the name of a class and settings `key=value` that the class takes,
-- where no part has a blank, no key has a `=` or stands twice in a line, and the values of `num-features` are
-- not white space: if the scores of all lines add up to less than 2^64, and so do 8 bytes for each line,
-- `Create` ends without a fault. It makes one feature for each line, in order; its name is the value of `name` in the
-- line, or empty, and it has as many scores as the number in the value of `num-features`, or one. The scores
-- of the features lie one after the other, and so do the states of the stateful ones. Without a [feature]
-- section it throws.
pub create-Creates :
    (entries : List Entry)
    → All IsEntry entries
    → total_count entries < word
    → length entries * 8 < word
    → Returns (Creates entries no_features) (create (some (map show entries)))
      × (create none ≡ fault exception)
unfolding create
create-Creates entries h scores states = (
  create_lines-Creates entries no_features [] h (omega (arith, scores)) (omega (arith, states))
      (record { scores = (tt, tt); states = (tt, tt) }),
  refl,
)
