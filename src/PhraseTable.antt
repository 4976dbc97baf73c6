-- ===== src/PhraseTable.antt =====
-- TranslationModel/PhraseTableMemory.cu, with Phrase.cu, TargetPhrase.cu, TargetPhrases.cu and
-- FeatureFunctions::EvaluateInIsolation: the phrase table that `Load` builds, and `Lookup` in it.
pub mod Spec
pub mod Insert
pub mod Load
use gpu_moses.Prelude.{
  ℕ, zero, suc, ◌+◌, ◌-◌, Bool, true, Option, none, some, List, [], ◌∷◌, ◌++◌, length, get_elem?,
  set, map,
}
use gpu_moses.Outcome.{Outcome, done, out_of_bounds, null_pointer, or_fault, ◌>>=◌}
use gpu_moses.Text.{Str, codes, str_eq}
use gpu_moses.Util.{tokenize_into, tokenize_multi_char_separator, blanks}
use gpu_moses.Cuda.Buffer.{Buffer, push_back}
use gpu_moses.Cuda.Vector
use gpu_moses.Vocab.{Vocab, get_or_create_ids}
use gpu_moses.Node.{Node, node_at, add_or_create_node, lookup}
use gpu_moses.Hypothesis.{TargetPhrase}
use gpu_moses.Scores.{Scores, FeatureSpan}
use gpu_moses.Scores
use gpu_moses.Features.{
  ClassId, distortion, word_penalty, phrase_dictionary_memory, unknown_word_penalty, language_model,
  Feature,
}

-- `MyVocab::GetOrCreateIds` of a string.
unfoldable pub ids_of_string : Str → Vocab Str → Outcome (List ℕ × Vocab Str)
unfolding get_or_create_ids
ids_of_string str vocab = do
  toks ← tokenize_into [] str blanks
  done (get_or_create_ids str_eq toks vocab)

-- The constructor of `Phrase` from ids: a vector of that size, with each id in its place.
abbrev pub phrase : List ℕ → Buffer ℕ
phrase ids = record { max_size = length ids; cells = map some ids }

-- `new TargetPhrases()`.
abbrev pub no_phrases {ℓ} : {P : Type ℓ} → Buffer P
no_phrases = record { max_size = 0; cells = [] }

-- The value of a node is none where it is NULL.
abbrev pub Table {ℓ} : Type ℓ → Type ℓ
Table P = List (Node (Option (Buffer P)))

module _ {ℓ} {P : Type ℓ} where
  abbrev pub phrases_or_new : Option (Buffer P) → Buffer P
  phrases_or_new none = no_phrases
  phrases_or_new (some tps) = tps

  -- `node.value->Add(tp)`, after a new `TargetPhrases` where there is none.
  unfoldable pub add_target : ℕ → P → Table P → Outcome (Table P)
  unfolding node_at push_back Vector.reserve_host
  add_target p tp heap = do
    node ← node_at heap p
    tps ← push_back Vector.reserve_host tp (phrases_or_new node.value)
    done (set heap p (record node { value = some tps }))

  -- `PhraseTableMemory::Lookup`; the root is node 0.
  unfoldable pub lookup_phrases : Buffer ℕ → ℕ → ℕ → Table P → Outcome (Option (Buffer P))
  unfolding lookup node_at
  lookup_phrases phrase start end_pos heap = do
    found ← lookup phrase (end_pos + 1 - start) start 0 heap
    elim found [ none ↦ done none | some p ↦ do node ← node_at heap p; done node.value ]

-- The parameters of the scores are as in `Scores`; `negated` is `- (SCORE) size`.
module _ {ℓ} {N : Type ℓ} (null : N) (plus times : N → N → N) (parse : Str → N)
    (transform_score floor_score : N → N) (negated : ℕ → N) (weights : Buffer N) where
  abbrev pub span_of : Feature Str → FeatureSpan
  span_of ff = record { start_ind = ff.start_ind; num_scores = ff.num_scores }

  -- `EvaluateInIsolation` of the classes that are not stateful: `UnknownWordPenalty` does nothing.
  unfoldable pub evaluate_feature : Feature Str → ℕ → Scores N → Outcome (Scores N)
  unfolding Scores.assign_feature
  evaluate_feature ff size scores = elim ff.class_id [
    | word_penalty ↦
        Scores.assign_feature null plus times weights (span_of ff) (negated size) scores
    | unknown_word_penalty ↦ done scores
    | distortion ↦ done scores
    | phrase_dictionary_memory ↦ done scores
    | language_model ↦ done scores
  ]

  -- `FeatureFunctions::EvaluateInIsolation`.
  unfoldable pub evaluate_in_isolation : List (Feature Str) → ℕ → Scores N → Outcome (Scores N)
  unfolding evaluate_feature
  evaluate_in_isolation [] size scores = done scores
  evaluate_in_isolation (ff ∷ stateless_ffs) size scores = do
    scores' ← evaluate_feature ff size scores
    evaluate_in_isolation stateless_ffs size scores'

  -- The target phrase of a line and its scores.
  unfoldable pub read_target :
      List (Feature Str)
      → Feature Str
      → ℕ
      → List Str
      → Vocab Str
      → Outcome (TargetPhrase (Scores N) × Vocab Str)
  unfolding ids_of_string Scores.create_from_string evaluate_in_isolation Scores.new
  read_target stateless_ffs pt total_num_scores toks vocab = do
    target ← or_fault (get_elem? toks 1) out_of_bounds
    (target_ids, vocab') ← ids_of_string target vocab
    score_str ← or_fault (get_elem? toks 2) out_of_bounds
    scores ←
        Scores.create_from_string null plus times parse transform_score floor_score weights
          (span_of pt) score_str true (Scores.new null plus times total_num_scores)
    scores' ← evaluate_in_isolation stateless_ffs (length target_ids) scores
    done (record { words = phrase target_ids; tp_scores = scores' }, vocab')

  -- The loop of `Load`, over the lines of the file. The root is node 0.
  unfoldable pub load :
      List (Feature Str)
      → Feature Str
      → ℕ
      → List Str
      → Vocab Str
      → Table (TargetPhrase (Scores N))
      → Outcome (Table (TargetPhrase (Scores N)) × Vocab Str)
  load stateless_ffs pt total_num_scores [] vocab heap = done (heap, vocab)
  load stateless_ffs pt total_num_scores (line ∷ lines) vocab heap = do
    toks ← tokenize_multi_char_separator [] line (codes "|||")
    source ← or_fault (get_elem? toks 0) out_of_bounds
    (source_ids, vocab') ← ids_of_string source vocab
    (p, heap') ← add_or_create_node none source_ids 0 heap
    (tp, vocab'') ← read_target stateless_ffs pt total_num_scores toks vocab'
    heap'' ← add_target p tp heap'
    load stateless_ffs pt total_num_scores lines vocab'' heap''
