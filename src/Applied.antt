-- ===== src/Applied.antt =====
-- What the stateful features do to a new hypothesis: EvaluateWhenApplied of FF/FeatureFunctions.cu,
-- FF/Distortion.cu and LM/LanguageModel.cu, and SetState of FF/StatefulFeatureFunction.cu.
use gpu_moses.Prelude.{ℕ, zero, suc, ◌+◌, Option, none, List, [], ◌∷◌, ltb, if◌then◌else◌}
use gpu_moses.Outcome.{Outcome, done, fault, trap, ◌>>=◌}
use gpu_moses.Text.{Str}
use gpu_moses.Cuda.Buffer.{Buffer, size, read, write, push_back, resize}
use gpu_moses.Cuda.Array
use gpu_moses.Bitmap.{is_complete}
use gpu_moses.Distortion.{range_distance}
use gpu_moses.Node.{Node}
use gpu_moses.LanguageModel.{LmScores, shift_or_push, score}
use gpu_moses.Scores.{Scores, FeatureSpan}
use gpu_moses.Scores
use gpu_moses.Hypothesis.{Hypothesis, initial, extending, Fields, fields, get_word}
use gpu_moses.Features.{
  distortion, word_penalty, phrase_dictionary_memory, unknown_word_penalty, language_model, Feature,
}

-- `memcpy` of `SetState`.
unfoldable pub set_state : ℕ → List ℕ → Buffer ℕ → Outcome (Buffer ℕ)
unfolding write
set_state offset [] state_data = done state_data
set_state offset (byte ∷ src) state_data = do
  state_data' ← write state_data offset byte
  set_state (offset + 1) src state_data'

-- `hypo.scores` and `hypo.stateData` are members of the last hypothesis of the chain.
abbrev pub with_fields {ℓ} : {S : Type ℓ} → Fields S → Hypothesis S → Hypothesis S
with_fields f (initial g) = initial f
with_fields f (extending g prev) = extending f prev

-- The first loop of the language model, whose `targetPos` is one less than the argument.
unfoldable pub context_loop {ℓ} :
    {S : Type ℓ} → ℕ → Hypothesis S → ℕ → Buffer ℕ → Outcome (Buffer ℕ)
unfolding get_word push_back Array.reserve
context_loop order hypo zero context = done context
context_loop order hypo (suc target_pos) context =
    if ltb (size context) order
    then (do
      vocab_id ← get_word target_pos hypo
      context' ← push_back Array.reserve vocab_id context
      context_loop order hypo target_pos context')
    else done context

-- The type of scores with its sum and product, as in `Scores`, and the weights. `of_distance` is a negated
-- distance as a score, and `size_bytes` and `pointer_bytes` are how a `size_t` and a pointer to a node of the
-- language model lie in memory.
module _ {ℓ} {N : Type ℓ} (null : N) (plus times : N → N → N) (weights : Buffer N)
    (of_distance : ℕ → N) (size_bytes : ℕ → List ℕ) (pointer_bytes : Option ℕ → List ℕ) where
  abbrev pub feature_span : Feature Str → FeatureSpan
  feature_span ff = record { start_ind = ff.start_ind; num_scores = ff.num_scores }

  -- The new score and the new state of a feature.
  unfoldable pub apply_feature :
      Feature Str → N → List ℕ → Hypothesis (Scores N) → Outcome (Hypothesis (Scores N))
  unfolding Scores.plus_equal_feature set_state
  apply_feature ff value state hypo = do
    scores ←
        Scores.plus_equal_feature null plus times weights (feature_span ff) value
          (fields hypo).scores
    state_data ← set_state ff.state_offset state (fields hypo).state_data
    done (with_fields (record (fields hypo) { scores = scores; state_data = state_data }) hypo)

  -- `Distortion::EvaluateWhenApplied`.
  unfoldable pub apply_distortion :
      Feature Str → Hypothesis (Scores N) → Outcome (Hypothesis (Scores N))
  unfolding range_distance apply_feature
  apply_distortion ff (initial f) = done (initial f)
  apply_distortion ff (extending f prev) =
      apply_feature ff (of_distance (range_distance (fields prev).path f.path))
        (size_bytes f.path.end_pos) (extending f prev)

  -- The language model: `order` is `m_order`, `eos` is `m_eos`, and the trie has its root at node 0.
  module _ (order eos : ℕ) (heap : List (Node (LmScores N))) where
    -- A word more: the context, the sum of the scores and what `Score` gave last.
    unfoldable pub score_word : ℕ → Buffer ℕ → N → Outcome (Buffer ℕ × N × Option ℕ)
    unfolding shift_or_push score
    score_word vocab_id context total = do
      context' ← shift_or_push order vocab_id context
      from_scoring ← score null plus heap 0 (size context') context'
      done (context', plus total from_scoring.0, from_scoring.1)

    unfoldable pub score_loop :
        ℕ → ℕ → Buffer ℕ → Buffer ℕ → N → Option ℕ → Outcome (Buffer ℕ × N × Option ℕ)
    unfolding score_word read
    score_loop zero i tp context total state = done (context, total, state)
    score_loop (suc rounds) i tp context total state = do
      vocab_id ← read tp i
      (context', total', state') ← score_word vocab_id context total
      score_loop rounds (i + 1) tp context' total' state'

    -- `LanguageModel::EvaluateWhenApplied`.
    unfoldable pub apply_language_model :
        Feature Str → Hypothesis (Scores N) → Outcome (Hypothesis (Scores N))
    unfolding context_loop score_loop apply_feature is_complete resize Array.new Array.reserve
    apply_language_model ff hypo = do
      empty ← resize Array.reserve 0 (Array.new order)
      context ← context_loop order hypo (fields hypo).curr_target_words_range.start_pos empty
      let tp = (fields hypo).target_phrase
      (context', total, state) ← score_loop (size tp) 0 tp context null none
      let at_end : Outcome (N × Option ℕ) = score_word eos context' total >>= λ r. done (r.1, none)
      (total', state') ← (if is_complete (fields hypo).bitmap then at_end else done (total, state))
      apply_feature ff total' (pointer_bytes state') hypo

    unfoldable pub apply_one : Feature Str → Hypothesis (Scores N) → Outcome (Hypothesis (Scores N))
    unfolding apply_distortion apply_language_model
    apply_one sfff hypo = elim sfff.class_id [
      | distortion ↦ apply_distortion sfff hypo
      | language_model ↦ apply_language_model sfff hypo
      | word_penalty ↦ fault trap
      | unknown_word_penalty ↦ fault trap
      | phrase_dictionary_memory ↦ fault trap
    ]

    -- `FeatureFunctions::EvaluateWhenApplied`.
    unfoldable pub evaluate_when_applied :
        List (Feature Str) → Hypothesis (Scores N) → Outcome (Hypothesis (Scores N))
    unfolding apply_one
    evaluate_when_applied [] hypo = done hypo
    evaluate_when_applied (sfff ∷ stateful_ffs) hypo = do
      hypo' ← apply_one sfff hypo
      evaluate_when_applied stateful_ffs hypo'
