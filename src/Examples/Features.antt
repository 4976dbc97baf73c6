-- ===== src/Examples/Features.antt =====
-- FF/Distortion.cu: the feature on a hypothesis that jumps over one word, with one byte for a position.
use gpu_moses.Prelude.{ℕ, ◌+◌, ◌*◌, ◌≡◌, refl, some, none, [], ◌∷◌}
use gpu_moses.Outcome.{done}
use gpu_moses.Range.{Range}
use gpu_moses.Cuda.Buffer.{Buffer}
use gpu_moses.Scores.{Scores}
use gpu_moses.Hypothesis.{Hypothesis, Fields, initial, extending}
use gpu_moses.Features.{Feature, distortion}
use gpu_moses.Text.{Str, codes}
use gpu_moses.Applied.{evaluate_when_applied}

abbrev range : ℕ → Range
range n = record { start_pos = n; end_pos = n }

abbrev at_word : ℕ → ℕ → Buffer ℕ → Fields (Scores ℕ)
at_word n total state = record {
  path = range n;
  target_phrase = record { max_size = 0; cells = [] };
  bitmap = record {
    bits = record { max_size = 4; cells = [] };
    num_words_covered = 0;
    first_gap = 0;
  };
  curr_target_words_range = range 0;
  scores = record {
    m_scores = record { max_size = 1; cells = some total ∷ [] };
    m_total = total * 2;
  };
  state_data = state;
}

abbrev feature : Feature Str
feature = record {
  class_id = distortion;
  m_name = codes "Distortion0";
  start_ind = 0;
  num_scores = 1;
  state_offset = 0;
  state_size = 1;
}

abbrev unwritten : Buffer ℕ
unwritten = record { max_size = 1; cells = none ∷ [] }

abbrev hypo : ℕ → Buffer ℕ → Hypothesis (Scores ℕ)
hypo total state = extending (at_word 3 total state) (initial (at_word 1 0 unwritten))

-- From word 1 to word 3 is a distance of 1, and the state is the last word.
distortion_applied :
    evaluate_when_applied 0 ◌+◌ ◌*◌
      (record { max_size = 1; cells = some 2 ∷ [] })
      (λ d. d)
      (λ n. n ∷ [])
      (λ p. [])
      3
      0
      []
      (feature ∷ [])
      (hypo 0 unwritten)
    ≡ done (hypo 1 (record { max_size = 1; cells = some 3 ∷ [] }))
unfolding evaluate_when_applied
distortion_applied = refl
