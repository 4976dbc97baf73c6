-- ===== src/Examples/Sums.antt =====
-- Scores.cu and ScoresUnmanaged.cu with numbers for the floats.
use gpu_moses.Prelude.{ℕ, ◌+◌, ◌*◌, ◌≡◌, refl, arith, some, List, [], ◌∷◌}
use gpu_moses.Outcome.{Returns}
use gpu_moses.Cuda.Holds.{Holds}
use gpu_moses.Scores.{Scores, FeatureSpan, plus_equal}
use gpu_moses.Scores.Sums.{plus_equal-sums}

abbrev scores : Scores ℕ
scores = record {
  m_scores = record { max_size = 3; cells = some 1 ∷ some 2 ∷ some 3 ∷ [] };
  m_total = 6;
}

abbrev others : Scores ℕ
others = record {
  m_scores = record { max_size = 3; cells = some 4 ∷ some 5 ∷ some 6 ∷ [] };
  m_total = 9;
}

scores-Holds : Holds scores.m_scores (1 ∷ 2 ∷ 3 ∷ [])
scores-Holds = record { contents = refl; fits = omega arith }

others-Holds : Holds others.m_scores (4 ∷ 5 ∷ 6 ∷ [])
others-Holds = record { contents = refl; fits = omega arith }

plus_equal-sums_example :
    Returns
      (λ r. Holds r.m_scores (5 ∷ 7 ∷ 9 ∷ []) × (r.m_total ≡ 15))
      (plus_equal 0 ◌+◌ ◌*◌ 3 others scores)
plus_equal-sums_example =
    plus_equal-sums 0 ◌+◌ ◌*◌ (1 ∷ 2 ∷ 3 ∷ []) (4 ∷ 5 ∷ 6 ∷ []) others scores scores-Holds
      others-Holds refl

abbrev last_two : FeatureSpan
last_two = record { start_ind = 1; num_scores = 2 }

abbrev pair : List ℕ
pair = 7 ∷ 8 ∷ []
