-- ===== src/Scores.antt =====
-- Scores.cu and ScoresUnmanaged.cu: the scores of all features, and their weighted total. `N` is the
-- type of floats, with its sum and product as parameters: no law of them is used.
pub mod Sums
use gpu_moses.Prelude.{
  ℕ, zero, suc, ◌+◌, Bool, not, map, List, [], ◌∷◌, length, replicate, some, ◌==◌, if◌then◌else◌,
}
use gpu_moses.Outcome.{Outcome, done, fault, assertion, exception, ◌>>=◌, ◌>>◌, guard}
use gpu_moses.Text.{Str}
use gpu_moses.Util.{tokenize_into, blanks}
use gpu_moses.Cuda.Buffer.{Buffer, size, read, write}

pub record Scores {ℓ} (N : Type ℓ) : Type ℓ where
  pub m_scores : Buffer N
  pub m_total : N

-- `startInd` and `numScores` of a feature.
pub record FeatureSpan : Type 0 where
  pub start_ind : ℕ
  pub num_scores : ℕ

module _ {ℓ} {N : Type ℓ} (null : N) (plus times : N → N → N) where
  -- Both constructors: all scores are 0.
  unfoldable pub new : ℕ → Scores N
  new n = record {
    m_scores = record { max_size = n; cells = replicate n (some null) };
    m_total = null;
  }

  unfoldable pub plus_loop : ℕ → ℕ → Buffer N → Buffer N → Outcome (Buffer N)
  unfolding read write
  plus_loop zero i other m_scores = done m_scores
  plus_loop (suc rounds) i other m_scores = do
    mine ← read m_scores i
    theirs ← read other i
    m_scores' ← write m_scores i (plus mine theirs)
    plus_loop rounds (i + 1) other m_scores'

  -- `ScoresUnmanaged::PlusEqual(sys, other)`, of either kind of scores.
  unfoldable pub plus_equal : ℕ → Scores N → Scores N → Outcome (Scores N)
  unfolding plus_loop
  plus_equal total_num_scores other s = do
    m_scores ← plus_loop total_num_scores 0 other.m_scores s.m_scores
    done (record { m_scores = m_scores; m_total = plus s.m_total other.m_total })

  -- `ScoresUnmanaged::PlusEqual(sys, ff, score)`.
  unfoldable pub plus_equal_feature : Buffer N → FeatureSpan → N → Scores N → Outcome (Scores N)
  unfolding read write
  plus_equal_feature weights ff score s = do
    guard (ff.num_scores == 1) assertion
    old ← read s.m_scores ff.start_ind
    m_scores ← write s.m_scores ff.start_ind (plus old score)
    weight ← read weights ff.start_ind
    done (record { m_scores = m_scores; m_total = plus s.m_total (times score weight) })

  unfoldable pub assign_loop : Buffer N → ℕ → ℕ → List N → Scores N → Outcome (Scores N)
  unfolding read write
  assign_loop weights start_ind i [] s = done s
  assign_loop weights start_ind i (score ∷ scores) s = do
    m_scores ← write s.m_scores (i + start_ind) score
    weight ← read weights (i + start_ind)
    assign_loop weights start_ind (i + 1) scores
        (record { m_scores = m_scores; m_total = plus s.m_total (times score weight) })

  -- `Scores::PlusEqual(sys, ff, scores)`.
  unfoldable pub plus_equal_vector : Buffer N → FeatureSpan → List N → Scores N → Outcome (Scores N)
  unfolding assign_loop
  plus_equal_vector weights ff scores s = do
    guard (length scores == ff.num_scores) exception
    assign_loop weights ff.start_ind 0 scores s

  -- `Scores::PlusEqual(sys, ff, score)`.
  unfoldable pub assign_feature : Buffer N → FeatureSpan → N → Scores N → Outcome (Scores N)
  unfolding read write
  assign_feature weights ff score s = do
    guard (ff.num_scores == 1) exception
    m_scores ← write s.m_scores ff.start_ind score
    weight ← read weights ff.start_ind
    done (record { m_scores = m_scores; m_total = plus s.m_total (times score weight) })

  -- `Scores::CreateFromString`. `parse` is `Scan<SCORE>`; `transform_score` is `TransformScore`, and
  -- `floor_score` is `FloorScore`.
  unfoldable pub create_from_string :
      (Str → N)
      → (N → N)
      → (N → N)
      → Buffer N
      → FeatureSpan
      → Str
      → Bool
      → Scores N
      → Outcome (Scores N)
  unfolding plus_equal_vector
  create_from_string parse transform_score floor_score weights ff str transform_scores s = do
    toks ← tokenize_into [] str blanks
    let scores = map parse toks
    let scores' = if transform_scores then map floor_score (map transform_score scores) else scores
    plus_equal_vector weights ff scores' s
