-- ===== src/Stack.antt =====
-- Stack.h and Stack.cu: a beam of hypotheses, a sorted set with at most one of each recombination class.
-- `recomb` is HypothesisRecombinationOrderer and `better` HypothesisFutureScoreOrderer, so that
-- `better a b` is `a->getFutureScore() > b->getFutureScore()`; `freed` lists what was deleted.
pub mod Perms
pub mod Sort
pub mod Prune
pub mod Add
pub mod Keep
pub mod Entries
use gpu_moses.Prelude.{
  ℕ, zero, suc, ◌+◌, ◌-◌, ◌*◌, Bool, true, false, List, [], ◌∷◌, ◌++◌, ltb, leb, if◌then◌else◌,
}
use gpu_moses.Outcome.{Outcome, done, ◌>>=◌}
use gpu_moses.Cuda.Buffer.{Buffer, size, read, write, clear, insert}
use gpu_moses.Cuda.Array
use gpu_moses.Cuda.Vector
use gpu_moses.Cuda.Search.{upper_bound}
use gpu_moses.Cuda.Set

pub record Stack {ℓ} (H : Type ℓ) : Type ℓ where
  pub m_coll : Buffer H
  pub m_tolerance : ℕ
  pub freed : List H

module _ {ℓ} {H : Type ℓ} (recomb better : H → H → Bool) (stack_size : ℕ) where
  -- The constructor: an empty vector, with space for twice the beam.
  unfoldable pub new : Outcome (Stack H)
  unfolding Vector.reserve_host
  new = do
    coll ← Vector.reserve_host (stack_size * 2) (record { max_size = 0; cells = [] })
    done (record { m_coll = coll; m_tolerance = stack_size * 2; freed = [] })

  -- The loops of `prune`: into score order, back into the set, and what is left over is deleted.
  unfoldable pub sort_loop : ℕ → ℕ → Buffer H → Buffer H → Outcome (Buffer H)
  unfolding read upper_bound insert Array.reserve
  sort_loop zero i vec sorted = done sorted
  sort_loop (suc rounds) i vec sorted = do
    hypo ← read vec i
    upper ← upper_bound better hypo sorted
    sorted' ← insert Array.reserve upper.1 hypo sorted
    sort_loop rounds (i + 1) vec sorted'

  unfoldable pub keep_loop : ℕ → ℕ → Buffer H → Buffer H → Outcome (Buffer H)
  unfolding read Set.insert
  keep_loop zero i sorted coll = done coll
  keep_loop (suc rounds) i sorted coll = do
    hypo ← read sorted i
    coll' ← Set.insert recomb hypo coll
    keep_loop rounds (i + 1) sorted coll'

  unfoldable pub free_loop : ℕ → ℕ → Buffer H → List H → Outcome (List H)
  unfolding read
  free_loop zero i sorted freed = done freed
  free_loop (suc rounds) i sorted freed = do
    hypo ← read sorted i
    free_loop rounds (i + 1) sorted (freed ++ hypo ∷ [])

  unfoldable pub prune : Stack H → Outcome (Stack H)
  unfolding sort_loop keep_loop free_loop clear Array.new Array.reserve
  prune s = if ltb (size s.m_coll) stack_size then done s else (do
    space ← Array.reserve (size s.m_coll) (Array.new 0)
    sorted ← sort_loop (size s.m_coll) 0 s.m_coll space
    coll ← keep_loop stack_size 0 sorted (clear s.m_coll)
    freed ← free_loop (size sorted - stack_size) stack_size sorted s.freed
    done (record s { m_coll = coll; freed = freed }))

  -- `add`, once there is room.
  unfoldable pub recombine : H → Stack H → Outcome (Stack H)
  unfolding read write upper_bound Set.insert
  recombine hypo s = do
    upper ← upper_bound recomb hypo s.m_coll
    elim upper.0 [
      | true ↦ do
        other_hypo ← read s.m_coll upper.1
        elim (better hypo other_hypo) [
          | true ↦ do
            coll ← write s.m_coll upper.1 hypo
            done (record s { m_coll = coll; freed = s.freed ++ other_hypo ∷ [] })
          | false ↦ done (record s { freed = s.freed ++ hypo ∷ [] })
        ]
      | false ↦ do coll ← Set.insert recomb hypo s.m_coll; done (record s { m_coll = coll })
    ]

  unfoldable pub add : H → Stack H → Outcome (Stack H)
  unfolding prune recombine
  add hypo s = do
    s' ← (if leb s.m_tolerance (size s.m_coll) then prune s else done s)
    recombine hypo s'
