-- ===== src/Cuda/Set.antt =====
-- CUDA/Set.h: a set of entries that no two are equivalent, kept sorted in a `Vector`.
pub mod Laws
use gpu_moses.Prelude.{ℕ, Bool, not}
use gpu_moses.Outcome.{Outcome, assertion, guard, ◌>>=◌, ◌>>◌}
use gpu_moses.Cuda.Buffer.{Buffer, Reserve}
use gpu_moses.Cuda.Buffer
use gpu_moses.Cuda.Vector
use gpu_moses.Cuda.Search.{upper_bound}

module _ {ℓ} {A : Type ℓ} (lt : A → A → Bool) where
  -- The text of `insert` and `Insert`, which differ in the `Vector` member that they call.
  unfoldable pub insert_with : Reserve A → A → Buffer A → Outcome (Buffer A)
  insert_with reserve val m_vec = do
    upper ← upper_bound lt val m_vec
    guard (not upper.0) assertion
    Buffer.insert reserve upper.1 val m_vec

  -- `insert`, on the device.
  unfoldable pub insert : A → Buffer A → Outcome (Buffer A)
  unfolding insert_with
  insert val m_vec = insert_with Vector.reserve val m_vec

  -- `Insert`, on the host.
  unfoldable pub insert_host : A → Buffer A → Outcome (Buffer A)
  unfolding insert_with
  insert_host val m_vec = insert_with Vector.reserve_host val m_vec
