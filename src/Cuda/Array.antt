-- ===== src/Cuda/Array.antt =====
-- CUDA/Array.h: `Array<T>`, an array on the device heap that grows.
use gpu_moses.Prelude.{ℕ, none, replicate, ltb, if◌then◌else◌}
use gpu_moses.Outcome.{done}
use gpu_moses.Cuda.Buffer.{Buffer, Reserve}

module _ {ℓ} {A : Type ℓ} where
  -- The constructor: `malloc` leaves the cells unwritten.
  unfoldable pub new : ℕ → Buffer A
  new n = record { max_size = n; cells = replicate n none }

  -- The first `m_size` cells are copied to a larger allocation.
  unfoldable pub reserve : Reserve A
  reserve n b = if ltb b.max_size n then done (record b { max_size = n }) else done b
