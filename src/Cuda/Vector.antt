-- ===== src/Cuda/Vector.antt =====
-- CUDA/Vector.h: `Vector<T>` in managed memory. The host may enlarge it, a device call that has to traps.
use gpu_moses.Prelude.{ℕ, some, replicate, ltb, if◌then◌else◌}
use gpu_moses.Outcome.{done, fault, trap}
use gpu_moses.Cuda.Buffer.{Buffer, Reserve}

module _ {ℓ} {A : Type ℓ} where
  -- The constructor fills the cells with `val`.
  unfoldable pub new : ℕ → A → Buffer A
  new n val = record { max_size = n; cells = replicate n (some val) }

  -- `Reserve`, on the host.
  unfoldable pub reserve_host : Reserve A
  reserve_host n b = if ltb b.max_size n then done (record b { max_size = n }) else done b

  -- `reserve`, on the device.
  unfoldable pub reserve : Reserve A
  reserve n b = if ltb b.max_size n then fault trap else done b
