-- ===== src/Cuda/Search.antt =====
-- `upperBound` of CUDA/Array.h and CUDA/Vector.h (the text is the same, also in the host's `UpperBound`).
-- The loop's `r` is kept as `r + 1`, called `bound`, so that the `r` of -1 is 0. The fuel is one more
-- than the length; search_loop-Finds shows that it is enough.
pub mod Finds
use gpu_moses.Prelude.{ℕ, zero, suc, ◌+◌, ◌-◌, ◌/◌, Bool, true, false, ltb, if◌then◌else◌}
use gpu_moses.Outcome.{Outcome, done, fault, out_of_fuel, ◌>>=◌}
use gpu_moses.Cuda.Buffer.{Buffer, size, read}

module _ {ℓ} {A : Type ℓ} (lt : A → A → Bool) (sought : A) (b : Buffer A) where
  unfoldable pub search_loop : ℕ → ℕ → ℕ → ℕ → Outcome (Bool × ℕ)
  search_loop zero l bound second = fault out_of_fuel
  search_loop (suc fuel) l bound second = elim (ltb l bound) [
    | false ↦ done (false, second)
    | true ↦ do
      let x = (l + (bound - 1)) / 2
      obj ← read b x
      elim (lt sought obj) [
        | true ↦ search_loop fuel l x (if ltb x second then x else second)
        | false ↦ elim (lt obj sought) [
          | true ↦ search_loop fuel (x + 1) bound second
          | false ↦ done (true, x)
        ]
      ]
  ]

  unfoldable pub upper_bound : Outcome (Bool × ℕ)
  unfolding search_loop read
  upper_bound = search_loop (suc (size b)) 0 (size b) (size b)
