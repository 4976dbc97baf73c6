-- ===== src/Cuda/Compare.antt =====
-- `Compare` of CUDA/Array.h. The order is by size first; at the first difference of two arrays of one
-- size it is +1 that says "less", and every user of `Compare` only tests the result for 0 or below 0.
pub mod Laws
use gpu_moses.Prelude.{ℕ, zero, suc, ◌+◌, Bool, true, false, ltb, ◌==◌, not, if◌then◌else◌}
use gpu_moses.Outcome.{Outcome, done, ◌>>=◌}
use gpu_moses.Cuda.Buffer.{Buffer, size, read}
use gpu_moses.Cuda.Sign.{Sign, minus_one, no_sign, plus_one}

module _ {ℓ} {A : Type ℓ} (lt : A → A → Bool) where
  -- `rounds` is what is left of `thisSize - i`.
  unfoldable pub compare_loop : ℕ → ℕ → Buffer A → Buffer A → Outcome Sign
  compare_loop zero i a b = done no_sign
  compare_loop (suc rounds) i a b = do
    this_val ← read a i
    other_val ← read b i
    elim (lt this_val other_val) [
      | true ↦ done plus_one
      | false ↦ elim (lt other_val this_val) [
        | true ↦ done minus_one
        | false ↦ compare_loop rounds (i + 1) a b
      ]
    ]

  unfoldable pub compare : Buffer A → Buffer A → Outcome Sign
  unfolding compare_loop read
  compare a b =
      if not (size a == size b)
      then done (if ltb (size a) (size b) then minus_one else plus_one)
      else compare_loop (size a) 0 a b
