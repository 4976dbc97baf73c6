-- ===== src/Signed.antt =====
-- The `int` arithmetic of Manager.cu and FF/Distortion.cu. Positions are below NOT_FOUND_DEVICE, which
-- is below 2^31, so that the casts from `size_t` keep them and the differences are in range.
use gpu_moses.Prelude.{
  ℕ, zero, suc, ◌+◌, ◌-◌, ◌≡◌, refl, arith, Bool, true, false, ltb, leb, if◌then◌else◌, le→leb,
  not-leb, dec_le,
}

pub data ℤ : Type 0 where
  pos negsuc : ℕ → ℤ

-- `(int) a - (int) b`.
abbrev pub minus : ℕ → ℕ → ℤ
minus a b = if leb b a then pos (a - b) else negsuc (b - a - 1)

abbrev pub plus_one : ℤ → ℤ
plus_one (pos n) = pos (n + 1)
plus_one (negsuc zero) = pos 0
plus_one (negsuc (suc n)) = negsuc n

abbrev pub abs : ℤ → ℕ
abs (pos n) = n
abs (negsuc n) = suc n

abbrev pub is_negative : ℤ → Bool
is_negative (pos n) = false
is_negative (negsuc n) = true

-- `a > b` for an `a` that is not negative.
abbrev pub exceeds : ℕ → ℤ → Bool
exceeds a (pos b) = ltb b a
exceeds a (negsuc b) = true

abs-plus_one_neg : (n : ℕ) → abs (plus_one (negsuc n)) ≡ n
abs-plus_one_neg zero = refl
abs-plus_one_neg (suc n) = refl

-- One of the two differences is 0.
pub abs-minus : (a b : ℕ) → abs (plus_one (minus a b)) ≡ (a + 1 - b) + (b - (a + 1))
abs-minus a b = elim (dec_le b a) [
  | yes h ↦ rw (le→leb b a h) (omega arith)
  | no h ↦ rw (not-leb b a (omega arith), abs-plus_one_neg (b - a - 1)) (omega arith)
]
