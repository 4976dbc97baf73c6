-- ===== src/Decimal/Roundtrip.antt =====
-- A number that is printed is read back.
use gpu_moses.Prelude.{
  ℕ, zero, suc, ◌+◌, ◌-◌, ◌*◌, ◌/◌, ◌%◌, ◌≤◌, ◌<◌, ◌≡◌, refl, ap, sym, ◌∙◌, false, [], ◌∷◌, arith,
  ◌==◌, min, Bool-cases, inl, inr, not-==,
}
use gpu_moses.Outcome.{done}
use gpu_moses.Text.{Str}
use gpu_moses.Range.{word}
use gpu_moses.Decimal.{digits, print_size, is_space, number, signed_size, scan_size}

number_step :
    (acc n : ℕ) (cs : Str) → number acc ((b'0' + n % 10) ∷ cs) ≡ number (acc * 10 + n % 10) cs
number_step acc n cs = ground arith

number-digits : (fuel n : ℕ) (acc : Str) → n < fuel → number 0 (digits fuel n acc) ≡ number n acc
unfolding digits
number-digits zero n acc h = absurd (omega arith)
number-digits (suc fuel) n acc h = elim (Bool-cases (n / 10 == 0)) [
  | inl last ↦
      let small : n % 10 ≡ n = ground arith in
      rw last (number_step 0 n acc ∙ ap (λ (k : ℕ). number k acc) (omega arith))
  | inr more ↦ rw more (
      number-digits fuel (n / 10) ((b'0' + n % 10) ∷ acc) (ground arith)
      ∙ number_step (n / 10) n acc
      ∙ ap (λ (k : ℕ). number k acc) (omega arith))
]

-- What is printed starts with a digit.
digits_first :
    (fuel n : ℕ) (acc : Str)
    → n < fuel
    → (c : ℕ) × (cs : Str) × (digits fuel n acc ≡ c ∷ cs) × (b'0' ≤ c) × (c ≤ b'9')
unfolding digits
digits_first zero n acc h = absurd (omega arith)
digits_first (suc fuel) n acc h = elim (Bool-cases (n / 10 == 0)) [
  | inl last ↦ (b'0' + n % 10, acc, rw last refl, omega arith, omega arith)
  | inr more ↦
      let (c, cs, e, low, high) =
        digits_first fuel (n / 10) ((b'0' + n % 10) ∷ acc) (ground arith) in
      (c, cs, rw more e, low, high)
]

is_space_digit : (c : ℕ) → b'0' ≤ c → c ≤ b'9' → is_space c ≡ false
is_space_digit c low high = ground arith

signed_size_digit :
    (c : ℕ) (cs : Str)
    → b'0' ≤ c
    → c ≤ b'9'
    → signed_size (c ∷ cs) ≡ min (number 0 (c ∷ cs)) (word - 1)
signed_size_digit c cs low high =
    rw (not-== c b'-' (λ e. absurd (omega arith)), not-== c b'+' (λ e. absurd (omega arith))) refl

-- `Scan<size_t>` of what `SPrint` makes of a `size_t` is that number.
pub scan_size-print_size : (n : ℕ) → n < word → scan_size (print_size n) ≡ done n
unfolding print_size scan_size
scan_size-print_size n h =
    let (c, cs, e, low, high) = digits_first (n + 1) n [] (omega arith) in
    let value : number 0 (c ∷ cs) ≡ n =
      ap (number 0) (sym e) ∙ number-digits (n + 1) n [] (omega arith) in
    ap scan_size e ∙ scanned c cs low high value
  where
    scanned :
        (c : ℕ) (cs : Str)
        → b'0' ≤ c
        → c ≤ b'9'
        → number 0 (c ∷ cs) ≡ n
        → scan_size (c ∷ cs) ≡ done n
    scanned c cs low high value =
        rw (scan_size, is_space_digit c low high)
          (ap done (signed_size_digit c cs low high ∙ omega (arith, value)))
