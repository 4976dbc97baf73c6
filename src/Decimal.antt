-- ===== src/Decimal.antt =====
-- `SPrint<size_t>`, `Scan<size_t>` and `Scan<int>` of Util.h: what `<<` and `>>` of a stream do with whole
-- numbers in decimal.
pub mod Roundtrip
use gpu_moses.Prelude.{
  ℕ, zero, suc, ◌+◌, ◌-◌, ◌*◌, ◌/◌, ◌%◌, ◌^◌, Bool, true, false, ◌&&◌, ◌||◌, Option, none, some,
  List, [], ◌∷◌, ltb, leb, ◌==◌, if◌then◌else◌, min,
}
use gpu_moses.Outcome.{Outcome, done, fault, uninitialised}
use gpu_moses.Text.{Str}
use gpu_moses.Range.{word}
use gpu_moses.Signed.{ℤ, pos, minus}

-- The digits of `n` in front of `acc`; `n` has fewer digits than `n + 1`.
unfoldable pub digits : ℕ → ℕ → Str → Str
digits zero n acc = acc
digits (suc fuel) n acc =
    let rest = digits fuel (n / 10) ((b'0' + n % 10) ∷ acc) in
    if n / 10 == 0 then (b'0' + n % 10) ∷ acc else rest

unfoldable pub print_size : ℕ → Str
unfolding digits
print_size n = digits (n + 1) n []

abbrev pub is_digit : ℕ → Bool
is_digit c = leb b'0' c && leb c b'9'

abbrev pub is_space : ℕ → Bool
is_space c = c == b' ' || (leb 9 c && leb c 13)

abbrev pub skip_spaces : Str → Str
skip_spaces [] = []
skip_spaces (c ∷ cs) = if is_space c then skip_spaces cs else c ∷ cs

-- The number that the digits in front make, and whether there is one.
abbrev pub number : ℕ → Str → ℕ
number acc [] = acc
number acc (c ∷ cs) = if is_digit c then number (acc * 10 + (c - b'0')) cs else acc

-- A `size_t` with its sign: 0 where there is no digit, the greatest value where the number is too great,
-- and a negative number wraps.
abbrev pub signed_size : Str → ℕ
signed_size [] = 0
signed_size (c ∷ cs) =
    if c == b'-'
    then (if ltb (number 0 cs) word then (word - number 0 cs) % word else word - 1)
    else if c == b'+'
    then min (number 0 cs) (word - 1)
    else min (number 0 (c ∷ cs)) (word - 1)

-- `Scan<size_t>`, which leaves its result unwritten where there is nothing but white space.
unfoldable pub scan_size : Str → Outcome ℕ
scan_size str = elim (skip_spaces str) [
  | [] ↦ fault uninitialised
  | c ∷ cs ↦ done (signed_size (c ∷ cs))
]

-- As many values as an `int` has that are not negative.
abbrev pub int_limit : ℕ
int_limit = 2147483648

abbrev pub signed_int : Str → ℤ
signed_int [] = pos 0
signed_int (c ∷ cs) =
    if c == b'-'
    then minus 0 (min (number 0 cs) int_limit)
    else if c == b'+'
    then pos (min (number 0 cs) (int_limit - 1))
    else pos (min (number 0 (c ∷ cs)) (int_limit - 1))

-- `Scan<int>`, in the same way.
unfoldable pub scan_int : Str → Outcome ℤ
scan_int str = elim (skip_spaces str) [
  | [] ↦ fault uninitialised
  | c ∷ cs ↦ done (signed_int (c ∷ cs))
]
