-- ===== src/Range.antt =====
-- Range.h, and the machine types that it rests on: `size_t` is a number below 2 ^ 64, with its wrap.
use gpu_moses.Prelude.{ℕ, ◌+◌, ◌-◌, ◌%◌, ◌≤◌, ◌<◌, ◌≡◌, arith, ◌==◌, if◌then◌else◌}

abbrev pub word : ℕ
word = 0x1_0000_0000_0000_0000

unfoldable pub add64 : ℕ → ℕ → ℕ
add64 a b = (a + b) % word

-- A sum that is below 2 ^ 64 may go by way of one that wraps.
pub add64-add64 : (e l n : ℕ) → add64 e 1 ≡ n → n + l < word → add64 (add64 e l) 1 ≡ n + l
unfolding add64
add64-add64 e l n h small = omega arith

unfoldable pub sub64 : ℕ → ℕ → ℕ
sub64 a b = (a + word - b) % word

-- NOT_FOUND_DEVICE of TypeDef.h.
abbrev pub not_found : ℕ
not_found = 123456789

-- `end_pos` is inclusive.
pub record Range : Type 0 where
  pub start_pos : ℕ
  pub end_pos : ℕ

unfoldable pub get_num_words_covered : Range → ℕ
unfolding add64 sub64
get_num_words_covered r =
    if r.start_pos == not_found then 0 else add64 (sub64 r.end_pos r.start_pos) 1

-- A range of the input: in order, and below `n`, the number of words.
pub record IsRange (n : ℕ) (r : Range) : Type 0 where
  pub ordered : r.start_pos ≤ r.end_pos
  pub inside : r.end_pos < n

-- The words of a range are counted without a wrap.
pub get_num_words_covered_lem :
    (n : ℕ) (r : Range)
    → n ≤ not_found
    → IsRange n r
    → get_num_words_covered r + r.start_pos ≡ r.end_pos + 1
unfolding get_num_words_covered
get_num_words_covered_lem n r small v = ground arith
