-- ===== src/Bitmap.antt =====
-- Bitmap.h and Bitmap.cu: which words of the input a hypothesis has translated. A value is made by one of
-- the two `Init`s, from the storage that the constructor allocated.
pub mod Cover
pub mod Loops
pub mod Invariant
use gpu_moses.Prelude.{
  ℕ, zero, suc, ◌+◌, ◌-◌, Bool, true, false, not, ltb, leb, ◌==◌, if◌then◌else◌,
}
use gpu_moses.Outcome.{Outcome, done, ◌>>=◌}
use gpu_moses.Range.{Range, add64, get_num_words_covered, not_found}
use gpu_moses.Cuda.Buffer.{Buffer, size, read, write}
use gpu_moses.Cuda.Compare.{compare}
use gpu_moses.Cuda.Sign.{Sign}

pub record Bitmap : Type 0 where
  pub num_words_covered : ℕ
  -- The position of the first gap, or NOT_FOUND_DEVICE.
  pub first_gap : ℕ
  pub bits : Buffer Bool

-- `for (i = 0; i < size; ++i) m_bitmap[i] = false`, with `rounds` of them left.
unfoldable pub reset_loop : ℕ → ℕ → Buffer Bool → Outcome (Buffer Bool)
reset_loop zero i bits = done bits
reset_loop (suc rounds) i bits = do bits' ← write bits i false; reset_loop rounds (i + 1) bits'

-- `Init()`.
unfoldable pub init : Buffer Bool → Outcome Bitmap
unfolding reset_loop write
init m_bitmap = do
  bits ← reset_loop (size m_bitmap) 0 m_bitmap
  done (record { num_words_covered = 0; first_gap = 0; bits = bits })

-- `m_bitmap[i] = copy.m_bitmap[i]`.
unfoldable pub copy_loop : ℕ → ℕ → Buffer Bool → Buffer Bool → Outcome (Buffer Bool)
copy_loop zero i copy bits = done bits
copy_loop (suc rounds) i copy bits = do
  val ← read copy i
  bits' ← write bits i val
  copy_loop rounds (i + 1) copy bits'

-- The first loop of `SetValueNonOverlap`: it marks the words of the range, and notes whether the
-- first gap is one of them.
unfoldable pub mark_loop : ℕ → ℕ → ℕ → Bool → Buffer Bool → Outcome (Bool × Buffer Bool)
mark_loop zero pos first_gap update_1st_gap bits = done (update_1st_gap, bits)
mark_loop (suc rounds) pos first_gap update_1st_gap bits = do
  bits' ← write bits pos true
  mark_loop rounds (pos + 1) first_gap (if pos == first_gap then true else update_1st_gap) bits'

-- The second loop: the first position from `pos` on that is not covered.
unfoldable pub gap_loop : ℕ → ℕ → Buffer Bool → Outcome ℕ
gap_loop zero pos bits = done not_found
gap_loop (suc rounds) pos bits = do
  val ← read bits pos
  elim val [ false ↦ done pos | true ↦ gap_loop rounds (pos + 1) bits ]

unfoldable pub set_value_non_overlap : Range → Bitmap → Outcome Bitmap
unfolding mark_loop gap_loop
set_value_non_overlap range bm = do
  (update_1st_gap, bits) ←
      mark_loop (range.end_pos + 1 - range.start_pos) range.start_pos bm.first_gap false bm.bits
  let covered = add64 bm.num_words_covered (get_num_words_covered range)
  gap ←
      (if update_1st_gap
        then gap_loop (size bits - (range.end_pos + 1)) (range.end_pos + 1) bits
        else done bm.first_gap)
  done (record { num_words_covered = covered; first_gap = gap; bits = bits })

-- `Init(copy, range)`.
unfoldable pub init_from : Buffer Bool → Bitmap → Range → Outcome Bitmap
unfolding copy_loop set_value_non_overlap
init_from m_bitmap copy range = do
  bits ← copy_loop (size m_bitmap) 0 copy.bits m_bitmap
  set_value_non_overlap range (record {
    num_words_covered = copy.num_words_covered;
    first_gap = copy.first_gap;
    bits = bits;
  })

unfoldable pub is_complete : Bitmap → Bool
is_complete bm = size bm.bits == bm.num_words_covered

unfoldable pub overlap_loop : ℕ → ℕ → Buffer Bool → Outcome Bool
overlap_loop zero pos bits = done false
overlap_loop (suc rounds) pos bits = do
  val ← read bits pos
  elim val [ true ↦ done true | false ↦ overlap_loop rounds (pos + 1) bits ]

unfoldable pub overlap : Range → Bitmap → Outcome Bool
unfolding overlap_loop
overlap range bm = overlap_loop (range.end_pos + 1 - range.start_pos) range.start_pos bm.bits

-- `<` on `bool`.
abbrev pub bit_lt : Bool → Bool → Bool
bit_lt false true = true
bit_lt false false = false
bit_lt true b = false

unfoldable pub compare_bitmaps : Bitmap → Bitmap → Outcome Sign
compare_bitmaps bm other = compare bit_lt bm.bits other.bits
