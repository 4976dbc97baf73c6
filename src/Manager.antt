-- ===== src/Manager.antt =====
-- Manager.cu: the table of input paths, and which extensions of a hypothesis `ProcessStack` makes.
pub mod Paths
pub mod Reorder
pub mod Reached
use gpu_moses.Prelude.{ℕ, ◌+◌, ◌*◌, Bool, true, false, not, ltb, ◌==◌, ◌&&◌, if◌then◌else◌}
use gpu_moses.Outcome.{Outcome, done, ◌>>=◌}
use gpu_moses.Range.{Range, not_found}
use gpu_moses.Bitmap.{Bitmap, overlap}
use gpu_moses.Signed.{ℤ, pos, abs, plus_one, minus, is_negative, exceeds}

unfoldable pub range_to_ind : ℕ → ℕ → ℕ → ℕ
range_to_ind input_size start end = start * input_size + end

unfoldable pub compute_distortion_distance : ℕ → ℕ → ℕ
compute_distortion_distance prev_end_pos curr_start_pos = abs (
    if prev_end_pos == not_found
    then pos curr_start_pos
    else plus_one (minus prev_end_pos curr_start_pos))

-- From the test of the coverage to CAN EXTEND. `prev_end_pos` is `prevHypo.path->range.endPos`, and
-- the answer `false` is a `return`.
unfoldable pub can_extend : ℤ → ℕ → Bitmap → Range → Outcome Bool
unfolding compute_distortion_distance overlap
can_extend max_distortion prev_end_pos prev_bm range = do
  covered ← overlap range prev_bm
  done (
      if covered
      then false
      else if not (is_negative max_distortion)
          && exceeds (compute_distortion_distance prev_end_pos range.start_pos) max_distortion
      then false
      else if prev_bm.first_gap == range.start_pos
      then true
      else if is_negative max_distortion
      then true
      else not
          (exceeds (compute_distortion_distance range.end_pos prev_bm.first_gap) max_distortion))
