-- ===== src/Distortion.antt =====
-- FF/Distortion.cu: the distance that the distortion feature scores.
use gpu_moses.Prelude.{ℕ, ◌≤◌, ◌≡◌, ◌≢◌, refl, ◌⊎◌, inl, inr, arith, ◌==◌, if◌then◌else◌, not-==}
use gpu_moses.Range.{Range, IsRange, not_found, get_num_words_covered, get_num_words_covered_lem}
use gpu_moses.Signed.{pos, abs, plus_one, minus}
use gpu_moses.Manager.{compute_distortion_distance}

-- `Distortion::ComputeDistortionDistance`.
unfoldable pub range_distance : Range → Range → ℕ
unfolding get_num_words_covered
range_distance prev current = abs (
    if get_num_words_covered prev == 0
    then pos current.start_pos
    else plus_one (minus prev.end_pos current.start_pos))

-- The range of `initPath`, which the constructor of `InputPath` makes.
abbrev pub init_range : Range
init_range = record { start_pos = not_found; end_pos = not_found }

-- For a previous range that is the initial one, or one of the input, the feature's distance is the one
-- that the limit on reordering is about.
pub range_distance_lem :
    (n : ℕ) (prev current : Range)
    → n ≤ not_found
    → (prev ≡ init_range) ⊎ IsRange n prev
    → range_distance prev current ≡ compute_distortion_distance prev.end_pos current.start_pos
unfolding range_distance compute_distortion_distance
range_distance_lem n prev current small (inl e) = rw e refl
range_distance_lem n prev current small (inr range) =
    let words : get_num_words_covered prev ≢ 0 =
      λ none. absurd (omega (arith, get_num_words_covered_lem n prev small range, range.ordered)) in
    rw
      (
        not-== (get_num_words_covered prev) 0 words,
        not-== prev.end_pos not_found (λ e. absurd (omega (arith, range.inside))),
      )
      refl
