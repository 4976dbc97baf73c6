-- ===== src/Examples/Decoding.antt =====
-- Manager.cu on an input of five words, with reordering limited to distance 1.
use gpu_moses.Prelude.{◌<◌, ◌≡◌, refl, arith, Bool, true, false, some, none, inl, replicate}
use gpu_moses.Outcome.{done}
use gpu_moses.Cuda.Buffer.{Buffer, read}
use gpu_moses.Range.{Range, not_found}
use gpu_moses.Bitmap.{Bitmap, init, is_complete}
use gpu_moses.Signed.{pos}
use gpu_moses.Manager.{compute_distortion_distance, can_extend}
use gpu_moses.Manager.Reached.{Reached, initial, can_extend_gap, gap_range}
use gpu_moses.Distortion.{range_distance, init_range, range_distance_lem}

abbrev storage : Buffer Bool
storage = record { max_size = 5; cells = replicate 5 none }

abbrev empty_bitmap : Bitmap
empty_bitmap = record {
  num_words_covered = 0;
  first_gap = 0;
  bits = record { max_size = 5; cells = replicate 5 (some false) };
}

init-storage : init storage ≡ done empty_bitmap
unfolding init
init-storage = refl

incomplete : is_complete empty_bitmap ≡ false
unfolding is_complete
incomplete = refl

reached : Reached 1 5 not_found empty_bitmap
reached = initial (record { sized = refl; fits = omega arith }) init-storage

can_extend_gap_example :
    (0 < 5) × (can_extend (pos 1) not_found empty_bitmap (gap_range empty_bitmap) ≡ done true)
can_extend_gap_example =
    can_extend_gap 1 5 (omega arith, omega arith) not_found empty_bitmap reached incomplete

-- Two words are skipped, which is more than the limit.
too_far :
    can_extend (pos 1) not_found empty_bitmap (record { start_pos = 2; end_pos = 2 }) ≡ done false
unfolding can_extend read
too_far = refl

abbrev words_2_3 : Range
words_2_3 = record { start_pos = 2; end_pos = 3 }

range_distance_lem_example :
    range_distance init_range words_2_3 ≡ compute_distortion_distance not_found 2
range_distance_lem_example = range_distance_lem 5 init_range words_2_3 (omega arith) (inl refl)
