-- ===== src/Examples/Coverage.antt =====
-- Bitmap.cu on an input of five words.
use gpu_moses.Prelude.{
  ℕ, zero, suc, ◌<◌, get_elem?, ◌≡◌, refl, arith, Bool, true, false, some, none, List, [], ◌∷◌, inl,
  replicate,
}
use gpu_moses.Outcome.{Returns}
use gpu_moses.Cuda.Buffer.{Buffer}
use gpu_moses.Range.{Range, IsRange}
use gpu_moses.Bitmap.{Bitmap, init_from, overlap}
use gpu_moses.Bitmap.Cover.{IsFree}
use gpu_moses.Bitmap.Loops.{OverlapIs}
use gpu_moses.Bitmap.Invariant.{IsValid, IsStorage, init_from-IsValid, overlap-OverlapIs}

abbrev storage : Buffer Bool
storage = record { max_size = 5; cells = replicate 5 none }

storage-IsStorage : IsStorage 5 storage
storage-IsStorage = record { sized = refl; fits = omega arith }

abbrev words_2_3 : Range
words_2_3 = record { start_pos = 2; end_pos = 3 }

words_2_3-IsRange : IsRange 5 words_2_3
words_2_3-IsRange = record { ordered = omega arith; inside = omega arith }

-- The bitmap that covers the first word.
abbrev covered_0 : List Bool
covered_0 = true ∷ false ∷ false ∷ false ∷ false ∷ []

abbrev bitmap_0 : Bitmap
bitmap_0 = record {
  num_words_covered = 1;
  first_gap = 1;
  bits = record {
    max_size = 5;
    cells = some true ∷ some false ∷ some false ∷ some false ∷ some false ∷ [];
  };
}

bitmap_0-IsValid : IsValid covered_0 bitmap_0
bitmap_0-IsValid = record {
  holds = record { contents = refl; fits = omega arith };
  counted = refl;
  gap = inl (refl, first_only);
}
  where
    first_only : (j : ℕ) → j < 1 → get_elem? covered_0 j ≡ some true
    first_only zero less = refl
    first_only (suc j) less = absurd (omega arith)

IsFree-words_2_3 : IsFree 2 2 covered_0
IsFree-words_2_3 zero h k = absurd (omega arith)
IsFree-words_2_3 (suc zero) h k = absurd (omega arith)
IsFree-words_2_3 (suc (suc zero)) h k = refl
IsFree-words_2_3 (suc (suc (suc zero))) h k = refl
IsFree-words_2_3 (suc (suc (suc (suc j)))) h k = absurd (omega arith)

init_from-IsValid_example :
    Returns
      (IsValid (true ∷ false ∷ true ∷ true ∷ false ∷ []))
      (init_from storage bitmap_0 words_2_3)
init_from-IsValid_example =
    init_from-IsValid 5 words_2_3 covered_0 (omega arith, omega arith) words_2_3-IsRange refl
      storage bitmap_0 storage-IsStorage bitmap_0-IsValid IsFree-words_2_3

overlap-OverlapIs_example : Returns (OverlapIs 2 2 covered_0) (overlap words_2_3 bitmap_0)
overlap-OverlapIs_example =
    overlap-OverlapIs 5 words_2_3 covered_0 (omega arith, omega arith) words_2_3-IsRange refl
      bitmap_0 bitmap_0-IsValid
