-- ===== src/Process/Laws.antt =====
-- What is asked of the parts of the decoder, for an input of `n` words: `Sound` is what holds of every
-- hypothesis that is made, and `Fits` what holds of the scores of every target phrase.
use gpu_moses.Prelude.{ℕ, ◌<◌, ◌≡◌}
use gpu_moses.Outcome.{done, Returns}
use gpu_moses.Range.{Range}
use gpu_moses.Cuda.Buffer.{Buffer}
use gpu_moses.Cuda.Order.{StrictWeakOrder}
use gpu_moses.Bitmap.{Bitmap, init_from}
use gpu_moses.Bitmap.Invariant.{IsLength, IsStorage}
use gpu_moses.Distortion.{init_range}
use gpu_moses.Hypothesis.{Hypothesis, fields, TargetPhrase, init_first, init_extension}
use gpu_moses.Process.{Parts}

-- The first hypothesis is sound. An extension of a sound hypothesis by a phrase that fits, once its coverage
-- is made, ends without a fault; it is sound, and the features have left the coverage and the path alone.
pub record IsParts {ℓ κ} {S : Type ℓ} {T : Type κ} (parts : Parts S T)
    (Sound : Hypothesis S → Type ℓ) (Fits : T → Type κ) (n : ℕ) : Type (ℓ ⊔ κ) where
  pub recomb_order : StrictWeakOrder parts.recomb
  pub better_order : StrictWeakOrder parts.better
  pub positive : 0 < parts.stack_size
  pub first :
      (init_phrase : Buffer ℕ) → Returns Sound (init_first init_range init_phrase parts.allocated)
  pub extension :
      (prev : Hypothesis S) (tp : TargetPhrase T) (path : Range) (bitmap : Bitmap)
      → Sound prev
      → Fits tp.tp_scores
      → init_from parts.allocated.bitmap.bits (fields prev).bitmap path ≡ done bitmap
      → Returns
          (λ h. Sound h × ((fields h).bitmap ≡ bitmap) × ((fields h).path ≡ path))
          (init_extension parts.add_phrase_scores parts.add_scores parts.evaluate_when_applied prev
            tp path parts.allocated)
  pub len : IsLength n
  pub storage : IsStorage n parts.allocated.bitmap.bits
