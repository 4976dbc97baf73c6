-- ===== src/Hypothesis.antt =====
-- Hypothesis.h and Hypothesis.cu: a partial translation, linked to the one that it extends.
pub mod Words
pub mod Recombine
use gpu_moses.Prelude.{ℕ, ◌+◌, ◌-◌, Bool, true, false, Option, none, some, ltb, if◌then◌else◌}
use gpu_moses.Outcome.{Outcome, done, fault, trap, ◌>>=◌}
use gpu_moses.Range.{Range, add64, word}
use gpu_moses.Bitmap.{Bitmap, init, init_from, compare_bitmaps}
use gpu_moses.Cuda.Buffer.{Buffer, size, read}
use gpu_moses.Cuda.Compare.{compare}
use gpu_moses.Cuda.Sign.{Sign, minus_one, no_sign, plus_one, is_minus}

-- `S` is the type of the scores. The bytes of the state are numbers.
pub record Fields {ℓ} (S : Type ℓ) : Type ℓ where
  pub path : Range
  pub target_phrase : Buffer ℕ
  pub bitmap : Bitmap
  pub curr_target_words_range : Range
  pub scores : S
  pub state_data : Buffer ℕ

-- `prevHypo` is NULL, or points to a hypothesis that nothing writes to any more.
pub data Hypothesis {ℓ} (S : Type ℓ) : Type ℓ where
  initial : Fields S → Hypothesis S
  extending : Fields S → Hypothesis S → Hypothesis S

-- A target phrase and its scores.
pub record TargetPhrase {ℓ} (T : Type ℓ) : Type ℓ where
  pub words : Buffer ℕ
  pub tp_scores : T

module _ {ℓ} {S : Type ℓ} where
  abbrev pub fields : Hypothesis S → Fields S
  fields (initial f) = f
  fields (extending f prev) = f

  abbrev pub prev_hypo : Hypothesis S → Option (Hypothesis S)
  prev_hypo (initial f) = none
  prev_hypo (extending f prev) = some prev

  -- `Init(mgr)` on what the constructor has allocated. -1 becomes the greatest `size_t`.
  unfoldable pub init_first : Range → Buffer ℕ → Fields S → Outcome (Hypothesis S)
  unfolding init
  init_first init_path init_phrase f = do
    bitmap ← init f.bitmap.bits
    done (
        initial (record f {
          path = init_path;
          target_phrase = init_phrase;
          bitmap = bitmap;
          curr_target_words_range = record { start_pos = word - 1; end_pos = word - 1 };
        }))

  -- `Init(mgr, prevHypo, tp, path)`. The two `PlusEqual` and the features are parameters.
  unfoldable pub init_extension {κ} :
      {T : Type κ}
      → (S → T → Outcome S)
      → (S → S → Outcome S)
      → (Hypothesis S → Outcome (Hypothesis S))
      → Hypothesis S
      → TargetPhrase T
      → Range
      → Fields S
      → Outcome (Hypothesis S)
  unfolding init_from add64
  init_extension add_phrase_scores add_scores evaluate_when_applied prev tp path f = do
    bitmap ← init_from f.bitmap.bits (fields prev).bitmap path
    let prev_end = (fields prev).curr_target_words_range.end_pos
    scores ← add_phrase_scores f.scores tp.tp_scores
    scores' ← add_scores scores (fields prev).scores
    evaluate_when_applied (
        extending
          (record f {
            path = path;
            target_phrase = tp.words;
            bitmap = bitmap;
            curr_target_words_range = record {
              start_pos = add64 prev_end 1;
              end_pos = add64 prev_end (size tp.words);
            };
            scores = scores';
          })
          prev)

  unfoldable pub get_curr_word : ℕ → Fields S → Outcome ℕ
  unfolding read
  get_curr_word pos f = read f.target_phrase pos

  unfoldable pub get_word : ℕ → Hypothesis S → Outcome ℕ
  unfolding get_curr_word
  get_word pos (initial f) =
      if ltb pos f.curr_target_words_range.start_pos
      then fault trap
      else get_curr_word (pos - f.curr_target_words_range.start_pos) f
  get_word pos (extending f prev) =
      let before = get_word pos prev in
      if ltb pos f.curr_target_words_range.start_pos
      then before
      else get_curr_word (pos - f.curr_target_words_range.start_pos) f

  unfoldable pub recombine_compare : Hypothesis S → Hypothesis S → Outcome Sign
  unfolding compare_bitmaps
  recombine_compare this other = do
    comp ← compare_bitmaps (fields this).bitmap (fields other).bitmap
    elim comp [
      | no_sign ↦ compare ltb (fields this).state_data (fields other).state_data
      | minus_one ↦ done minus_one
      | plus_one ↦ done plus_one
    ]

  -- `HypothesisRecombinationOrderer`.
  unfoldable pub recombination_orderer : Hypothesis S → Hypothesis S → Outcome Bool
  unfolding recombine_compare
  recombination_orderer a b = do comp ← recombine_compare a b; done (is_minus comp)
