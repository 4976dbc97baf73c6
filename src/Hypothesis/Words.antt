-- ===== src/Hypothesis/Words.antt =====
-- The words that a hypothesis has translated to, and `GetWord`.
use gpu_moses.Prelude.{
  ℕ, ◌-◌, ◌<◌, ◌≡◌, refl, sym, ◌∙◌, some, List, [], ◌++◌, arith, length, length-append, get_elem?,
  get_elem?-append_left, get_elem?-append_right, lt→ltb, not-ltb, dec_lt, none≢some,
}
use gpu_moses.Outcome.{done}
use gpu_moses.Cuda.Holds.{Holds, read-Holds}
use gpu_moses.Range.{add64, add64-add64, word}
use gpu_moses.Hypothesis.{Hypothesis, initial, extending, Fields, fields, get_word, get_curr_word}

module _ {ℓ} {S : Type ℓ} where
  -- A hypothesis with the target positions that the two `Init` give it, whose phrases put together
  -- are `output`.
  pub data Translates : Hypothesis S → List ℕ → Type ℓ where
    nothing :
        (f : Fields S)
        → Holds f.target_phrase []
        → f.curr_target_words_range ≡ record { start_pos = word - 1; end_pos = word - 1 }
        → Translates (initial f) []
    phrase :
        (f : Fields S) (prev : Hypothesis S) (output ws : List ℕ)
        → Translates prev output
        → Holds f.target_phrase ws
        → f.curr_target_words_range ≡ record {
          start_pos = add64 (fields prev).curr_target_words_range.end_pos 1;
          end_pos = add64 (fields prev).curr_target_words_range.end_pos (length ws);
        }
        → Translates (extending f prev) (output ++ ws)

  -- The last target position is one less than the number of words, and that of the start -1.
  end_pos-Translates :
      {h : Hypothesis S} {output : List ℕ}
      → Translates h output
      → length output < word
      → add64 (fields h).curr_target_words_range.end_pos 1 ≡ length output
  unfolding add64
  end_pos-Translates (nothing f holds e) small = rw e refl
  end_pos-Translates (phrase f prev output ws before holds e) small =
      let old = end_pos-Translates before (omega (arith, length-append output ws)) in
      rw (e, length-append output ws)
        (add64-add64 _ (length ws) (length output) old (omega (arith, length-append output ws)))

  start_pos-Translates :
      (f : Fields S) (prev : Hypothesis S) (output ws : List ℕ)
      → Translates prev output
      → length output < word
      → f.curr_target_words_range ≡ record {
        start_pos = add64 (fields prev).curr_target_words_range.end_pos 1;
        end_pos = add64 (fields prev).curr_target_words_range.end_pos (length ws);
      }
      → f.curr_target_words_range.start_pos ≡ length output
  start_pos-Translates f prev output ws before small e = rw e (end_pos-Translates before small)

  -- `GetWord` of a position in the translation gives the word there, without a trap.
  pub get_word-Translates :
      {h : Hypothesis S} {output : List ℕ} (pos w : ℕ)
      → Translates h output
      → length output < word
      → get_elem? output pos ≡ some w
      → get_word pos h ≡ done w
  unfolding get_word get_curr_word
  get_word-Translates pos w (nothing f holds e) small at = absurd (none≢some w at)
  get_word-Translates pos w (phrase f prev output ws before holds e) small at =
      let small' : length output < word = omega (arith, length-append output ws) in
      let start = start_pos-Translates f prev output ws before small' e in
      elim (dec_lt pos (length output)) [
        | yes left ↦
            rw (start, lt→ltb pos (length output) left)
              (get_word-Translates pos w before small'
                (sym (get_elem?-append_left output ws pos left) ∙ at))
        | no right ↦
            rw (start, not-ltb pos (length output) (omega arith))
              (read-Holds holds (pos - length output) w
                (sym (get_elem?-append_right output ws pos (omega arith)) ∙ at))
      ]
