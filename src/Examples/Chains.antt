-- ===== src/Examples/Chains.antt =====
-- Hypothesis.cu and GetBestHypo on a chain of two hypotheses, which translates to the words 7 8.
use mathlib.Core.Option.{some-injective}
use gpu_moses.Prelude.{
  ℕ, zero, suc, ◌-◌, ◌≤◌, ◌≡◌, ◌↔◌, refl, arith, Bool, true, false, some, List, [], ◌∷◌, ◌++◌, drop,
  ltb, get_elem?, length, none≢some,
}
use mathlib.Core.Path.{subst}
use gpu_moses.Outcome.{done, Returns}
use gpu_moses.Cuda.Buffer.{Buffer}
use gpu_moses.Cuda.Holds.{Holds}
use gpu_moses.Cuda.Sign.{Sign, no_sign}
use gpu_moses.Cuda.Order.{StrictWeakOrder}
use gpu_moses.Range.{word, add64}
use gpu_moses.Bitmap.{Bitmap}
use gpu_moses.Hypothesis.{Hypothesis, initial, extending, Fields, get_word, recombine_compare}
use gpu_moses.Hypothesis.Words.{Translates, nothing, phrase, get_word-Translates}
use gpu_moses.Hypothesis.Recombine.{Key, HasKey, recombine_compare-same}
use gpu_moses.Output.{get_best_hypo}
use gpu_moses.Output.Best.{IsBest}
use gpu_moses.Output.Correct.{get_best_hypo-translation}

abbrev pub bits : Bitmap
bits = record {
  num_words_covered = 1;
  first_gap = 1;
  bits = record { max_size = 2; cells = some true ∷ some false ∷ [] };
}

abbrev pub start_fields : Fields ℕ
start_fields = record {
  path = record { start_pos = 0; end_pos = 0 };
  target_phrase = record { max_size = 0; cells = [] };
  bitmap = bits;
  curr_target_words_range = record { start_pos = word - 1; end_pos = word - 1 };
  scores = 0;
  state_data = record { max_size = 1; cells = some 3 ∷ [] };
}

abbrev pub next_fields : Fields ℕ
next_fields = record {
  path = record { start_pos = 0; end_pos = 0 };
  target_phrase = record { max_size = 2; cells = some 7 ∷ some 8 ∷ [] };
  bitmap = bits;
  curr_target_words_range = record { start_pos = 0; end_pos = 1 };
  scores = 5;
  state_data = record { max_size = 1; cells = some 3 ∷ [] };
}

abbrev pub start : Hypothesis ℕ
start = initial start_fields

abbrev pub next : Hypothesis ℕ
next = extending next_fields start

next-Translates : Translates next (7 ∷ 8 ∷ [])
unfolding add64
next-Translates =
    phrase next_fields start [] (7 ∷ 8 ∷ [])
      (nothing start_fields (record { contents = refl; fits = omega arith }) refl)
      (record { contents = refl; fits = omega arith }) refl

get_word-Translates_example : get_word 1 next ≡ done 8
get_word-Translates_example = get_word-Translates 1 8 next-Translates (omega arith) refl

abbrev key : Key
key = (true ∷ false ∷ [], 3 ∷ [])

start-HasKey : HasKey start key
start-HasKey = record {
  covers = record { contents = refl; fits = omega arith };
  state = record { contents = refl; fits = omega arith };
}

next-HasKey : HasKey next key
next-HasKey = record {
  covers = record { contents = refl; fits = omega arith };
  state = record { contents = refl; fits = omega arith };
}

recombine_compare-same_example :
    (s : Sign) × (recombine_compare start next ≡ done s) × ((s ≡ no_sign) ↔ (key ≡ key))
recombine_compare-same_example = recombine_compare-same start next key key start-HasKey next-HasKey

abbrev greater : ℕ → ℕ → Bool
greater a b = ltb b a

greater-order : StrictWeakOrder greater
greater-order = record {
  irrefl = λ a. ground arith;
  trans = λ a b c p q. ground arith;
  cotrans = λ a b c p q. ground arith;
}

abbrev last_stack : Buffer (Hypothesis ℕ)
last_stack = record { max_size = 2; cells = some next ∷ [] }

abbrev out : Buffer ℕ
out = record { max_size = 3; cells = some 0 ∷ some 0 ∷ some 0 ∷ [] }

translated :
    (k : ℕ) (h : Hypothesis ℕ)
    → get_elem? (next ∷ []) k ≡ some h
    → (output : List ℕ) × Translates h output × (length output ≤ 3)
translated zero h at =
    subst (λ h. (output : List ℕ) × Translates h output × (length output ≤ 3))
      (some-injective next h at) (7 ∷ 8 ∷ [], next-Translates, omega arith)
translated (suc k) h at = absurd (none≢some h at)

get_best_hypo-translation_example :
    Returns
      (λ ids'.
        (best : Hypothesis ℕ) × (output : List ℕ) × IsBest
          (λ s. s)
          greater
          0
          greater-order
          (next ∷ [])
          1
          best
        × Translates best output
        × Holds ids' (output ++ drop (length output) (0 ∷ 0 ∷ 0 ∷ [])))
      (get_best_hypo (λ s. s) greater 0 last_stack out)
get_best_hypo-translation_example =
    get_best_hypo-translation (λ s. s) greater 0 greater-order (next ∷ []) last_stack next
      (0 ∷ 0 ∷ 0 ∷ []) out (record { contents = refl; fits = omega arith })
      (record { contents = refl; fits = omega arith }) refl refl translated
