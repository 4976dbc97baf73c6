-- ===== src/Examples/Extensions.antt =====
-- Manager.cu with the scores and the distortion feature of the program: a beam of 1, scores of the phrase
-- table and of the distortion, and one byte for a position. ProcessStack on an input of one word.
use mathlib.Core.Path.{subst}
use mathlib.Core.Option.{some-injective}
use gpu_moses.Prelude.{
  ℕ, zero, suc, ◌+◌, ◌-◌, ◌*◌, ◌<◌, ◌≡◌, refl, arith, Bool, true, false, some, none, List, [], ◌∷◌,
  ltb, get_elem?, length, map, none≢some, replicate, length-replicate,
}
use gpu_moses.Outcome.{done, Returns, Returns-at}
use gpu_moses.Text.{Str, codes}
use gpu_moses.Range.{Range, word}
use gpu_moses.Cuda.Buffer.{Buffer, read}
use gpu_moses.Cuda.Holds.{Holds}
use gpu_moses.Cuda.Order.{StrictWeakOrder}
use gpu_moses.Bitmap.Invariant.{IsLength}
use gpu_moses.Distortion.{init_range}
use gpu_moses.Hypothesis.{Hypothesis, initial, Fields, fields, TargetPhrase, init_first}
use gpu_moses.Signed.{pos}
use gpu_moses.Manager.{can_extend}
use gpu_moses.Scores.{Scores}
use gpu_moses.Scores
use gpu_moses.Features.{Feature, distortion}
use gpu_moses.Stack.{Stack}
use gpu_moses.Stack.Entries.{Filled}
use gpu_moses.Search.{extend_all}
use gpu_moses.Process.{Parts}
use gpu_moses.Process.Laws.{IsParts}
use gpu_moses.Process.Extend.{Covers, IsSearch, Extends, NonEmpty}
use gpu_moses.Process.Apply.{init_first-Covers, extend_all-Extends}
use gpu_moses.Decoder.Program.{
  program_parts, IsSound, IsScored, IsDistortion, program_parts-IsParts,
}

abbrev greater : ℕ → ℕ → Bool
greater a b = ltb b a

greater-order : StrictWeakOrder greater
greater-order = record {
  irrefl = λ a. ground arith;
  trans = λ a b c p q. ground arith;
  cotrans = λ a b c p q. ground arith;
}

abbrev pub two_weights : Buffer ℕ
two_weights = record { max_size = 2; cells = some 2 ∷ some 3 ∷ [] }

two_weights-Holds : Holds two_weights (2 ∷ 3 ∷ [])
two_weights-Holds = record { contents = refl; fits = omega arith }

abbrev feature : Feature Str
feature = record {
  class_id = distortion;
  m_name = codes "Distortion0";
  start_ind = 1;
  num_scores = 1;
  state_offset = 0;
  state_size = 1;
}

-- For an input of `n` words.
abbrev allocated : ℕ → Fields (Scores ℕ)
allocated n = record {
  path = init_range;
  target_phrase = record { max_size = 0; cells = [] };
  bitmap = record {
    num_words_covered = 0;
    first_gap = 0;
    bits = record { max_size = n; cells = replicate n none };
  };
  curr_target_words_range = record { start_pos = word - 1; end_pos = word - 1 };
  scores = record { m_scores = record { max_size = 0; cells = [] }; m_total = 0 };
  state_data = record { max_size = 1; cells = none ∷ [] };
}

abbrev position_byte : ℕ → List ℕ
position_byte n = n ∷ []

abbrev pub parts : ℕ → Parts (Scores ℕ) (Scores ℕ)
parts n =
    program_parts 0 ◌+◌ ◌*◌ greater two_weights (λ d. d) position_byte (λ p. []) 3 0 [] 2
      (feature ∷ []) 1 (allocated n)

abbrev pub Sound : ℕ → Hypothesis (Scores ℕ) → Type 0
Sound n =
    IsSound 0 ◌+◌ ◌*◌ greater two_weights (λ d. d) position_byte (λ p. []) 3 0 [] 2 (feature ∷ []) 1
      (allocated n)

abbrev pub Scored : ℕ → Scores ℕ → Type 0
Scored n =
    IsScored 0 ◌+◌ ◌*◌ greater two_weights (λ d. d) position_byte (λ p. []) 3 0 [] 2 (feature ∷ [])
      1 (allocated n)

feature-IsDistortion :
    (n : ℕ)
    → IsDistortion 0 ◌+◌ ◌*◌ greater two_weights
        (λ d. d)
        position_byte
        (λ p. [])
        3
        0
        []
        2
        (feature ∷ [])
        1
        (allocated n)
        feature
feature-IsDistortion n = record {
  is_class = refl;
  one_score = refl;
  score_inside = omega arith;
  state_inside = λ k. omega arith;
}

pub parts-IsParts : (n : ℕ) → IsLength n → IsParts (parts n) (Sound n) (Scored n) n
parts-IsParts n len =
    program_parts-IsParts 0 ◌+◌ ◌*◌ greater two_weights (λ d. d) position_byte (λ p. []) 3 0 [] 2
      (feature ∷ []) 1 (allocated n) (2 ∷ 3 ∷ []) two_weights-Holds refl n greater-order
      (omega arith) (feature-IsDistortion n, tt) len
      (record { sized = length-replicate n none; fits = omega arith })

-- A target phrase with its score, and none for the distortion.
abbrev pub target : List ℕ → ℕ → TargetPhrase (Scores ℕ)
target ids score = record {
  words = record { max_size = length ids; cells = map some ids };
  tp_scores = record {
    m_scores = record { max_size = 2; cells = some score ∷ some 0 ∷ [] };
    m_total = score * 2;
  };
}

pub target-Scored : (n : ℕ) (ids : List ℕ) (score : ℕ) → Scored n (target ids score).tp_scores
target-Scored n ids score = (score ∷ 0 ∷ [], record { contents = refl; fits = omega arith }, refl)

pub one_word-IsParts : IsParts (parts 1) (Sound 1) (Scored 1) 1
one_word-IsParts = parts-IsParts 1 (omega arith, omega arith)

abbrev no_words : Buffer ℕ
no_words = record { max_size = 0; cells = [] }

abbrev empty_stack : Stack (Hypothesis (Scores ℕ))
empty_stack = record { m_coll = record { max_size = 2; cells = [] }; m_tolerance = 2; freed = [] }

abbrev two_stacks : List (Stack (Hypothesis (Scores ℕ)))
two_stacks = empty_stack ∷ empty_stack ∷ []

module _ {κ} (P : Hypothesis (Scores ℕ) → Type κ) where
  empty_stack-Filled :
      (s : Stack (Hypothesis (Scores ℕ)))
      → empty_stack ≡ s
      → (xs : List (Hypothesis (Scores ℕ))) × Filled
          (parts 1).recomb
          (parts 1).better
          (parts 1).stack_size
          P
          s
          xs
  empty_stack-Filled s e =
      subst
        (λ s.
          (xs : List (Hypothesis (Scores ℕ))) × Filled (parts 1).recomb (parts 1).better
            (parts 1).stack_size P s xs)
        e
        (
          [],
          record {
            is_stack = record {
              holds = record { contents = refl; fits = omega arith };
              sorted = tt;
              tolerance = refl;
              capacity = refl;
            };
            all = tt;
          },
        )

two_stacks-IsSearch : IsSearch (parts 1) (Sound 1) (Scored 1) 6 1 two_stacks
two_stacks-IsSearch = record { many = refl; each = stack_of }
  where
    stack_of :
        (j : ℕ) (s : Stack (Hypothesis (Scores ℕ)))
        → get_elem? two_stacks j ≡ some s
        → (xs : List (Hypothesis (Scores ℕ))) × Filled
            (parts 1).recomb
            (parts 1).better
            (parts 1).stack_size
            (Covers (parts 1) (Sound 1) (Scored 1) 6 1 j)
            s
            xs
    stack_of zero s at = empty_stack-Filled _ s (some-injective empty_stack s at)
    stack_of (suc zero) s at = empty_stack-Filled _ s (some-injective empty_stack s at)
    stack_of (suc (suc j)) s at = absurd (none≢some s at)

abbrev first_hypo : Hypothesis (Scores ℕ)
first_hypo = initial (record (allocated 1) {
  bitmap = record {
    num_words_covered = 0;
    first_gap = 0;
    bits = record { max_size = 1; cells = some false ∷ [] };
  };
  scores = record { m_scores = record { max_size = 2; cells = some 0 ∷ some 0 ∷ [] }; m_total = 0 };
})

first_hypo-Covers : Covers (parts 1) (Sound 1) (Scored 1) 6 1 0 first_hypo
unfolding init_first Scores.new
first_hypo-Covers =
    Returns-at first_hypo
      (init_first-Covers (parts 1) (Sound 1) (Scored 1) 6 1 one_word-IsParts no_words) refl

abbrev the_word : Range
the_word = record { start_pos = 0; end_pos = 0 }

extendable :
    can_extend (pos 6) (fields first_hypo).path.end_pos (fields first_hypo).bitmap the_word
    ≡ done true
unfolding can_extend read
extendable = refl

extend_all-Extends_example :
    Returns
      (λ stacks'.
        Extends (parts 1) (Sound 1) (Scored 1) 6 1 0 two_stacks stacks'
        × (0 < 2 → (j : ℕ) × (0 < j) × NonEmpty (parts 1) (Sound 1) (Scored 1) 6 1 j stacks'))
      (extend_all
        (parts 1).add_phrase_scores
        (parts 1).add_scores
        (parts 1).evaluate_when_applied
        (parts 1).recomb
        (parts 1).better
        (parts 1).stack_size
        (parts 1).allocated
        (target (1 ∷ []) 3 ∷ target (2 ∷ []) 4 ∷ [])
        first_hypo
        the_word
        two_stacks)
extend_all-Extends_example =
    extend_all-Extends (parts 1) (Sound 1) (Scored 1) 6 1 one_word-IsParts 0 first_hypo the_word
      (target (1 ∷ []) 3 ∷ target (2 ∷ []) 4 ∷ []) two_stacks first_hypo-Covers
      (target-Scored 1 (1 ∷ []) 3, (target-Scored 1 (2 ∷ []) 4, tt))
      (record { ordered = omega arith; inside = omega arith }) extendable two_stacks-IsSearch
