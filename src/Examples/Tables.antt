-- ===== src/Examples/Tables.antt =====
-- PhraseTableMemory.cu: a file of three lines, with whole numbers for floats.
use gpu_moses.Prelude.{
  ℕ, ◌+◌, ◌*◌, ◌≡◌, refl, arith, some, none, List, [], ◌∷◌, take, drop, length, map,
}
use gpu_moses.Outcome.{done, Returns}
use gpu_moses.Text.{Str, codes, find_str, substr, find_from, after_last, distance}
use gpu_moses.Util.{tokenize_multi_char_separator, tokenize_into, trim}
use gpu_moses.Decimal.{signed_size, skip_spaces}
use gpu_moses.Cuda.Buffer.{Buffer}
use gpu_moses.Cuda.Holds.{Holds}
use gpu_moses.Vocab.{Vocab}
use gpu_moses.Node.{new_node}
use gpu_moses.Hypothesis.{TargetPhrase}
use gpu_moses.Scores.{Scores}
use gpu_moses.Features.{Feature, phrase_dictionary_memory}
use gpu_moses.PhraseTable.{lookup_phrases, load, read_target, ids_of_string}
use gpu_moses.PhraseTable.Spec.{targets, Held}
use gpu_moses.PhraseTable.Load.{read_lines, load-lookup_phrases}

abbrev pub empty : Vocab Str
empty = record { coll = []; coll_inv = [] }

abbrev pub table : Feature Str
table = record {
  class_id = phrase_dictionary_memory;
  m_name = codes "TranslationModel0";
  start_ind = 0;
  num_scores = 1;
  state_offset = 0;
  state_size = 0;
}

abbrev pub weights : Buffer ℕ
weights = record { max_size = 1; cells = some 2 ∷ [] }

abbrev lines : List Str
lines =
    codes "das haus ||| the house ||| 5"
    ∷ codes "das ||| the ||| 3"
    ∷ codes "das ||| this ||| 4"
    ∷ []

-- A whole number as a score.
abbrev pub number_of : Str → ℕ
number_of str = signed_size (skip_spaces str)

abbrev pub same : ℕ → ℕ
same n = n

abbrev pub target : List ℕ → ℕ → TargetPhrase (Scores ℕ)
target ids score = record {
  words = record { max_size = length ids; cells = map some ids };
  tp_scores = record {
    m_scores = record { max_size = 1; cells = some score ∷ [] };
    m_total = score * 2;
  };
}

abbrev entries : List (List ℕ × TargetPhrase (Scores ℕ))
entries =
    (0 ∷ 1 ∷ [], target (2 ∷ 3 ∷ []) 5)
    ∷ (0 ∷ [], target (2 ∷ []) 3)
    ∷ (0 ∷ [], target (4 ∷ []) 4)
    ∷ []

abbrev pub known : Vocab Str
known = record {
  coll = codes "das" ∷ codes "haus" ∷ codes "the" ∷ codes "house" ∷ codes "this" ∷ [];
  coll_inv =
      (codes "this", 4)
      ∷ (codes "house", 3)
      ∷ (codes "the", 2)
      ∷ (codes "haus", 1)
      ∷ (codes "das", 0)
      ∷ [];
}

lines_read :
    read_lines 0 ◌+◌ ◌*◌ number_of same same same weights [] table 1 lines empty
    ≡ done (entries, known)
unfolding read_lines tokenize_multi_char_separator find_str substr ids_of_string tokenize_into trim
    find_from after_last distance read_target
lines_read = refl

abbrev input : Buffer ℕ
input = record { max_size = 2; cells = some 0 ∷ some 1 ∷ [] }

input-Holds : Holds input (0 ∷ 1 ∷ [])
input-Holds = record { contents = refl; fits = omega arith }

load-lookup_phrases_example :
    Returns
      (λ r.
        Returns
          (λ tps. Held tps (targets (take 1 (drop 0 (0 ∷ 1 ∷ []))) entries))
          (lookup_phrases input 0 0 r.0))
      (load 0 ◌+◌ ◌*◌ number_of same same same weights [] table 1 lines empty (new_node none ∷ []))
load-lookup_phrases_example =
    load-lookup_phrases 0 ◌+◌ ◌*◌ number_of same same same weights [] table 1 lines empty known
      entries input (0 ∷ 1 ∷ []) 0 0 lines_read input-Holds (omega arith) (omega arith)

-- The second line has no target.
abbrev broken : List Str
broken = codes "das ||| the ||| 3" ∷ codes "haus" ∷ []
