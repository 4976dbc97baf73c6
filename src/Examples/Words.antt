-- ===== src/Examples/Words.antt =====
-- MyVocab.cpp, with numbers for the strings: a vocabulary that starts empty.
use gpu_moses.Prelude.{ℕ, ◌≡◌, [], ◌∷◌, none≢some, ==_iff, ◌==◌}
use gpu_moses.Outcome.{done}
use gpu_moses.Vocab.{Vocab, get_or_create_ids}
use gpu_moses.Vocab.Roundtrip.{IsVocab, Keeps, get_strings, get_strings-get_or_create_ids}

abbrev empty : Vocab ℕ
empty = record { coll = []; coll_inv = [] }

empty-IsVocab : IsVocab ◌==◌ ==_iff empty
empty-IsVocab str id = ((λ e. absurd (none≢some id e)), (λ e. absurd (none≢some str e)))

get_strings-get_or_create_ids_example :
    IsVocab ◌==◌ ==_iff (get_or_create_ids ◌==◌ (40 ∷ 50 ∷ 40 ∷ []) empty).1
    × Keeps ◌==◌ ==_iff empty (get_or_create_ids ◌==◌ (40 ∷ 50 ∷ 40 ∷ []) empty).1
    × (get_strings
          (get_or_create_ids ◌==◌ (40 ∷ 50 ∷ 40 ∷ []) empty).0
          (get_or_create_ids ◌==◌ (40 ∷ 50 ∷ 40 ∷ []) empty).1
        ≡ done (40 ∷ 50 ∷ 40 ∷ []))
get_strings-get_or_create_ids_example =
    get_strings-get_or_create_ids ◌==◌ ==_iff (40 ∷ 50 ∷ 40 ∷ []) empty empty-IsVocab
