-- ===== src/Vocab.antt =====
-- MyVocab.cpp: the words and their ids. `W` is the type of strings, and `same` their `==`.
pub mod Roundtrip
use gpu_moses.Prelude.{
  ℕ, Bool, Option, none, some, List, [], ◌∷◌, ◌++◌, length, get_elem?, if◌then◌else◌,
}
use gpu_moses.Outcome.{Outcome, assertion, or_fault}

-- `m_coll` and `m_collInv`.
pub record Vocab {ℓ} (W : Type ℓ) : Type ℓ where
  pub coll : List W
  pub coll_inv : List (W × ℕ)

module _ {ℓ} {W : Type ℓ} (same : W → W → Bool) where
  -- `m_collInv.find`.
  abbrev pub find_id : W → List (W × ℕ) → Option ℕ
  find_id str [] = none
  find_id str ((key, id) ∷ rest) = if same str key then some id else find_id str rest

  unfoldable pub get_or_create_id : W → Vocab W → ℕ × Vocab W
  get_or_create_id str vocab = elim (find_id str vocab.coll_inv) [
    | some id ↦ (id, vocab)
    | none ↦ (
      length vocab.coll,
      record {
        coll = vocab.coll ++ str ∷ [];
        coll_inv = (str, length vocab.coll) ∷ vocab.coll_inv;
      },
    )
  ]

  -- `GetOrCreateIds` on the tokens of the string.
  unfoldable pub get_or_create_ids : List W → Vocab W → List ℕ × Vocab W
  unfolding get_or_create_id
  get_or_create_ids [] vocab = ([], vocab)
  get_or_create_ids (str ∷ toks) vocab =
      let (id, vocab') = get_or_create_id str vocab in
      let (ids, vocab'') = get_or_create_ids toks vocab' in (id ∷ ids, vocab'')

unfoldable pub get_string {ℓ} : {W : Type ℓ} → ℕ → Vocab W → Outcome W
get_string id vocab = or_fault (get_elem? vocab.coll id) assertion
