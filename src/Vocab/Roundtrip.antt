-- ===== src/Vocab/Roundtrip.antt =====
-- Ids and strings: what `GetOrCreateIds` returns, `GetString` turns back.
use mathlib.Core.Option.{some-injective}
use mathlib.Core.Path.{subst}
use gpu_moses.Prelude.{
  ℕ, ◌-◌, ◌≡◌, ◌↔◌, refl, sym, ap, ◌∙◌, Bool, true, Option, none, some, List, [], ◌∷◌, ◌++◌, arith,
  length, get_elem?, get_elem?_lt, get_elem?-append_left, get_elem?-append_right, if◌then◌else◌,
  Bool-cases, inl, inr, none≢some, dec_lt,
}
use gpu_moses.Outcome.{Outcome, done, ◌>>=◌}
use gpu_moses.Vocab.{Vocab, find_id, get_or_create_id, get_or_create_ids, get_string}

-- The strings of a list of ids.
abbrev pub get_strings {ℓ} : {W : Type ℓ} → List ℕ → Vocab W → Outcome (List W)
get_strings [] vocab = done []
get_strings (id ∷ ids) vocab = do
  str ← get_string id vocab
  strs ← get_strings ids vocab
  done (str ∷ strs)

module _ {ℓ} {W : Type ℓ} (same : W → W → Bool)
    (same_iff : (a b : W) → (same a b ≡ true) ↔ (a ≡ b)) where
  -- The two collections say the same: a string has the id of its place.
  abbrev pub IsVocab : Vocab W → Type ℓ
  IsVocab vocab =
      (str : W) (id : ℕ)
      → (find_id same str vocab.coll_inv ≡ some id) ↔ (get_elem? vocab.coll id ≡ some str)

  -- Strings keep their ids.
  abbrev pub Keeps : Vocab W → Vocab W → Type ℓ
  Keeps vocab vocab' =
      (str : W) (id : ℕ) → get_elem? vocab.coll id ≡ some str → get_elem? vocab'.coll id ≡ some str

  -- What a new string does to both.
  abbrev grown : W → Vocab W → Vocab W
  grown str vocab = record {
    coll = vocab.coll ++ str ∷ [];
    coll_inv = (str, length vocab.coll) ∷ vocab.coll_inv;
  }

  grown-Keeps : (str : W) (vocab : Vocab W) → Keeps vocab (grown str vocab)
  grown-Keeps str vocab s id at =
      get_elem?-append_left vocab.coll (str ∷ []) id (get_elem?_lt vocab.coll id s at) ∙ at

  grown_last :
      (str : W) (vocab : Vocab W)
      → get_elem? (vocab.coll ++ str ∷ []) (length vocab.coll) ≡ some str
  grown_last str vocab =
      get_elem?-append_right vocab.coll (str ∷ []) (length vocab.coll) (omega arith)
      ∙ ap (get_elem? (str ∷ [])) {y = 0} (omega arith)

  grown-IsVocab :
      (str : W) (vocab : Vocab W)
      → IsVocab vocab
      → find_id same str vocab.coll_inv ≡ none
      → IsVocab (grown str vocab)
  grown-IsVocab str vocab is new s id = (forth, back)
    where
      forth :
          (if same s str then some (length vocab.coll) else find_id same s vocab.coll_inv) ≡ some id
          → get_elem? (vocab.coll ++ str ∷ []) id ≡ some s
      forth e = elim (Bool-cases (same s str)) [
        | inl hit ↦
            let place : length vocab.coll ≡ id =
              some-injective (length vocab.coll) id (rw hit at e) in
            let equal : s ≡ str = (same_iff s str).0 hit in
            rw (← place, equal) (grown_last str vocab)
        | inr miss ↦ grown-Keeps str vocab s id ((is s id).0 (rw miss at e))
      ]

      back :
          get_elem? (vocab.coll ++ str ∷ []) id ≡ some s
          → (if same s str then some (length vocab.coll) else find_id same s vocab.coll_inv)
            ≡ some id
      back at = elim (dec_lt id (length vocab.coll)) [
        | yes old ↦
            let found : find_id same s vocab.coll_inv ≡ some id =
              (is s id).1 (sym (get_elem?-append_left vocab.coll (str ∷ []) id old) ∙ at) in
            elim (Bool-cases (same s str)) [
              | inl hit ↦
                  let equal : str ≡ s = sym ((same_iff s str).0 hit) in
                  absurd (none≢some id (sym (rw equal at new) ∙ found))
              | inr miss ↦ rw miss found
            ]
        | no last ↦
            let at' : get_elem? (str ∷ []) (id - length vocab.coll) ≡ some s =
              sym (get_elem?-append_right vocab.coll (str ∷ []) id (omega arith)) ∙ at in
            let first : id - length vocab.coll ≡ 0 =
              omega (arith, get_elem?_lt (str ∷ []) (id - length vocab.coll) s at') in
            let equal : str ≡ s = some-injective str s (rw first at at') in
            let place : length vocab.coll ≡ id = omega arith in
            rw ((same_iff s str).1 (sym equal), place) refl
      ]

  get_or_create_id-present :
      (str : W) (vocab : Vocab W) (id : ℕ)
      → find_id same str vocab.coll_inv ≡ some id
      → get_or_create_id same str vocab ≡ (id, vocab)
  unfolding get_or_create_id
  get_or_create_id-present str vocab id e = rw (get_or_create_id, e) refl

  get_or_create_id-absent :
      (str : W) (vocab : Vocab W)
      → find_id same str vocab.coll_inv ≡ none
      → get_or_create_id same str vocab ≡ (length vocab.coll, grown str vocab)
  unfolding get_or_create_id
  get_or_create_id-absent str vocab e = rw (get_or_create_id, e) refl

  -- What a call leaves: consistent collections that keep what was there, with the string at its id.
  abbrev Created : W → Vocab W → ℕ × Vocab W → Type ℓ
  Created str vocab r = IsVocab r.1 × Keeps vocab r.1 × (get_elem? r.1.coll r.0 ≡ some str)

  get_or_create_id-Created :
      (str : W) (vocab : Vocab W)
      → IsVocab vocab
      → Created str vocab (get_or_create_id same str vocab)
  get_or_create_id-Created str vocab is = split (find_id same str vocab.coll_inv) refl
    where
      split :
          (m : Option ℕ)
          → find_id same str vocab.coll_inv ≡ m
          → Created str vocab (get_or_create_id same str vocab)
      split (some id) e =
          subst (Created str vocab) (sym (get_or_create_id-present str vocab id e))
            (is, (λ s i at. at), (is str id).0 e)
      split none e =
          subst (Created str vocab) (sym (get_or_create_id-absent str vocab e))
            (grown-IsVocab str vocab is e, grown-Keeps str vocab, grown_last str vocab)

  -- `GetOrCreateIds` gives every token an id from which `GetString` returns the token. Strings that had
  -- ids keep them, and the two collections stay consistent.
  pub get_strings-get_or_create_ids :
      (toks : List W) (vocab : Vocab W)
      → IsVocab vocab
      → IsVocab (get_or_create_ids same toks vocab).1
        × Keeps vocab (get_or_create_ids same toks vocab).1
        × (get_strings (get_or_create_ids same toks vocab).0 (get_or_create_ids same toks vocab).1
            ≡ done toks)
  unfolding get_or_create_ids get_string
  get_strings-get_or_create_ids [] vocab is = (is, (λ s i at. at), refl)
  get_strings-get_or_create_ids (str ∷ toks) vocab is =
      let (is', keeps, at) = get_or_create_id-Created str vocab is in
      let (is'', keeps', strs) =
        get_strings-get_or_create_ids toks (get_or_create_id same str vocab).1 is' in
      (is'', (λ s i h. keeps' s i (keeps s i h)), rw (keeps' str _ at, strs) refl)
