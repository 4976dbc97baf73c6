-- ===== src/LanguageModel/Load.antt =====
-- `LanguageModel::Load` of LM/LanguageModel.cu, over the lines of the file.
pub mod Ngrams
use gpu_moses.Prelude.{ℕ, Bool, true, Option, none, some, List, [], ◌∷◌, ◌++◌, set, if◌then◌else◌}
use gpu_moses.Outcome.{Outcome, done, fault, assertion, ◌>>=◌}
use gpu_moses.Text.{Str, codes, str_eq}
use gpu_moses.Util.{tokenize}
use gpu_moses.Vocab.{Vocab, get_or_create_id}
use gpu_moses.Node.{Node, node_at, add_or_create_node}
use gpu_moses.PhraseTable.{ids_of_string}
use gpu_moses.LanguageModel.{LmScores}

-- What `Load` writes: the trie, whose root is node 0, and `m_oov`, which is none until it is written.
pub record Trie {ℓ} (F : Type ℓ) : Type ℓ where
  pub heap : List (Node (LmScores F))
  pub m_oov : Option F

-- `std::reverse`.
abbrev pub reversed {ℓ} : {A : Type ℓ} → List A → List A
reversed [] = []
reversed (a ∷ rest) = reversed rest ++ a ∷ []

-- `parse` is `Scan<SCORE>`, `transform_lm_score` is `TransformLMScore`, and `unk_scores` is `m_unkScores`.
module _ {ℓ} {F : Type ℓ} (zero_score : F) (parse : Str → F) (transform_lm_score : F → F)
    (unk_scores : LmScores F) where
  -- An n-gram and its scores.
  unfoldable pub add_ngram : Str → F → F → Trie F → Vocab Str → Outcome (Trie F × Vocab Str)
  unfolding ids_of_string add_or_create_node node_at
  add_ngram ngram prob backoff lm vocab = do
    (factor_key, vocab') ← ids_of_string ngram vocab
    (p, heap) ← add_or_create_node unk_scores (reversed factor_key) 0 lm.heap
    node ← node_at heap p
    done (
      record lm {
        heap =
            set heap p
              (record node { value = record { found = true; prob = prob; backoff = backoff } });
      },
      vocab',
    )

  -- The fields of a line. `backoff` is none where there are two.
  unfoldable pub add_fields :
      Str → Str → Option Str → Trie F → Vocab Str → Outcome (Trie F × Vocab Str)
  unfolding add_ngram
  add_fields prob_str ngram backoff_str lm vocab =
      let prob = transform_lm_score (parse prob_str) in
      let backoff : F = elim backoff_str [
        | some str ↦ transform_lm_score (parse str)
        | none ↦ zero_score
      ] in
      let rest = add_ngram ngram prob backoff lm vocab in
      if str_eq ngram (codes "<unk>") then done (record lm { m_oov = some prob }, vocab) else rest

  unfoldable pub load_line : List Str → Trie F → Vocab Str → Outcome (Trie F × Vocab Str)
  unfolding add_fields
  load_line [] lm vocab = done (lm, vocab)
  load_line (a ∷ []) lm vocab = done (lm, vocab)
  load_line (a ∷ (b ∷ [])) lm vocab = add_fields a b none lm vocab
  load_line (a ∷ (b ∷ (c ∷ []))) lm vocab = add_fields a b (some c) lm vocab
  load_line (a ∷ (b ∷ (c ∷ (d ∷ rest)))) lm vocab = fault assertion

  unfoldable pub load_loop : List Str → Trie F → Vocab Str → Outcome (Trie F × Vocab Str)
  unfolding load_line
  load_loop [] lm vocab = done (lm, vocab)
  load_loop (line ∷ lines) lm vocab = do
    substrings ← tokenize line (codes "\t")
    (lm', vocab') ← load_line substrings lm vocab
    load_loop lines lm' vocab'

  -- `Load`: with the ids of `BOS_` and `EOS_` first.
  unfoldable pub load_lm :
      Str → Str → List Str → Trie F → Vocab Str → Outcome ((ℕ × ℕ) × Trie F × Vocab Str)
  unfolding get_or_create_id load_loop
  load_lm bos eos lines lm vocab =
      let (m_bos, vocab') = get_or_create_id str_eq bos vocab in
      let (m_eos, vocab'') = get_or_create_id str_eq eos vocab' in
      load_loop lines lm vocab'' >>= λ r. done ((m_bos, m_eos), r.0, r.1)
