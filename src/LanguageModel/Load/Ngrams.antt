-- ===== src/LanguageModel/Load/Ngrams.antt =====
-- The trie that `Load` of the language model leaves.
use gpu_moses.Prelude.{
  ℕ, ◌≤◌, ◌<◌, ◌≡◌, refl, ◌∙◌, true, Option, none, some, List, [], ◌∷◌, arith, length, length-set,
  get_elem?, get_elem?-some, All,
}
use gpu_moses.Outcome.{done, Returns, returns, Returns-map, Returns-bind, Returns-if}
use gpu_moses.Text.{Str, codes, str_eq}
use gpu_moses.Util.{blanks}
use gpu_moses.Util.Words.{words, tokenize-words, tokenize_into-words}
use gpu_moses.Vocab.{Vocab, get_or_create_ids}
use gpu_moses.Node.{Node}
use gpu_moses.Node.Heap.{IsHeap, find}
use gpu_moses.Node.Find.{node_at-get}
use gpu_moses.Node.Add.{add_or_create_node-Added}
use gpu_moses.Node.Value.{valued_self, valued-IsHeap, find-valued}
use gpu_moses.PhraseTable.{ids_of_string}
use gpu_moses.LanguageModel.{LmScores}
use gpu_moses.LanguageModel.Load.{Trie, reversed, add_ngram, add_fields, load_line, load_loop}

module _ {ℓ} {F : Type ℓ} (zero_score : F) (parse : Str → F) (transform_lm_score : F → F)
    (unk_scores : LmScores F) where
  pub record IsTrie (lm : Trie F) : Type ℓ where
    pub well : IsHeap lm.heap
    pub rooted : 0 < length lm.heap

  -- The words, from the last one back, lead to a node with these scores.
  pub record HasNgram (lm : Trie F) (ids : List ℕ) (scores : LmScores F) : Type ℓ where
    pub place : ℕ
    pub node : Node (LmScores F)
    pub leads : find lm.heap 0 (reversed ids) ≡ some place
    pub at : get_elem? lm.heap place ≡ some node
    pub value : node.value ≡ scores

  ids_of_string-words :
      (str : Str) (vocab : Vocab Str)
      → ids_of_string str vocab ≡ done (get_or_create_ids str_eq (words blanks str) vocab)
  unfolding ids_of_string
  ids_of_string-words str vocab = rw (tokenize_into-words blanks [] str) refl

  -- An n-gram of a line is put into the trie with its scores, and the trie stays well-formed.
  pub add_ngram-HasNgram :
      (ngram : Str) (prob backoff : F) (lm : Trie F) (vocab : Vocab Str)
      → IsTrie lm
      → Returns
          (λ r.
            IsTrie r.0
            × HasNgram r.0
                (get_or_create_ids str_eq (words blanks ngram) vocab).0
                (record { found = true; prob = prob; backoff = backoff }))
          (add_ngram zero_score parse transform_lm_score unk_scores ngram prob backoff lm vocab)
  unfolding add_ngram
  add_ngram-HasNgram ngram prob backoff lm vocab t =
      let ids : List ℕ = (get_or_create_ids str_eq (words blanks ngram) vocab).0 in
      let scores : LmScores F = record { found = true; prob = prob; backoff = backoff } in
      rw (ids_of_string-words ngram vocab) (
        Returns-bind (add_or_create_node-Added unk_scores lm.heap 0 (reversed ids) t.well t.rooted)
          λ (p, heap) a.
            let (node, at_p) = get_elem?-some heap p a.on_heap in
            rw (node_at-get heap p node at_p) (
              returns (
                record {
                  well = valued-IsHeap heap p node at_p scores a.well;
                  rooted =
                      omega (arith, length-set heap p (record node { value = scores }), a.on_heap);
                },
                record {
                  place = p;
                  node = record node { value = scores };
                  leads = find-valued heap p node at_p scores 0 (reversed ids) ∙ a.found;
                  at = valued_self heap p node at_p scores;
                  value = refl;
                },
              )))

  add_fields-IsTrie :
      (prob_str ngram : Str) (backoff_str : Option Str) (lm : Trie F) (vocab : Vocab Str)
      → IsTrie lm
      → Returns
          (λ r. IsTrie r.0)
          (add_fields zero_score parse transform_lm_score unk_scores prob_str ngram backoff_str lm
            vocab)
  unfolding add_fields
  add_fields-IsTrie prob_str ngram backoff_str lm vocab t =
      Returns-if (str_eq ngram (codes "<unk>"))
        (λ unknown. returns (record { well = t.well; rooted = t.rooted }))
        λ known. Returns-map (add_ngram-HasNgram ngram _ _ lm vocab t) λ r (t', has). t'

  load_line-IsTrie :
      (substrings : List Str) (lm : Trie F) (vocab : Vocab Str)
      → length substrings ≤ 3
      → IsTrie lm
      → Returns
          (λ r. IsTrie r.0)
          (load_line zero_score parse transform_lm_score unk_scores substrings lm vocab)
  unfolding load_line
  load_line-IsTrie [] lm vocab few t = returns t
  load_line-IsTrie (a ∷ []) lm vocab few t = returns t
  load_line-IsTrie (a ∷ (b ∷ [])) lm vocab few t = add_fields-IsTrie a b none lm vocab t
  load_line-IsTrie (a ∷ (b ∷ (c ∷ []))) lm vocab few t = add_fields-IsTrie a b (some c) lm vocab t
  load_line-IsTrie (a ∷ (b ∷ (c ∷ (d ∷ rest)))) lm vocab few t = absurd (omega arith)

  -- If no line has more than three fields, the loop of `Load` ends without a fault, and the trie stays well-formed.
  pub load_loop-IsTrie :
      (lines : List Str) (lm : Trie F) (vocab : Vocab Str)
      → All (λ (line : Str). length (words (codes "\t") line) ≤ 3) lines
      → IsTrie lm
      → Returns
          (λ r. IsTrie r.0)
          (load_loop zero_score parse transform_lm_score unk_scores lines lm vocab)
  unfolding load_loop
  load_loop-IsTrie [] lm vocab few t = returns t
  load_loop-IsTrie (line ∷ lines) lm vocab few t = rw (tokenize-words (codes "\t") line) (
      Returns-bind (load_line-IsTrie (words (codes "\t") line) lm vocab few.0 t)
        λ (lm', vocab') t'. load_loop-IsTrie lines lm' vocab' few.1 t')
