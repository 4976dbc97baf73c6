-- ===== src/PhraseTable/Load.antt =====
-- `Load` against the entries of the file, and `Lookup` in what it leaves.
use mathlib.Core.List.{append_assoc, append-nil}
use mathlib.Core.Path.{subst}
use gpu_moses.Cuda.Map.Laws.{assoc}
use gpu_moses.Prelude.{
  ℕ, zero, suc, ◌+◌, ◌-◌, ◌≤◌, ◌<◌, ◌≡◌, refl, ap, ◌∙◌, Option, none, some, List, [], ◌∷◌, ◌++◌,
  arith, length, get_elem?, get_elem?-some, get_elem?_lt, take, drop, Option-cases, inl, inr,
  none≢some,
}
use mathlib.Core.Option.{some-injective}
use gpu_moses.Outcome.{
  Outcome, done, fault, out_of_bounds, or_fault, ◌>>=◌, Returns, returns, Returns-map, Returns-inv,
}
use gpu_moses.Text.{Str, codes}
use gpu_moses.Util.{tokenize_multi_char_separator}
use gpu_moses.Cuda.Buffer.{Buffer}
use gpu_moses.Cuda.Holds.{Holds}
use gpu_moses.Vocab.{Vocab}
use gpu_moses.Node.{Node, new_node}
use gpu_moses.Node.Heap.{pairs, find}
use gpu_moses.Node.Find.{node_at-get, lookup-find}
use gpu_moses.Node.Add.{new_node-IsHeap}
use gpu_moses.Node.Labels.{find-label}
use gpu_moses.Hypothesis.{TargetPhrase}
use gpu_moses.Scores.{Scores}
use gpu_moses.Features.{Feature}
use gpu_moses.PhraseTable.{Table, ids_of_string, lookup_phrases, read_target, load}
use gpu_moses.PhraseTable.Spec.{targets, Held, IsTable}
use gpu_moses.PhraseTable.Insert.{grown-IsTable, add_target-IsTable}

module _ {ℓ} {P : Type ℓ} where
  -- `Lookup` of a range of a phrase that is in it ends without a fault. It gives the target phrases of these words, in the order of
  -- the entries, or NULL if there are none.
  pub lookup_phrases-targets :
      (entries : List (List ℕ × P)) (heap : Table P) (phrase : Buffer ℕ) (ids : List ℕ)
      (start end_pos : ℕ)
      → IsTable entries heap
      → Holds phrase ids
      → start ≤ end_pos
      → end_pos < length ids
      → Returns
          (λ tps. Held tps (targets (take (end_pos + 1 - start) (drop start ids)) entries))
          (lookup_phrases phrase start end_pos heap)
  unfolding lookup_phrases
  lookup_phrases-targets entries heap phrase ids start end_pos t h ordered inside =
      let ws : List ℕ = take (end_pos + 1 - start) (drop start ids) in
      rw (lookup-find heap t.well phrase ids h (end_pos + 1 - start) start 0 t.rooted (omega arith))
        (elim (Option-cases (find heap 0 ws)) [
          | inl missing ↦ rw missing (returns (t.absent ws missing))
          | inr (p, found) ↦
              let there : get_elem? t.labels p ≡ some ws =
                find-label heap t.labels 0 [] ws p t.labelled t.labelled.root found in
              let (node, at_p) =
                get_elem?-some heap p
                  (omega (arith, t.labelled.one_each, get_elem?_lt t.labels p ws there)) in
              rw (found, node_at-get heap p node at_p) (returns (t.present ws p node found at_p))
        ])

  -- A root alone.
  pub new-IsTable : IsTable {P = P} [] (new_node none ∷ [])
  unfolding find
  new-IsTable = record {
    well = new_node-IsHeap none;
    rooted = omega arith;
    labels = [] ∷ [];
    labelled = record { one_each = refl; root = refl; edge = alone; reached = reach };
    present = held;
    absent = λ ws missing. refl;
  }
    where
      heap : Table P
      heap = new_node none ∷ []

      alone :
          (p : ℕ) (node : Node (Option (Buffer P))) (w c : ℕ)
          → get_elem? heap p ≡ some node
          → assoc w (pairs node) ≡ some c
          → (l : List ℕ) × (get_elem? ([] ∷ []) p ≡ some l)
            × (get_elem? ([] ∷ []) c ≡ some (l ++ w ∷ []))
      alone zero node w c at child = absurd (
          none≢some c (
            ap (λ (m : Node (Option (Buffer P))). assoc w (pairs m)) (some-injective _ node at)
            ∙ child))
      alone (suc p) node w c at child = absurd (none≢some node at)

      reach : (q : ℕ) (l : List ℕ) → get_elem? ([] ∷ []) q ≡ some l → find heap 0 l ≡ some q
      reach zero l at = rw (← some-injective [] l at) refl
      reach (suc q) l at = absurd (none≢some l at)

      held :
          (ws : List ℕ) (q : ℕ) (node : Node (Option (Buffer P)))
          → find heap 0 ws ≡ some q
          → get_elem? heap q ≡ some node
          → Held node.value []
      held ws zero node found at =
          subst (λ (m : Node (Option (Buffer P))). Held m.value []) (some-injective _ node at) refl
      held ws (suc q) node found at = absurd (none≢some node at)

module _ {ℓ} {N : Type ℓ} (null : N) (plus times : N → N → N) (parse : Str → N)
    (transform_score floor_score : N → N) (negated : ℕ → N) (weights : Buffer N)
    (stateless_ffs : List (Feature Str)) (pt : Feature Str) (total_num_scores : ℕ) where
  -- The entries of the lines, with no trie.
  unfoldable pub read_lines :
      List Str → Vocab Str → Outcome (List (List ℕ × TargetPhrase (Scores N)) × Vocab Str)
  read_lines [] vocab = done ([], vocab)
  read_lines (line ∷ lines) vocab = do
    toks ← tokenize_multi_char_separator [] line (codes "|||")
    source ← or_fault (get_elem? toks 0) out_of_bounds
    (source_ids, vocab') ← ids_of_string source vocab
    (tp, vocab'') ←
        read_target null plus times parse transform_score floor_score negated weights stateless_ffs
          pt total_num_scores toks vocab'
    (entries, vocab''') ← read_lines lines vocab''
    done ((source_ids, tp) ∷ entries, vocab''')

  -- A run of `Load` that starts with some entries, and the entries that the lines add.
  abbrev pub Agrees :
      List (List ℕ × TargetPhrase (Scores N))
      → Outcome (List (List ℕ × TargetPhrase (Scores N)) × Vocab Str)
      → Outcome (Table (TargetPhrase (Scores N)) × Vocab Str)
      → Type ℓ
  Agrees before (done (entries, vocab)) m =
      Returns (λ r. IsTable (before ++ entries) r.0 × (r.1 ≡ vocab)) m
  Agrees before (fault f) m = m ≡ fault f

  Agrees-bind {κ} :
      {A : Type κ} (before : List (List ℕ × TargetPhrase (Scores N))) (m : Outcome A)
      (f : A → Outcome (List (List ℕ × TargetPhrase (Scores N)) × Vocab Str))
      (g : A → Outcome (Table (TargetPhrase (Scores N)) × Vocab Str))
      → ((a : A) → Agrees before (f a) (g a))
      → Agrees before (m >>= f) (m >>= g)
  Agrees-bind before (done a) f g h = h a
  Agrees-bind before (fault e) f g h = refl

  Agrees-cons :
      (before : List (List ℕ × TargetPhrase (Scores N))) (entry : List ℕ × TargetPhrase (Scores N))
      (r : Outcome (List (List ℕ × TargetPhrase (Scores N)) × Vocab Str))
      (m : Outcome (Table (TargetPhrase (Scores N)) × Vocab Str))
      → Agrees (before ++ entry ∷ []) r m
      → Agrees before (r >>= λ (entries, vocab). done (entry ∷ entries, vocab)) m
  Agrees-cons before entry (done (entries, vocab)) m h =
      Returns-map h
        λ r (t, v). (subst (λ es. IsTable es r.0) (append_assoc before (entry ∷ []) entries) t, v)
  Agrees-cons before entry (fault e) m h = h

  pub load-Agrees :
      (lines : List Str) (vocab : Vocab Str) (before : List (List ℕ × TargetPhrase (Scores N)))
      (heap : Table (TargetPhrase (Scores N)))
      → IsTable before heap
      → Agrees before (read_lines lines vocab) (
          load null plus times parse transform_score floor_score negated weights stateless_ffs pt
            total_num_scores lines vocab heap)
  unfolding read_lines load
  load-Agrees [] vocab before heap t = returns (rw (append-nil before) t, refl)
  load-Agrees (line ∷ lines) vocab before heap t =
      Agrees-bind before (tokenize_multi_char_separator [] line (codes "|||")) _ _ λ toks.
        Agrees-bind before (or_fault (get_elem? toks 0) out_of_bounds) _ _ λ source.
          Agrees-bind before (ids_of_string source vocab) _ _ λ (source_ids, vocab').
            let ((p, heap'), e, (t', found)) =
              Returns-inv (grown-IsTable before heap source_ids t) in
            rw e (
              Agrees-bind before
                (read_target null plus times parse transform_score floor_score negated weights
                  stateless_ffs pt total_num_scores toks vocab')
                _ _
                λ (tp, vocab'').
                  let (heap'', e', t'') =
                    Returns-inv (add_target-IsTable before heap' source_ids tp p t' found) in
                  rw e' (
                    Agrees-cons before (source_ids, tp) (read_lines lines vocab'') _
                      (load-Agrees lines vocab'' (before ++ (source_ids, tp) ∷ []) heap'' t'')))

  -- If the lines of the file can be read, `Load` into a new table ends without a fault, and then `Lookup`
  -- of any range of any phrase does. It gives the target phrases of the lines with these source words,
  -- with their scores and in the order of the file, or NULL if there is no such line.
  pub load-lookup_phrases :
      (lines : List Str) (vocab vocab' : Vocab Str)
      (entries : List (List ℕ × TargetPhrase (Scores N))) (phrase : Buffer ℕ) (ids : List ℕ)
      (start end_pos : ℕ)
      → read_lines lines vocab ≡ done (entries, vocab')
      → Holds phrase ids
      → start ≤ end_pos
      → end_pos < length ids
      → Returns
          (λ r.
            Returns
              (λ tps. Held tps (targets (take (end_pos + 1 - start) (drop start ids)) entries))
              (lookup_phrases phrase start end_pos r.0))
          (load null plus times parse transform_score floor_score negated weights stateless_ffs pt
            total_num_scores lines vocab
            (new_node none ∷ []))
  load-lookup_phrases lines vocab vocab' entries phrase ids start end_pos e h ordered inside =
      Returns-map
        (subst
          (λ r. Agrees [] r (
            load null plus times parse transform_score floor_score negated weights stateless_ffs pt
              total_num_scores lines vocab (new_node none ∷ [])))
          e (load-Agrees lines vocab [] (new_node none ∷ []) new-IsTable))
        λ r (t, v). lookup_phrases-targets entries r.0 phrase ids start end_pos t h ordered inside
