-- ===== src/LanguageModel/PastEnd.antt =====
-- A lookup with the size of the context as its inclusive end.
use mathlib.Core.Option.{some-injective}
use gpu_moses.Prelude.{
  ℕ, zero, suc, ◌+◌, ◌≤◌, ◌<◌, ◌≡◌, refl, sym, ap, ◌∙◌, Bool, true, false, Option, none, some, List,
  ◌∷◌, arith, length, get_elem?, get_elem?-none, get_elem?-some, drop, drop_get, none≢some,
}
use native.Mathlib.Numerals.{add-one}
use gpu_moses.Outcome.{done, fault, out_of_bounds}
use gpu_moses.Cuda.Buffer.{Buffer, read}
use gpu_moses.Cuda.Holds.{Holds, size-Holds, read-Holds}
use gpu_moses.Cuda.Map
use gpu_moses.Cuda.Map.Laws.{assoc, FindsKey, upper_bound_assoc}
use gpu_moses.Node.{Node, lookup}
use gpu_moses.Node.Heap.{IsHeap, pairs, find}
use gpu_moses.Node.Find.{node_at-get}
use gpu_moses.LanguageModel.{LmScores, score}

read_past :
    (b : Buffer ℕ) (xs : List ℕ) (i : ℕ)
    → Holds b xs
    → length xs ≤ i
    → read b i ≡ fault out_of_bounds
unfolding read
read_past b xs i h past = rw (get_elem?-none b.cells i (omega (arith, size-Holds h))) refl

module _ {ℓ} {V : Type ℓ} (heap : List (Node V)) (well : IsHeap heap) (phrase : Buffer ℕ)
    (ids : List ℕ) (h : Holds phrase ids) where
  lookup_found :
      (rounds pos p w c : ℕ) (node : Node V)
      → get_elem? ids pos ≡ some w
      → get_elem? heap p ≡ some node
      → assoc w (pairs node) ≡ some c
      → (r : Bool × ℕ) → Map.upper_bound 0 w node.children ≡ done r
      → FindsKey w (pairs node) node.children r
      → lookup phrase (suc rounds) pos p heap ≡ lookup phrase rounds (pos + 1) c heap
  unfolding lookup
  lookup_found rounds pos p w c node at_pos at_p is (true, i) e (child, value, found) =
      rw (read-Holds h pos w at_pos, node_at-get heap p node at_p, e, found)
        (ap (λ k. lookup phrase rounds (pos + 1) k heap) {x = child} {y = c}
          (some-injective child c (sym value ∙ is)))
  lookup_found rounds pos p w c node at_pos at_p is (false, i) e missing =
      absurd (none≢some c (sym missing ∙ is))

  lookup_step :
      (rounds pos p w c : ℕ) (node : Node V)
      → get_elem? ids pos ≡ some w
      → get_elem? heap p ≡ some node
      → assoc w (pairs node) ≡ some c
      → lookup phrase (suc rounds) pos p heap ≡ lookup phrase rounds (pos + 1) c heap
  lookup_step rounds pos p w c node at_pos at_p is =
      let here = well p node at_p in
      let (r, e, found) = upper_bound_assoc 0 w (pairs node) node.children here.holds here.sorted in
      lookup_found rounds pos p w c node at_pos at_p is r e found

  find_step :
      (p w q : ℕ) (ws : List ℕ) (node : Node V)
      → get_elem? heap p ≡ some node
      → find heap p (w ∷ ws) ≡ some q
      → (c : ℕ) × (assoc w (pairs node) ≡ some c) × (find heap c ws ≡ some q)
  unfolding find
  find_step p w q ws node at_p found = child (assoc w (pairs node)) refl
    where
      child :
          (m : Option ℕ)
          → assoc w (pairs node) ≡ m
          → (c : ℕ) × (assoc w (pairs node) ≡ some c) × (find heap c ws ≡ some q)
      child none e = absurd (none≢some q (rw (at_p, e) at found))
      child (some c) e = (c, e, rw (at_p, e) at found)

  -- If the trie has all words of the phrase, a lookup with one more round reads past the end.
  pub lookup_past_end :
      (rounds pos p q : ℕ)
      → p < length heap
      → pos + rounds ≡ length ids
      → find heap p (drop pos ids) ≡ some q
      → lookup phrase (suc rounds) pos p heap ≡ fault out_of_bounds
  unfolding lookup
  lookup_past_end zero pos p q on_heap e found = rw (read_past phrase ids pos h (omega arith)) refl
  lookup_past_end (suc rounds) pos p q on_heap e found =
      let (w, at_pos) = get_elem?-some ids pos (omega arith) in
      let (node, at_p) = get_elem?-some heap p on_heap in
      let (c, child, rest) =
        find_step p w q (drop (suc pos) ids) node at_p (rw (drop_get pos w ids at_pos) at found) in
      lookup_step (suc rounds) pos p w c node at_pos at_p child
      ∙ lookup_past_end rounds (pos + 1) c q ((well p node at_p).bounded w c child) (omega arith)
          (rw add-one rest)

module _ {ℓ} {F : Type ℓ} (zero_score : F) (plus : F → F → F) (heap : List (Node (LmScores F)))
    (root : ℕ) (well : IsHeap heap) (on_heap : root < length heap) where
  -- `Score` of a context whose words are all in the trie, from the root on, does not return: the
  -- lookup goes on to the word after the last, which the context does not have.
  pub score_known :
      (n q : ℕ) (ids : List ℕ) (context : Buffer ℕ)
      → Holds context ids
      → length ids ≡ suc n
      → find heap root ids ≡ some q
      → score zero_score plus heap root (suc n) context ≡ fault out_of_bounds
  unfolding score
  score_known n q ids context h len found =
      let past =
        lookup_past_end heap well context ids h (length ids) 0 root q on_heap (omega arith) found in
      rw (size-Holds h, add-one (length ids), past) refl
