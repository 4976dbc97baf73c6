-- ===== src/Examples/Ngrams.antt =====
-- LM/LanguageModel.cu: a model of order 2 that knows the word 7 and no other.
use mathlib.Core.Path.{subst}
use mathlib.Core.Option.{some-injective}
use gpu_moses.Prelude.{
  ℕ, zero, suc, ◌+◌, ◌<◌, ◌≡◌, refl, arith, true, false, some, List, [], ◌∷◌, none≢some, Bool-cases,
  inl, inr, ◌==◌,
}
use gpu_moses.Outcome.{fault, out_of_bounds, Returns}
use gpu_moses.Cuda.Buffer.{Buffer}
use gpu_moses.Cuda.Holds.{Holds}
use gpu_moses.Cuda.Map.Laws.{assoc}
use gpu_moses.Node.{Node, new_node}
use gpu_moses.Node.Heap.{IsNode, IsHeap, find, pairs}
use gpu_moses.LanguageModel.{LmScores, score, shift_or_push}
use gpu_moses.LanguageModel.Context.{shift_or_push-Holds}
use gpu_moses.LanguageModel.PastEnd.{score_known}

abbrev unknown : LmScores ℕ
unknown = record { found = false; prob = 123; backoff = 456 }

abbrev root_node : Node (LmScores ℕ)
root_node = record { value = unknown; children = record { max_size = 1; cells = some (7, 1) ∷ [] } }

abbrev word_node : Node (LmScores ℕ)
word_node = new_node (record { found = true; prob = 5; backoff = 1 })

abbrev lm_heap : List (Node (LmScores ℕ))
lm_heap = root_node ∷ word_node ∷ []

root_child : (k c : ℕ) → assoc k (pairs root_node) ≡ some c → c < 2
root_child k c e = elim (Bool-cases (7 == k)) [
  | inl hit ↦
      let same : some 1 ≡ some c = rw hit at e in
      let one : 1 ≡ c = some-injective 1 c same in omega arith
  | inr miss ↦ absurd (none≢some c (rw miss at e))
]

lm_heap-IsHeap : IsHeap lm_heap
lm_heap-IsHeap zero node at = subst (IsNode 2) (some-injective root_node node at) (record {
  holds = record { contents = refl; fits = omega arith };
  sorted = (tt, tt);
  bounded = root_child;
})
lm_heap-IsHeap (suc zero) node at = subst (IsNode 2) (some-injective word_node node at) (record {
  holds = record { contents = refl; fits = omega arith };
  sorted = tt;
  bounded = λ k c e. absurd (none≢some c e);
})
lm_heap-IsHeap (suc (suc p)) node at = absurd (none≢some node at)

known : find lm_heap 0 (7 ∷ []) ≡ some 1
unfolding find
known = refl

abbrev context : Buffer ℕ
context = record { max_size = 2; cells = some 7 ∷ [] }

context-Holds : Holds context (7 ∷ [])
context-Holds = record { contents = refl; fits = omega arith }

score_known_example : score 0 ◌+◌ lm_heap 0 1 context ≡ fault out_of_bounds
score_known_example =
    score_known 0 ◌+◌ lm_heap 0 lm_heap-IsHeap (omega arith) 0 1 (7 ∷ []) context context-Holds refl
      known

shift_or_push-Holds_example : Returns (λ b. Holds b (9 ∷ 7 ∷ [])) (shift_or_push 2 9 context)
shift_or_push-Holds_example =
    shift_or_push-Holds 1 9 (7 ∷ []) context context-Holds (omega arith) (omega arith)
