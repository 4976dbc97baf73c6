-- ===== src/Search.antt =====
-- `ProcessStack` of Manager.cu, its loop over target phrases: the hypotheses that extend one
-- hypothesis by one input path, and the stacks that they go to.
use gpu_moses.Prelude.{ℕ, Bool, List, [], ◌∷◌, get_elem?, set}
use gpu_moses.Outcome.{Outcome, done, out_of_bounds, or_fault, ◌>>=◌}
use gpu_moses.Range.{Range}
use gpu_moses.Hypothesis.{Hypothesis, Fields, fields, TargetPhrase, init_extension}
use gpu_moses.Stack.{Stack, add}

-- The scores and the features are parameters, and so are the two orderers, the size of the beam and
-- what the constructor of a hypothesis allocates.
module _ {ℓ κ} {S : Type ℓ} {T : Type κ} (add_phrase_scores : S → T → Outcome S)
    (add_scores : S → S → Outcome S) (evaluate_when_applied : Hypothesis S → Outcome (Hypothesis S))
    (recomb better : Hypothesis S → Hypothesis S → Bool) (stack_size : ℕ)
    (allocated : Fields S) where
  -- The new hypothesis goes to the stack of its number of covered words. The lock is taken around
  -- `add`, so that the calls on one stack come one after the other.
  unfoldable pub extend_all :
      List (TargetPhrase T)
      → Hypothesis S
      → Range
      → List (Stack (Hypothesis S))
      → Outcome (List (Stack (Hypothesis S)))
  unfolding init_extension add
  extend_all [] prev path stacks = done stacks
  extend_all (tp ∷ tps) prev path stacks = do
    hypo ← init_extension add_phrase_scores add_scores evaluate_when_applied prev tp path allocated
    let words_covered = (fields hypo).bitmap.num_words_covered
    dest_stack ← or_fault (get_elem? stacks words_covered) out_of_bounds
    dest_stack' ← add recomb better stack_size hypo dest_stack
    extend_all tps prev path (set stacks words_covered dest_stack')
