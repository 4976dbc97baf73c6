-- ===== src/Output/Correct.antt =====
-- `GetBestHypo` returns the translation of a best hypothesis, in order.
use mathlib.Core.Path.{subst}
use gpu_moses.Prelude.{
  ℕ, ◌-◌, ◌/◌, ◌≤◌, ◌≡◌, sym, ap, ◌∙◌, Bool, true, some, List, ◌++◌, arith, length, drop, get_elem?,
  get_elem?_ext, get_elem?-append_left, get_elem?-append_right, get_elem?-drop, dec_lt, inr,
}
use gpu_moses.Outcome.{Returns, Returns-bind, Returns-map}
use gpu_moses.Cuda.Buffer.{Buffer}
use gpu_moses.Cuda.Holds.{Holds, size-Holds}
use gpu_moses.Cuda.Order.{StrictWeakOrder}
use gpu_moses.Hypothesis.{Hypothesis, fields}
use gpu_moses.Hypothesis.Words.{Translates}
use gpu_moses.Output.{get_best_hypo}
use gpu_moses.Output.Best.{IsBest, best_loop-found}
use gpu_moses.Output.Copy.{IsBackwards, copy_chain-IsBackwards}
use gpu_moses.Output.Reverse.{IsReversed, reverse_loop-IsReversed}

-- Backwards, and then reversed.
forwards :
    (output xs ys zs : List ℕ)
    → length output ≤ length xs
    → IsBackwards 0 (length output) output xs ys
    → IsReversed 0 (length output) ys zs
    → zs ≡ output ++ drop (length output) xs
forwards output xs ys zs fits b r = get_elem?_ext zs (output ++ drop (length output) xs) at
  where
    at : (j : ℕ) → get_elem? zs j ≡ get_elem? (output ++ drop (length output) xs) j
    at j = elim (dec_lt j (length output)) [
      | yes word ↦
          r.inside j (omega arith) (omega arith)
          ∙ ap (get_elem? ys) (omega arith)
          ∙ b.inside (length output - 1 - j) (omega arith)
          ∙ ap (get_elem? output) (omega arith)
          ∙ sym (get_elem?-append_left output (drop (length output) xs) j word)
      | no rest ↦
          r.outside j (inr (omega arith))
          ∙ b.above j (omega arith)
          ∙ ap (get_elem? xs) (omega arith)
          ∙ sym (get_elem?-drop (length output) xs (j - length output))
          ∙ sym (get_elem?-append_right output (drop (length output) xs) j (omega arith))
    ]

module _ {ℓ κ} {S : Type ℓ} {N : Type κ} (future_score : S → N) (greater : N → N → Bool)
    (lowest : N) (order : StrictWeakOrder greater) where
  -- If the first entry of the last stack beats the lowest score, and the translations of the entries
  -- fit into the output vector, `GetBestHypo` ends without a fault. No entry has a better score than
  -- the one that it chooses, and the vector then starts with all words of that translation, in order.
  pub get_best_hypo-translation :
      (hs : List (Hypothesis S)) (hypos : Buffer (Hypothesis S)) (first : Hypothesis S)
      (xs : List ℕ) (ids : Buffer ℕ)
      → Holds hypos hs
      → Holds ids xs
      → get_elem? hs 0 ≡ some first
      → greater (future_score (fields first).scores) lowest ≡ true
      → ((k : ℕ) (h : Hypothesis S)
          → get_elem? hs k ≡ some h
          → (output : List ℕ) × Translates h output × (length output ≤ length xs))
      → Returns
          (λ ids'.
            (best : Hypothesis S) × (output : List ℕ) × IsBest future_score greater lowest order hs
              (length hs)
              best
            × Translates best output
            × Holds ids' (output ++ drop (length output) xs))
          (get_best_hypo future_score greater lowest hypos ids)
  unfolding get_best_hypo
  get_best_hypo-translation hs hypos first xs ids hh hi at wins all = rw (size-Holds hh) (
      Returns-bind (best_loop-found future_score greater lowest order hs hypos first hh at wins)
        λ r (best, found, is).
          let (output, translates, fits) = all is.0.0 best is.0.1 in
          rw found (
            Returns-bind (copy_chain-IsBackwards 0 xs ids translates hi (omega (arith, fits)))
              λ (pos, ids') (end, ys, hy, b).
                let pos_is : pos ≡ length output = omega (arith, end) in
                rw pos_is (
                  Returns-map
                    (reverse_loop-IsReversed (length output / 2) 0 (length output) ys ids' hy
                      (omega arith) (omega (arith, b.same_length)))
                    λ out (zs, hz, reversed). (
                      best,
                      output,
                      is,
                      translates,
                      subst (Holds out) (forwards output xs ys zs fits b reversed) hz,
                    ))))
