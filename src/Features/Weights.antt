-- ===== src/Features/Weights.antt =====
-- `SetWeights` writes the weights of one feature to its span, and nothing else.
use gpu_moses.Prelude.{
  ℕ, zero, suc, ◌+◌, ◌≤◌, ◌<◌, ◌≡◌, ◌≢◌, refl, ap, ◌∙◌, ◌⊎◌, inl, inr, Bool, some, none, List, [],
  ◌∷◌, arith, length, set, length-set, get_elem?, get_elem?-set_self, get_elem?-set_ne, ==_self,
  not-==,
}
use gpu_moses.Outcome.{fault, exception, Returns, returns, Returns-bind, Returns-map}
use gpu_moses.Cuda.Buffer.{Buffer}
use gpu_moses.Cuda.Holds.{Holds, write-Holds}
use gpu_moses.Features.{Feature, Names, find_feature_function, weight_loop, set_weights}

-- `ys` is `xs` with `ws` written from `i` on.
pub record IsWritten {ℓ} {N : Type ℓ} (i : ℕ) (ws xs ys : List N) : Type ℓ where
  pub same_length : length ys ≡ length xs
  pub inside : (j : ℕ) → j < length ws → get_elem? ys (i + j) ≡ get_elem? ws j
  pub outside : (j : ℕ) → (j < i) ⊎ (i + length ws ≤ j) → get_elem? ys j ≡ get_elem? xs j

pub IsWritten-cons {ℓ} :
    {N : Type ℓ} (i : ℕ) (w : N) (ws xs ys : List N)
    → i < length xs
    → IsWritten (i + 1) ws (set xs i w) ys
    → IsWritten i (w ∷ ws) xs ys
IsWritten-cons {N = N} i w ws xs ys space b = record {
  same_length = b.same_length ∙ length-set xs i w;
  inside = within;
  outside = without;
}
  where
    within : (j : ℕ) → j < suc (length ws) → get_elem? ys (i + j) ≡ get_elem? (w ∷ ws) j
    within zero less =
        ap (get_elem? ys) (omega arith)
        ∙ b.outside i (inl (omega arith))
        ∙ get_elem?-set_self xs i w space
    within (suc j) less = ap (get_elem? ys) (omega arith) ∙ b.inside j (omega arith)

    without : (j : ℕ) → (j < i) ⊎ (i + suc (length ws) ≤ j) → get_elem? ys j ≡ get_elem? xs j
    without j (inl below) =
        b.outside j (inl (omega arith)) ∙ get_elem?-set_ne xs i j w (λ e. absurd (omega arith))
    without j (inr above) =
        b.outside j (inr (omega arith)) ∙ get_elem?-set_ne xs i j w (λ e. absurd (omega arith))

weight_loop-IsWritten {ℓ} :
    {N : Type ℓ} (start i k : ℕ) (ws xs : List N) (b : Buffer N)
    → Holds b xs
    → start + i ≡ k
    → k + length ws ≤ length xs
    → Returns (λ b'. (ys : List N) × Holds b' ys × IsWritten k ws xs ys) (weight_loop start i ws b)
unfolding weight_loop
weight_loop-IsWritten start i k [] xs b h e fits = returns (
  xs,
  h,
  record { same_length = refl; inside = λ j less. absurd (omega arith); outside = λ j out. refl },
)
weight_loop-IsWritten start i k (w ∷ ws) xs b h e fits = rw e (
    Returns-bind (write-Holds h k w (omega arith)) λ b' (h', _).
      Returns-map
        (weight_loop-IsWritten start (i + 1) (k + 1) ws (set xs k w) b' h' (omega arith)
          (omega (arith, length-set xs k w)))
        λ out (ys, hy, is). (ys, hy, IsWritten-cons k w ws xs ys (omega arith) is))

module _ {ℓ κ} {W : Type ℓ} {N : Type κ} (same : W → W → Bool) (names : Names W) where
  -- `SetWeights` of a feature that there is, with as many weights as it has scores, whose span lies in
  -- the weights, ends without a fault and writes these weights to the span and nothing else.
  pub set_weights-IsWritten :
      (ffs : List (Feature W)) (name : W) (ws xs : List N) (weights : Buffer N) (ff : Feature W)
      → Holds weights xs
      → find_feature_function same names name ffs ≡ some ff
      → length ws ≡ ff.num_scores
      → ff.start_ind + ff.num_scores ≤ length xs
      → Returns
          (λ b. (ys : List N) × Holds b ys × IsWritten ff.start_ind ws xs ys)
          (set_weights same names ffs name ws weights)
  unfolding set_weights
  set_weights-IsWritten ffs name ws xs weights ff h found right fits =
      rw (found, right, ==_self ff.num_scores)
        (weight_loop-IsWritten ff.start_ind 0 ff.start_ind ws xs weights h (omega arith)
          (omega (arith, right)))

  -- A feature that is not there, or another number of weights than it has scores, is an exception.
  pub set_weights-wrong :
      (ffs : List (Feature W)) (name : W) (ws : List N) (weights : Buffer N)
      → (find_feature_function same names name ffs ≡ none)
        ⊎ ((ff : Feature W) × (find_feature_function same names name ffs ≡ some ff)
            × (length ws ≢ ff.num_scores))
      → set_weights same names ffs name ws weights ≡ fault exception
  unfolding set_weights
  set_weights-wrong ffs name ws weights (inl missing) = rw missing refl
  set_weights-wrong ffs name ws weights (inr (ff, found, wrong)) =
      rw (found, not-== (length ws) ff.num_scores wrong) refl
