-- ===== src/Output/Copy.antt =====
-- The words of a chain of hypotheses, written from the last one back.
use gpu_moses.Prelude.{
  ℕ, zero, suc, ◌+◌, ◌-◌, ◌≤◌, ◌<◌, ◌≡◌, refl, sym, ap, ◌∙◌, some, List, [], ◌++◌, arith, length,
  length-append, get_elem?, get_elem?-some, get_elem?-append_left, get_elem?-append_right,
  get_elem?-set_self, get_elem?-set_ne, set, length-set, dec_lt,
}
use gpu_moses.Outcome.{Returns, returns, Returns-bind, Returns-map}
use gpu_moses.Cuda.Buffer.{Buffer}
use gpu_moses.Cuda.Holds.{Holds, read-Holds, write-Holds, size-Holds}
use gpu_moses.Hypothesis.{Hypothesis}
use gpu_moses.Hypothesis.Words.{Translates, nothing, phrase}
use gpu_moses.Output.{copy_phrase, copy_chain}

-- `ys` is `xs` with the first `n` words of `ws` written backwards from `pos` on.
pub record IsBackwards (pos n : ℕ) (ws xs ys : List ℕ) : Type 0 where
  pub same_length : length ys ≡ length xs
  pub below : (j : ℕ) → j < pos → get_elem? ys j ≡ get_elem? xs j
  pub inside : (j : ℕ) → j < n → get_elem? ys (pos + j) ≡ get_elem? ws (n - 1 - j)
  pub above : (j : ℕ) → pos + n ≤ j → get_elem? ys j ≡ get_elem? xs j

IsBackwards-nil : (pos : ℕ) (ws xs : List ℕ) → IsBackwards pos 0 ws xs xs
IsBackwards-nil pos ws xs = record {
  same_length = refl;
  below = λ j h. refl;
  inside = λ j h. absurd (omega arith);
  above = λ j h. refl;
}

IsBackwards-suc :
    (pos n w : ℕ) (ws xs ys : List ℕ)
    → get_elem? ws n ≡ some w
    → pos < length xs
    → IsBackwards (pos + 1) n ws (set xs pos w) ys
    → IsBackwards pos (suc n) ws xs ys
IsBackwards-suc pos n w ws xs ys at space b = record {
  same_length = b.same_length ∙ length-set xs pos w;
  below = λ j h. b.below j (omega arith) ∙ get_elem?-set_ne xs pos j w (λ e. absurd (omega arith));
  inside = within;
  above = λ j h. b.above j (omega arith) ∙ get_elem?-set_ne xs pos j w (λ e. absurd (omega arith));
}
  where
    within : (j : ℕ) → j < suc n → get_elem? ys (pos + j) ≡ get_elem? ws (suc n - 1 - j)
    within zero h =
        ap (get_elem? ys) (omega arith)
        ∙ b.below pos (omega arith)
        ∙ get_elem?-set_self xs pos w space
        ∙ sym at
        ∙ ap (get_elem? ws) (omega arith)
    within (suc j) h =
        ap (get_elem? ys) (omega arith) ∙ b.inside j (omega arith) ∙ ap (get_elem? ws) (omega arith)

pub copy_phrase-IsBackwards :
    (n pos : ℕ) (ws xs : List ℕ) (tp ids : Buffer ℕ)
    → Holds tp ws
    → Holds ids xs
    → n ≤ length ws
    → pos + n ≤ length xs
    → Returns
        (λ r. (r.0 ≡ pos + n) × (ys : List ℕ) × Holds r.1 ys × IsBackwards pos n ws xs ys)
        (copy_phrase n tp pos ids)
unfolding copy_phrase
copy_phrase-IsBackwards zero pos ws xs tp ids ht hi few space =
    returns (omega arith, xs, hi, IsBackwards-nil pos ws xs)
copy_phrase-IsBackwards (suc n) pos ws xs tp ids ht hi few space =
    let (w, at) = get_elem?-some ws n (omega arith) in
    rw (read-Holds ht n w at) (
      Returns-bind (write-Holds hi pos w (omega arith)) λ ids' (h, _).
        Returns-map
          (copy_phrase-IsBackwards n (pos + 1) ws (set xs pos w) tp ids' ht h (omega arith)
            (omega (arith, length-set xs pos w)))
          λ r (end, ys, hy, b).
            (omega arith, ys, hy, IsBackwards-suc pos n w ws xs ys at (omega arith) b))

IsBackwards-append :
    (pos : ℕ) (output ws xs ys zs : List ℕ)
    → IsBackwards pos (length ws) ws xs ys
    → IsBackwards (pos + length ws) (length output) output ys zs
    → IsBackwards pos (length (output ++ ws)) (output ++ ws) xs zs
IsBackwards-append pos output ws xs ys zs a b = record {
  same_length = b.same_length ∙ a.same_length;
  below = λ j h. b.below j (omega arith) ∙ a.below j h;
  inside = within;
  above = λ j h.
      b.above j (omega (arith, length-append output ws))
      ∙ a.above j (omega (arith, length-append output ws));
}
  where
    within :
        (j : ℕ)
        → j < length (output ++ ws)
        → get_elem? zs (pos + j) ≡ get_elem? (output ++ ws) (length (output ++ ws) - 1 - j)
    within j h = elim (dec_lt j (length ws)) [
      | yes last ↦
          b.below (pos + j) (omega arith)
          ∙ a.inside j last
          ∙ ap (get_elem? ws) (omega (arith, length-append output ws))
          ∙ sym (
              get_elem?-append_right output ws (length (output ++ ws) - 1 - j)
                (omega (arith, length-append output ws)))
      | no first ↦
          ap (get_elem? zs) (omega arith)
          ∙ b.inside (j - length ws) (omega (arith, length-append output ws))
          ∙ ap (get_elem? output) (omega (arith, length-append output ws))
          ∙ sym (
              get_elem?-append_left output ws (length (output ++ ws) - 1 - j)
                (omega (arith, length-append output ws)))
    ]

module _ {ℓ} {S : Type ℓ} where
  pub copy_chain-IsBackwards :
      {h : Hypothesis S} {output : List ℕ} (pos : ℕ) (xs : List ℕ) (ids : Buffer ℕ)
      → Translates h output
      → Holds ids xs
      → pos + length output ≤ length xs
      → Returns
          (λ r.
            (r.0 ≡ pos + length output)
            × (ys : List ℕ) × Holds r.1 ys
            × IsBackwards pos (length output) output xs ys)
          (copy_chain h pos ids)
  unfolding copy_chain
  copy_chain-IsBackwards pos xs ids (nothing f holds e) hi space =
      rw (size-Holds holds)
        (copy_phrase-IsBackwards 0 pos [] xs f.target_phrase ids holds hi (omega arith) space)
  copy_chain-IsBackwards pos xs ids (phrase f prev output ws before holds e) hi space =
      rw (size-Holds holds) (
        Returns-bind
          (copy_phrase-IsBackwards (length ws) pos ws xs f.target_phrase ids holds hi (omega arith)
            (omega (arith, length-append output ws)))
          λ (pos', ids') (end, ys, hy, a). rw end (
            Returns-map
              (copy_chain-IsBackwards (pos + length ws) ys ids' before hy
                (omega (arith, length-append output ws, a.same_length)))
              λ r (end', zs, hz, b). (
                omega (arith, end', length-append output ws),
                zs,
                hz,
                IsBackwards-append pos output ws xs ys zs a b,
              )))
