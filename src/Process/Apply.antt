-- ===== src/Process/Apply.antt =====
-- A step of a thread of `ProcessStack` keeps the invariant of the stacks.
use mathlib.Core.Path.{subst}
use gpu_moses.Prelude.{
  ℕ, ◌≤◌, ◌<◌, ◌≡◌, refl, ap, sym, ◌∙◌, List, [], ◌∷◌, arith, get_elem?-some, true, All, length,
  set,
}
use gpu_moses.Outcome.{
  done, Returns, returns, Returns-bind, Returns-map, Returns-inv, done-injective,
}
use gpu_moses.Range.{Range, IsRange}
use gpu_moses.Bitmap.{Bitmap}
use gpu_moses.Bitmap.Cover.{cover, covered-cover, covered-le, length-cover}
use gpu_moses.Bitmap.Invariant.{init-IsValid, init_from-IsValid, covered-replicate, span}
use gpu_moses.Cuda.Buffer.{Buffer}
use gpu_moses.Distortion.{init_range}
use gpu_moses.Signed.{pos}
use gpu_moses.Manager.{can_extend}
use gpu_moses.Manager.Reorder.{accepted}
use gpu_moses.Manager.Reached.{initial, extended, Reached-IsGood}
use gpu_moses.Hypothesis.{Hypothesis, fields, TargetPhrase, init_first, init_extension}
use gpu_moses.Stack.{Stack}
use gpu_moses.Stack.Entries.{add-Filled}
use gpu_moses.Search.{extend_all}
use gpu_moses.Process.{Parts}
use gpu_moses.Process.Laws.{IsParts}
use gpu_moses.Process.Extend.{
  Covers, IsSearch, NonEmpty, Extends, Extends-refl, Extends-trans, Extends-set,
}

module _ {ℓ κ} {S : Type ℓ} {T : Type κ} (parts : Parts S T) (Sound : Hypothesis S → Type ℓ)
    (Fits : T → Type κ) (max n : ℕ) (laws : IsParts parts Sound Fits n) where
  pub init_first-Covers :
      (init_phrase : Buffer ℕ)
      → Returns
          (Covers parts Sound Fits max n 0)
          (init_first init_range init_phrase parts.allocated)
  unfolding init_first
  init_first-Covers init_phrase =
      let (bm, e, v) =
        Returns-inv (init-IsValid n parts.allocated.bitmap.bits laws.len laws.storage) in
      let (h, ran, sound) = Returns-inv (laws.first init_phrase) in
      let made = sym ran ∙ rw e refl in
      rw e (
        returns (
          initial laws.storage e,
          v.counted ∙ covered-replicate n,
          subst Sound (done-injective _ _ made) sound,
        ))

  -- An extension that `ProcessStack` allows covers more words, and at most all.
  init_extension-Covers :
      (k : ℕ) (prev : Hypothesis S) (r : Range) (tp : TargetPhrase T)
      → Covers parts Sound Fits max n k prev
      → Fits tp.tp_scores
      → IsRange n r
      → can_extend (pos max) (fields prev).path.end_pos (fields prev).bitmap r ≡ done true
      → Returns
          (λ h. (j : ℕ) × Covers parts Sound Fits max n j h × (k < j) × (j ≤ n))
          (init_extension parts.add_phrase_scores parts.add_scores parts.evaluate_when_applied prev
            tp r parts.allocated)
  init_extension-Covers k prev r tp (reached, count, sound) fits range ok =
      let (bs, sized, v, good) = Reached-IsGood max n laws.len reached in
      let free = (accepted max n r bs laws.len range sized _ (fields prev).bitmap v ok).0 in
      let (bm, e, valid) = Returns-inv (
        init_from-IsValid n r bs laws.len range sized parts.allocated.bitmap.bits
          (fields prev).bitmap laws.storage v free) in
      Returns-map (laws.extension prev tp r bm sound fits e) λ h (sound', same_bitmap, same_path). (
        bm.num_words_covered,
        (
          rw (same_bitmap, same_path) (extended r reached range ok laws.storage e),
          ap (λ (m : Bitmap). m.num_words_covered) same_bitmap,
          sound',
        ),
        omega (
          arith,
          valid.counted,
          count,
          v.counted,
          covered-cover r.start_pos (span r) bs (omega (arith, range.ordered, range.inside)) free,
          range.ordered,
        ),
        omega (
          arith,
          valid.counted,
          covered-le (cover r.start_pos (span r) bs),
          length-cover r.start_pos (span r) bs,
        ),
      )

  -- The two orderers are orders, the beam is not 0, and there is a limit on reordering; an extension of a
  -- sound hypothesis by a target phrase whose scores fit is scored without a fault, stays sound, and has the
  -- coverage and the path that it was given. Then `ProcessStack` adds the extensions of a sound hypothesis on
  -- the stack `k` by a range that is allowed, one for each of some target phrases whose scores fit, to later
  -- stacks without a fault. The invariant of the stacks stays, the stacks up to `k` stay as they are, and if
  -- there was a phrase, a later stack is not empty.
  pub extend_all-Extends :
      (k : ℕ) (prev : Hypothesis S) (r : Range) (tps : List (TargetPhrase T))
      (stacks : List (Stack (Hypothesis S)))
      → Covers parts Sound Fits max n k prev
      → All (λ tp. Fits tp.tp_scores) tps
      → IsRange n r
      → can_extend (pos max) (fields prev).path.end_pos (fields prev).bitmap r ≡ done true
      → IsSearch parts Sound Fits max n stacks
      → Returns
          (λ stacks'.
            Extends parts Sound Fits max n k stacks stacks'
            × (0 < length tps → (j : ℕ) × (k < j) × NonEmpty parts Sound Fits max n j stacks'))
          (extend_all parts.add_phrase_scores parts.add_scores parts.evaluate_when_applied
            parts.recomb parts.better parts.stack_size parts.allocated tps prev r stacks)
  unfolding extend_all
  extend_all-Extends k prev r [] stacks covers fit range ok is =
      returns (Extends-refl parts Sound Fits max n k stacks is, λ more. absurd (omega arith))
  extend_all-Extends k prev r (tp ∷ tps) stacks covers fit range ok is =
      Returns-bind (init_extension-Covers k prev r tp covers fit.0 range ok)
        λ h (j, now, more, most).
          let (s, at) = get_elem?-some stacks j (omega (arith, is.many)) in
          let (xs, filled) = is.each j s at in
          rw (now.1, at)
            (Returns-bind
              (add-Filled parts.recomb parts.better parts.stack_size laws.recomb_order
                laws.better_order laws.positive (Covers parts Sound Fits max n j) h s xs filled now)
              λ s' (ys, filled', some_hypo).
                let (extends, there) =
                  Extends-set parts Sound Fits max n k stacks j s' ys is more (omega arith) filled'
                    some_hypo in
                Returns-map
                  (extend_all-Extends k prev r tps (set stacks j s') covers fit.1 range ok
                    extends.search)
                  λ stacks' (extends', _). (
                    Extends-trans parts Sound Fits max n k stacks (set stacks j s') stacks' extends
                        extends',
                    λ _. (j, more, extends'.kept j there),
                  ))
