-- ===== src/Features/Layout.antt =====
-- No two features share a score, and no two stateful features share a byte of the state.
use gpu_moses.Prelude.{
  ℕ, ◌+◌, ◌%◌, ◌≤◌, ◌<◌, ◌≡◌, refl, sym, Bool, List, [], ◌∷◌, ◌++◌, arith, All, All-append, Ordered,
}
use mathlib.Core.Path.{subst}
use gpu_moses.Range.{word}
use gpu_moses.Features.{
  ClassId, distortion, word_penalty, phrase_dictionary_memory, unknown_word_penalty, language_model,
  Line, Feature, FeatureFunctions, Names, put,
}

-- Spans that lie one after the other, below `total`.
module _ {ℓ} {F : Type ℓ} (start size : F → ℕ) where
  abbrev pub IsPacked : List F → ℕ → Type 0
  IsPacked fs total =
      Ordered (λ f g. start f + size f ≤ start g) fs × All (λ f. start f + size f ≤ total) fs

  All-widen :
      (fs : List F) (total total' : ℕ)
      → total ≤ total'
      → All (λ f. start f + size f ≤ total) fs
      → All (λ f. start f + size f ≤ total') fs
  All-widen [] total total' le a = tt
  All-widen (f ∷ fs) total total' le a = (omega (arith, a.0), All-widen fs total total' le a.1)

  Ordered-snoc :
      (fs : List F) (g : F)
      → Ordered (λ f g. start f + size f ≤ start g) fs
      → All (λ f. start f + size f ≤ start g) fs
      → Ordered (λ f g. start f + size f ≤ start g) (fs ++ g ∷ [])
  Ordered-snoc [] g o a = (tt, tt)
  Ordered-snoc (f ∷ fs) g o a = (All-append _ fs (g ∷ []) o.0 (a.0, tt), Ordered-snoc fs g o.1 a.1)

  IsPacked-snoc :
      (fs : List F) (g : F) (total : ℕ)
      → IsPacked fs total
      → start g ≡ total
      → IsPacked (fs ++ g ∷ []) (total + size g)
  IsPacked-snoc fs g total p e = (
    Ordered-snoc fs g p.0 (All-widen fs total (start g) (omega arith) p.1),
    All-append _ fs (g ∷ []) (All-widen fs total (total + size g) (omega arith) p.1)
        (omega arith, tt),
  )

module _ {ℓ} {W : Type ℓ} (same : W → W → Bool) (names : Names W) where
  pub record IsLayout (s : FeatureFunctions W) : Type 0 where
    pub scores :
        IsPacked (λ (f : Feature W). f.start_ind) (λ f. f.num_scores) s.ffs s.total_num_scores
    pub states :
        IsPacked
          (λ (f : Feature W). f.state_offset)
          (λ f. f.state_size)
          s.stateful_ffs
          s.total_state_size

  small : (n : ℕ) → n < word → n % word ≡ n
  small n less = ground arith

  -- Where the sums do not wrap.
  pub put-IsLayout :
      (class_id : ClassId) (line : Line W) (s : FeatureFunctions W)
      → s.total_num_scores + line.num_features < word
      → s.total_state_size + 8 < word
      → IsLayout s
      → IsLayout (put same names class_id line s)
  unfolding put
  put-IsLayout distortion line s scores_fit states_fit l = record {
    scores =
        subst (IsPacked _ _ _) (sym (small _ scores_fit))
          (IsPacked-snoc _ _ s.ffs _ s.total_num_scores l.scores refl);
    states =
        subst (IsPacked _ _ _) (sym (small _ states_fit))
          (IsPacked-snoc _ _ s.stateful_ffs _ s.total_state_size l.states refl);
  }
  put-IsLayout language_model line s scores_fit states_fit l = record {
    scores =
        subst (IsPacked _ _ _) (sym (small _ scores_fit))
          (IsPacked-snoc _ _ s.ffs _ s.total_num_scores l.scores refl);
    states =
        subst (IsPacked _ _ _) (sym (small _ states_fit))
          (IsPacked-snoc _ _ s.stateful_ffs _ s.total_state_size l.states refl);
  }
  put-IsLayout word_penalty line s scores_fit states_fit l = record {
    scores =
        subst (IsPacked _ _ _) (sym (small _ scores_fit))
          (IsPacked-snoc _ _ s.ffs _ s.total_num_scores l.scores refl);
    states = l.states;
  }
  put-IsLayout unknown_word_penalty line s scores_fit states_fit l = record {
    scores =
        subst (IsPacked _ _ _) (sym (small _ scores_fit))
          (IsPacked-snoc _ _ s.ffs _ s.total_num_scores l.scores refl);
    states = l.states;
  }
  put-IsLayout phrase_dictionary_memory line s scores_fit states_fit l = record {
    scores =
        subst (IsPacked _ _ _) (sym (small _ scores_fit))
          (IsPacked-snoc _ _ s.ffs _ s.total_num_scores l.scores refl);
    states = l.states;
  }
