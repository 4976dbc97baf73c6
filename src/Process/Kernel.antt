-- ===== src/Process/Kernel.antt =====
-- The threads of one launch of `ProcessStack`, in any order: no fault, and the search goes on.
use gpu_moses.Prelude.{
  ℕ, zero, suc, ◌+◌, ◌<◌, ◌≡◌, refl, sym, ap, ◌∙◌, ◌⊎◌, inl, inr, some, List, [], ◌∷◌, arith, set,
  get_elem?, get_elem?-some, get_elem?-set_self, get_elem?-set_ne, get_elem?_lt, lt→ltb, not-ltb,
  All, All_get, dec_lt, ℕ_discrete, Option-cases, none≢some,
}
use mathlib.Core.Path.{subst}
use mathlib.Core.Option.{some-injective}
use gpu_moses.Outcome.{Returns, returns, Returns-bind, Returns-map}
use gpu_moses.Cuda.Buffer.{Buffer, size}
use gpu_moses.Cuda.Holds.{size-Holds, read-Holds}
use gpu_moses.Range.{Range}
use gpu_moses.Signed.{pos}
use gpu_moses.Hypothesis.{Hypothesis, TargetPhrase}
use gpu_moses.Stack.{Stack}
use gpu_moses.Process.Laws.{IsParts}
use gpu_moses.Process.{
  Parts, InputPath, Thread, waiting, applying, ended, step, interleave, finish_loop, rounds_left,
  synchronize,
}
use gpu_moses.Process.Extend.{Extends, Extends-refl, Extends-trans}
use gpu_moses.Process.Apply.{extend_all-Extends}
use gpu_moses.Process.Paths.{IsPaths}
use gpu_moses.Process.Step.{
  IsSource, IsThread, waits, applies, has_ended, Leads, has_phrase, HasBegun, is_applying, is_ended,
  Later, start_thread-IsThread,
}

pub All-set {ℓ κ} :
    {A : Type ℓ} (P : A → Type κ) (xs : List A) (i : ℕ) (v : A)
    → All P xs
    → P v
    → All P (set xs i v)
All-set P [] i v h p = tt
All-set P (x ∷ xs) zero v h p = (p, h.1)
All-set P (x ∷ xs) (suc i) v h p = (h.0, All-set P xs i v h.1 p)

module _ {ℓ κ} {S : Type ℓ} {T : Type κ} (parts : Parts S T) (Sound : Hypothesis S → Type ℓ)
    (Fits : T → Type κ) (max n : ℕ) (laws : IsParts parts Sound Fits n) (paths : List (InputPath T))
    (is_paths : IsPaths Fits n paths) (k : ℕ) (entries : List (Hypothesis S))
    (before_last : k < n) where
  abbrev Stacks : Type ℓ
  Stacks = List (Stack (Hypothesis S))

  abbrev Is : Thread S T → Type (ℓ ⊔ κ)
  Is = IsThread parts Sound Fits max n laws paths is_paths k entries before_last

  abbrev Source : Stacks → Type ℓ
  Source = IsSource parts Sound Fits max n laws paths is_paths k entries before_last

  abbrev Lead : Thread S T → Type (ℓ ⊔ κ)
  Lead = Leads parts Sound Fits max n laws paths is_paths k entries before_last

  abbrev On : Stacks → Type ℓ
  On = Later parts Sound Fits max n laws paths is_paths k entries before_last

  abbrev Ext : Stacks → Stacks → Type ℓ
  Ext = Extends parts Sound Fits max n k

  pub Ext-Source : (before after : Stacks) → Source before → Ext before after → Source after
  Ext-Source before after source e = record {
    search = e.search;
    stack = source.stack;
    at = e.same k (omega arith) ∙ source.at;
    filled = source.filled;
  }

  pub Ext-On : (before after : Stacks) → Ext before after → On before → On after
  Ext-On before after e (j, later, there) = (j, later, e.kept j there)

  abbrev Begun : Thread S T → Type (ℓ ⊔ κ)
  Begun = HasBegun parts Sound Fits max n laws paths is_paths k entries before_last

  -- A round of the loop over target phrases.
  round :
      (prev : Hypothesis S) (r : Range) (tps : Buffer (TargetPhrase T)) (i : ℕ) (stacks : Stacks)
      → Is (applying prev r tps i)
      → Source stacks
      → i < size tps
      → Returns
          (λ p.
            (p.0 ≡ applying prev r tps (i + 1))
            × Is (applying prev r tps (i + 1))
            × Ext stacks p.1
            × On p.1)
          (step parts (pos max) n paths k (applying prev r tps i) stacks)
  unfolding step
  round prev r tps i stacks (applies {ts = ts} covers range ok h fit) source less =
      let (tp, at) = get_elem?-some ts i (omega (arith, size-Holds h)) in
      rw (lt→ltb i (size tps) less, read-Holds h i tp at)
        (Returns-bind
          (extend_all-Extends parts Sound Fits max n laws k prev r (tp ∷ []) stacks covers
            (All_get _ ts i tp fit at, tt) range ok source.search)
          λ stacks' (e, there).
            returns (refl, applies covers range ok h fit, e, there (omega arith)))

  phrase_left :
      {prev : Hypothesis S} {r : Range} {tps : Buffer (TargetPhrase T)} {i : ℕ}
      → Lead (applying prev r tps i)
      → i < size tps
  phrase_left (has_phrase less) = less

  ended_leads : Lead ended → ⊥
  ended_leads leads = elim leads [ ]

  -- The step of any thread.
  step-IsThread :
      (t : Thread S T) (stacks : Stacks)
      → Is t
      → Source stacks
      → Returns
          (λ p. Is p.0 × Begun p.0 × Ext stacks p.1 × (Lead t → Lead p.0 ⊎ On p.1))
          (step parts (pos max) n paths k t stacks)
  unfolding step
  step-IsThread (waiting hypo_ind start end) stacks (waits inside last) source =
      Returns-bind
        (start_thread-IsThread parts Sound Fits max n laws paths is_paths k entries before_last
          hypo_ind start end stacks inside last source)
        λ t (is, begun, leads). returns (
          is,
          begun,
          Extends-refl parts Sound Fits max n k stacks source.search,
          λ l. inl (leads l),
        )
  step-IsThread (applying prev r tps i) stacks is source = elim (dec_lt i (size tps)) [
    | yes less ↦ Returns-map (round prev r tps i stacks is source less) λ p (e, is', ext, on).
        (subst Is (sym e) is', subst Begun (sym e) is_applying, ext, λ leads. inr on)
    | no more ↦ rw (not-ltb i (size tps) (omega arith)) (
        returns (
          has_ended,
          is_ended,
          Extends-refl parts Sound Fits max n k stacks source.search,
          λ leads. absurd (omega (arith, phrase_left leads)),
        ))
  ]
  step-IsThread ended stacks is source = returns (
    has_ended,
    is_ended,
    Extends-refl parts Sound Fits max n k stacks source.search,
    λ leads. inl leads,
  )

  -- A thread that has started, to its end.
  finish_loop-Extends :
      (rounds : ℕ) (t : Thread S T) (stacks : Stacks)
      → Is t
      → Begun t
      → rounds_left parts (pos max) n paths t ≡ rounds
      → Source stacks
      → Returns
          (λ stacks'. Ext stacks stacks' × (Lead t → On stacks'))
          (finish_loop parts (pos max) n paths k rounds t stacks)
  unfolding finish_loop
  finish_loop-Extends zero (waiting _ _ _) stacks is begun left source = elim begun [ ]
  finish_loop-Extends (suc rounds) (waiting _ _ _) stacks is begun left source = elim begun [ ]
  finish_loop-Extends zero (applying prev r tps i) stacks is begun left source = returns (
    Extends-refl parts Sound Fits max n k stacks source.search,
    λ leads. absurd (omega (arith, left, phrase_left leads)),
  )
  finish_loop-Extends (suc rounds) (applying prev r tps i) stacks is begun left source =
      Returns-bind (round prev r tps i stacks is source (omega (arith, left)))
        λ p (e, is', ext, on).
          Returns-map
            (finish_loop-Extends rounds p.0 p.1 (subst Is (sym e) is')
              (subst Begun (sym e) is_applying)
              (ap (rounds_left parts (pos max) n paths) e ∙ omega (arith, left))
              (Ext-Source stacks p.1 source ext))
            λ stacks' (ext', on'). (
              Extends-trans parts Sound Fits max n k stacks p.1 stacks' ext ext',
              λ leads. Ext-On p.1 stacks' ext' on,
            )
  finish_loop-Extends zero ended stacks is begun left source = returns (
    Extends-refl parts Sound Fits max n k stacks source.search,
    λ leads. absurd (ended_leads leads),
  )
  finish_loop-Extends (suc rounds) ended stacks is begun left source = absurd (omega (arith, left))

  -- Some thread of the list leads on.
  abbrev pub SomeLeads : List (Thread S T) → Type (ℓ ⊔ κ)
  SomeLeads threads = (i : ℕ) × (t : Thread S T) × (get_elem? threads i ≡ some t) × Lead t

  -- All threads, to their ends.
  pub synchronize-Extends :
      (threads : List (Thread S T)) (stacks : Stacks)
      → All Is threads
      → Source stacks
      → Returns
          (λ stacks'. Ext stacks stacks' × (SomeLeads threads → On stacks'))
          (synchronize parts (pos max) n paths k threads stacks)
  unfolding synchronize
  synchronize-Extends [] stacks is source = returns (
    Extends-refl parts Sound Fits max n k stacks source.search,
    λ (i, t, at, leads). absurd (none≢some t at),
  )
  synchronize-Extends (t ∷ threads) stacks is source =
      Returns-bind (step-IsThread t stacks is.0 source) λ p (is_t, begun, ext, leads).
        Returns-bind
          (finish_loop-Extends (rounds_left parts (pos max) n paths p.0) p.0 p.1 is_t begun refl
            (Ext-Source stacks p.1 source ext))
          λ stacks' (ext', on).
            let ext₁ = Extends-trans parts Sound Fits max n k stacks p.1 stacks' ext ext' in
            Returns-map
              (synchronize-Extends threads stacks' is.1 (Ext-Source stacks stacks' source ext₁))
              λ stacks'' (ext'', on'). (
                Extends-trans parts Sound Fits max n k stacks stacks' stacks'' ext₁ ext'',
                leads_on t threads stacks'' on' λ l.
                    Ext-On stacks' stacks'' ext'' (elim (leads l) [
                      | inl l' ↦ on l'
                      | inr there ↦ Ext-On p.1 stacks' ext' there
                    ]),
              )
    where
      leads_on :
          (t : Thread S T) (threads : List (Thread S T)) (stacks : Stacks)
          → (SomeLeads threads → On stacks)
          → (Lead t → On stacks)
          → SomeLeads (t ∷ threads)
          → On stacks
      leads_on t threads stacks others this (zero, t', at, leads) =
          this (subst Lead (sym (some-injective t t' at)) leads)
      leads_on t threads stacks others this (suc i, t', at, leads) = others (i, t', at, leads)

  pub interleave-Extends :
      (schedule : List ℕ) (threads : List (Thread S T)) (stacks : Stacks)
      → All Is threads
      → Source stacks
      → Returns
          (λ r. All Is r.0 × Ext stacks r.1 × (SomeLeads threads → SomeLeads r.0 ⊎ On r.1))
          (interleave parts (pos max) n paths k schedule threads stacks)
  unfolding interleave
  interleave-Extends [] threads stacks is source =
      returns (is, Extends-refl parts Sound Fits max n k stacks source.search, λ l. inl l)
  interleave-Extends (i ∷ schedule) threads stacks is source =
      elim (Option-cases (get_elem? threads i)) [
        | inl missing ↦
            rw (interleave, missing) (interleave-Extends schedule threads stacks is source)
        | inr (t, at) ↦
            rw (interleave, at)
              (Returns-bind (step-IsThread t stacks (All_get Is threads i t is at) source)
                λ p (is_t, begun, ext, leads).
                  Returns-map
                    (interleave-Extends schedule (set threads i p.0) p.1
                      (All-set Is threads i p.0 is is_t) (Ext-Source stacks p.1 source ext))
                    λ r (is', ext', lead). (
                      is',
                      Extends-trans parts Sound Fits max n k stacks p.1 r.1 ext ext',
                      λ l. elim (next threads i t p.0 p.1 at leads l) [
                        | inl l' ↦ lead l'
                        | inr there ↦ inr (Ext-On p.1 r.1 ext' there)
                      ],
                    ))
      ]
    where
      next :
          (threads : List (Thread S T)) (i : ℕ) (t t' : Thread S T) (stacks : Stacks)
          → get_elem? threads i ≡ some t
          → (Lead t → Lead t' ⊎ On stacks)
          → SomeLeads threads
          → SomeLeads (set threads i t') ⊎ On stacks
      next threads i t t' stacks at leads (j, u, at', l) = elim (ℕ_discrete i j) [
        | yes same ↦
            let is_t : u ≡ t =
              some-injective u t (sym at' ∙ ap (get_elem? threads) (sym same) ∙ at) in
            elim (leads (subst Lead is_t l)) [
              | inl l' ↦
                  inl (i, t', get_elem?-set_self threads i t' (get_elem?_lt threads i t at), l')
              | inr there ↦ inr there
            ]
        | no differ ↦ inl (j, u, get_elem?-set_ne threads i j t' differ ∙ at', l)
      ]
