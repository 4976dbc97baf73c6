-- ===== src/InputPaths/Filled.antt =====
-- Every range gets its path and the target phrases of its words, in whatever order the threads run.
use gpu_moses.Prelude.{
  ℕ, zero, suc, ◌+◌, ◌-◌, ◌*◌, ◌≤◌, ◌<◌, ◌≡◌, refl, sym, ap, ◌∙◌, ◌⊎◌, inl, inr, Option, some, List,
  [], ◌∷◌, arith, length, length-set, length-replicate, replicate, get_elem?, get_elem?-some,
  get_elem?-set_self, get_elem?-set_ne, set, All, take, drop, lt→ltb, not-ltb, dec_lt, ℕ_discrete,
  none≢some,
}
use mathlib.Core.Path.{subst}
use mathlib.Core.Option.{some-injective}
use gpu_moses.Outcome.{Outcome, done, Returns, returns, Returns-bind, Returns-map}
use gpu_moses.Cuda.Buffer.{Buffer}
use gpu_moses.Cuda.Holds.{Holds}
use gpu_moses.Manager.{range_to_ind}
use gpu_moses.Manager.Paths.{range_to_ind-lt, range_to_ind-injective}
use gpu_moses.Hypothesis.{TargetPhrase}
use gpu_moses.PhraseTable.{Table}
use gpu_moses.PhraseTable.Spec.{targets, Held, IsTable}
use gpu_moses.PhraseTable.Load.{lookup_phrases-targets}
use gpu_moses.Process.{InputPath, get_input_path}
use gpu_moses.Process.Grid.{IsIn}
use gpu_moses.InputPaths.{
  launch, init_path_range, raw_path, init_input_paths, lookup_thread, fill_paths,
}

-- Threads of which each writes to the cell of its own range.
module _ {ℓ κ μ} {A : Type ℓ} (n : ℕ) (Before : ℕ → ℕ → A → Type κ) (After : ℕ → ℕ → A → Type μ)
    (thread : ℕ × ℕ → List A → Outcome (List A))
    (works : (start end : ℕ) (cells : List A) (a : A)
      → start ≤ end
      → end < n
      → get_elem? cells (range_to_ind n start end) ≡ some a
      → Before start end a
      → Returns
          (λ cells'.
            (a' : A) × (cells' ≡ set cells (range_to_ind n start end) a')
            × Before start end a'
            × After start end a')
          (thread (start, end) cells))
    (rests : (start end : ℕ) (cells : List A)
      → end < start
      → thread (start, end) cells ≡ done cells) where
  -- Every cell of a range is right, and those that were visited are done.
  record Cells (Visited : ℕ → ℕ → Type 0) (cells : List A) : Type (ℓ ⊔ κ ⊔ μ) where
    many : length cells ≡ n * n
    cell :
        (start end : ℕ)
        → start ≤ end
        → end < n
        → (a : A) × (get_elem? cells (range_to_ind n start end) ≡ some a)
          × Before start end a
          × (Visited start end → After start end a)

  abbrev WithOne : (ℕ → ℕ → Type 0) → ℕ → ℕ → ℕ → ℕ → Type 0
  WithOne Visited s e start end = Visited start end ⊎ ((s ≡ start) × (e ≡ end))

  Cells-set :
      (Visited : ℕ → ℕ → Type 0) (cells : List A) (s e : ℕ) (a : A)
      → Cells Visited cells
      → s ≤ e
      → e < n
      → Before s e a
      → After s e a
      → Cells (WithOne Visited s e) (set cells (range_to_ind n s e) a)
  Cells-set Visited cells s e a c ordered inside before after = record {
    many = length-set cells (range_to_ind n s e) a ∙ c.many;
    cell = λ start end ordered' inside'.
        elim (ℕ_discrete (range_to_ind n s e) (range_to_ind n start end)) [
          | yes same ↦
              let (starts, ends) = range_to_ind-injective n s e start end inside inside' same in
              (
                a,
                ap (get_elem? (set cells (range_to_ind n s e) a)) (sym same)
                    ∙ get_elem?-set_self cells (range_to_ind n s e) a
                        (omega (arith, c.many, range_to_ind-lt n s e (omega arith) inside)),
                subst (λ e. Before start e a) ends (subst (λ s. Before s e a) starts before),
                λ visited.
                    subst (λ e. After start e a) ends (subst (λ s. After s e a) starts after),
              )
          | no differ ↦
              let (b, at, is, was) = c.cell start end ordered' inside' in
              (
                b,
                get_elem?-set_ne cells (range_to_ind n s e) (range_to_ind n start end) a differ
                    ∙ at,
                is,
                λ visited. elim visited [
                  | inl earlier ↦ was earlier
                  | inr (starts, ends) ↦ absurd (differ (rw (starts, ends) refl))
                ],
              )
        ];
  }

  Cells-widen :
      (V W : ℕ → ℕ → Type 0) (cells : List A)
      → ((start end : ℕ) → start ≤ end → W start end → V start end)
      → Cells V cells
      → Cells W cells
  Cells-widen V W cells f c = record {
    many = c.many;
    cell = λ start end ordered inside.
        let (a, at, is, was) = c.cell start end ordered inside in
        (a, at, is, λ w. was (f start end ordered w));
  }

  visit :
      (V : ℕ → ℕ → Type 0) (order : List (ℕ × ℕ)) (cells : List A)
      → All (λ t. t.1 < n) order
      → Cells V cells
      → Returns
          (Cells (λ start end. V start end ⊎ IsIn (start, end) order))
          (launch thread order cells)
  unfolding launch
  visit V [] cells inside c = returns (
      Cells-widen V _ cells
        (λ start end ordered v. elim v [ inl v' ↦ v' | inr (i, at) ↦ absurd (none≢some _ at) ]) c)
  visit V ((s, e) ∷ order) cells inside c = elim (dec_lt e s) [
    | yes past ↦ rw (rests s e cells past) (
        Returns-map (visit V order cells inside.1 c) λ cells' c'.
          Cells-widen _ _ cells'
            (λ start end ordered v. elim v [
              | inl v' ↦ inl v'
              | inr there ↦ inr (others s e start end order (λ a b. absurd (omega arith)) there)
            ])
            c')
    | no ordered ↦
        let (a, at, is, was) = c.cell s e (omega arith) inside.0 in
        Returns-bind (works s e cells a (omega arith) inside.0 at is)
          λ cells₁ (a', written, is', done').
            Returns-map
              (visit (WithOne V s e) order cells₁ inside.1 (
                subst (Cells (WithOne V s e)) (sym written)
                  (Cells-set V cells s e a' c (omega arith) inside.0 is' done')))
              λ cells' c'.
                Cells-widen _ _ cells'
                  (λ start end ordered' v. elim v [
                    | inl v' ↦ inl (inl v')
                    | inr there ↦ here s e start end order there
                  ])
                  c'
  ]
    where
      others :
          (s e start end : ℕ) (order : List (ℕ × ℕ))
          → (s ≡ start → e ≡ end → ⊥)
          → IsIn (start, end) ((s, e) ∷ order)
          → IsIn (start, end) order
      others s e start end order differ (zero, at) =
          let same : (s, e) ≡ (start, end) = some-injective _ _ at in
          absurd (differ (ap (λ (p : ℕ × ℕ). p.0) same) (ap (λ (p : ℕ × ℕ). p.1) same))
      others s e start end order differ (suc i, at) = (i, at)

      here :
          (s e start end : ℕ) (order : List (ℕ × ℕ))
          → IsIn (start, end) ((s, e) ∷ order)
          → WithOne V s e start end ⊎ IsIn (start, end) order
      here s e start end order (zero, at) =
          let same : (s, e) ≡ (start, end) = some-injective _ _ at in
          inl (inr (ap (λ (p : ℕ × ℕ). p.0) same, ap (λ (p : ℕ × ℕ). p.1) same))
      here s e start end order (suc i, at) = inr (i, at)

-- All threads of a launch, in any order.
pub record IsLaunch (n : ℕ) (order : List (ℕ × ℕ)) : Type 0 where
  pub inside : All (λ (t : ℕ × ℕ). t.1 < n) order
  pub each : (start end : ℕ) → start ≤ end → end < n → IsIn (start, end) order

module _ {κ} {T : Type κ} (n : ℕ) where
  abbrev Ranged : ℕ → ℕ → InputPath T → Type 0
  Ranged start end path = path.range ≡ some (record { start_pos = start; end_pos = end })

  init_path_range-Ranged :
      (start end : ℕ) (paths : List (InputPath T)) (path : InputPath T)
      → start ≤ end
      → end < n
      → get_elem? paths (range_to_ind n start end) ≡ some path
      → Unit {0}
      → Returns
          (λ paths'.
            (path' : InputPath T) × (paths' ≡ set paths (range_to_ind n start end) path')
            × Unit {0}
            × Ranged start end path')
          (init_path_range n (start, end) paths)
  unfolding init_path_range get_input_path
  init_path_range-Ranged start end paths path ordered inside at _ =
      rw (not-ltb end start ordered, at) (returns (_, refl, tt, refl))

  init_path_range_rests :
      (start end : ℕ) (paths : List (InputPath T))
      → end < start
      → init_path_range n (start, end) paths ≡ done paths
  unfolding init_path_range
  init_path_range_rests start end paths past = rw (lt→ltb end start past) refl

  module _ (entries : List (List ℕ × TargetPhrase T)) (pt : Table (TargetPhrase T))
      (table : IsTable entries pt) (input : Buffer ℕ) (ids : List ℕ) (holds : Holds input ids)
      (sized : length ids ≡ n) where
    -- What the file has for the words of the range.
    abbrev pub LooksUp : ℕ → ℕ → InputPath T → Type κ
    LooksUp start end path =
        (found : Option (Buffer (TargetPhrase T))) × (path.target_phrases ≡ some found)
        × Held found (targets (take (end + 1 - start) (drop start ids)) entries)

    lookup_thread-LooksUp :
        (start end : ℕ) (paths : List (InputPath T)) (path : InputPath T)
        → start ≤ end
        → end < n
        → get_elem? paths (range_to_ind n start end) ≡ some path
        → Ranged start end path
        → Returns
            (λ paths'.
              (path' : InputPath T) × (paths' ≡ set paths (range_to_ind n start end) path')
              × Ranged start end path'
              × LooksUp start end path')
            (lookup_thread n input pt (start, end) paths)
    unfolding lookup_thread get_input_path
    lookup_thread-LooksUp start end paths path ordered inside at ranged =
        rw (not-ltb end start ordered) (
          Returns-bind
            (lookup_phrases-targets entries pt input ids start end table holds ordered
              (omega (arith, sized)))
            λ tps held. rw at (returns (_, refl, ranged, (tps, refl, held))))

    lookup_thread_rests :
        (start end : ℕ) (paths : List (InputPath T))
        → end < start
        → lookup_thread n input pt (start, end) paths ≡ done paths
    unfolding lookup_thread
    lookup_thread_rests start end paths past = rw (lt→ltb end start past) refl

    -- If the phrase table holds some entries and the input is in storage, then `InitInputPaths` and `Lookup`
    -- end without a fault, whatever the order of the threads of each. Afterwards the path of every range of the
    -- input has this range and the target phrases that the entries have for its words.
    pub fill_paths-LooksUp :
        (init_order lookup_order : List (ℕ × ℕ))
        → IsLaunch n init_order
        → IsLaunch n lookup_order
        → Returns
            (λ paths.
              (start end : ℕ)
              → start ≤ end
              → end < n
              → (path : InputPath T) × (get_input_path n start end paths ≡ done path)
                × (path.range ≡ some (record { start_pos = start; end_pos = end }))
                × LooksUp start end path)
            (fill_paths n input pt init_order lookup_order)
    unfolding fill_paths init_input_paths get_input_path
    fill_paths-LooksUp init_order lookup_order first second =
        Returns-bind
          (visit n (λ s e p. Unit {0}) Ranged (init_path_range n) init_path_range-Ranged
            init_path_range_rests (λ s e. ⊥) init_order (replicate (n * n) raw_path) first.inside
            (record {
              many = length-replicate (n * n) raw_path;
              cell = λ start end ordered inside.
                  let (path, at) =
                    get_elem?-some (replicate (n * n) raw_path) (range_to_ind n start end) (
                      omega (
                        arith,
                        length-replicate (n * n) (raw_path {T = T}),
                        range_to_ind-lt n start end (omega arith) inside,
                      )) in
                  (path, at, tt, λ v. absurd v);
            }))
          λ paths c.
            Returns-map
              (visit n Ranged LooksUp (lookup_thread n input pt) lookup_thread-LooksUp
                lookup_thread_rests (λ s e. ⊥) lookup_order paths second.inside
                (record {
                  many = c.many;
                  cell = λ start end ordered inside.
                      let (path, at, _, ranged) = c.cell start end ordered inside in
                      (path, at, ranged (inr (first.each start end ordered inside)), λ v. absurd v);
                }))
              λ paths' c' start end ordered inside.
                let (path, at, ranged, done') = c'.cell start end ordered inside in
                (path, rw at refl, ranged, done' (inr (second.each start end ordered inside)))
