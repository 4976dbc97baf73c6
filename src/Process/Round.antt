-- ===== src/Process/Round.antt =====
-- A round of the loop of `Process`: the stack is pruned, and its entries are extended.
use gpu_moses.Prelude.{
  ℕ, ◌+◌, ◌≤◌, ◌<◌, ◌≡◌, refl, sym, ap, ◌∙◌, some, List, arith, min, length, set, get_elem?,
  get_elem?-some, get_elem?-set_self, get_elem?-set_ne, get_elem?_lt, All, All_get, ℕ_discrete, inl,
  inr,
}
use mathlib.Core.Option.{some-injective}
use gpu_moses.Outcome.{Returns, Returns-bind, Returns-map}
use gpu_moses.Cuda.Buffer.{size}
use gpu_moses.Cuda.Holds.{size-Holds}
use gpu_moses.Signed.{pos}
use gpu_moses.Manager.Reached.{can_extend_gap}
use gpu_moses.Hypothesis.{Hypothesis, fields}
use gpu_moses.Stack.{Stack}
use gpu_moses.Stack.Entries.{prune-Filled}
use gpu_moses.Process.Laws.{IsParts}
use gpu_moses.Process.{Parts, InputPath, waiting, indices, grid, process_stack}
use gpu_moses.Process.Extend.{Covers, IsSearch, NonEmpty, IsSearch-set}
use gpu_moses.Process.Paths.{IsPaths}
use gpu_moses.Process.Step.{IsSource, IsThread, waits, at_gap, Later, incomplete}
use gpu_moses.Process.Kernel.{
  Ext-Source, Ext-On, SomeLeads, synchronize-Extends, interleave-Extends,
}
use gpu_moses.Process.Grid.{
  All-widen, All-map, All-join_map, IsIn-map, IsIn-join_map, indices-lt, IsIn-indices,
}

module _ {ℓ κ} {S : Type ℓ} {T : Type κ} (parts : Parts S T) (Sound : Hypothesis S → Type ℓ)
    (Fits : T → Type κ) (max n : ℕ) (laws : IsParts parts Sound Fits n) (paths : List (InputPath T))
    (is_paths : IsPaths Fits n paths) where
  abbrev Stacks : Type ℓ
  Stacks = List (Stack (Hypothesis S))

  abbrev Search : Stacks → Type ℓ
  Search = IsSearch parts Sound Fits max n

  -- The stack `k`, or a later one, is not empty.
  abbrev Alive : ℕ → Stacks → Type ℓ
  Alive k stacks = (j : ℕ) × (k ≤ j) × NonEmpty parts Sound Fits max n j stacks

  module _ (k : ℕ) (entries : List (Hypothesis S)) (before_last : k < n) where
    grid-IsThread :
        All
          (IsThread parts Sound Fits max n laws paths is_paths k entries before_last)
          (grid parts (pos max) n paths (length entries))
    grid-IsThread = All-join_map _ _ (indices (length entries)) (
        All-widen (indices (length entries)) (indices-lt (length entries)) λ h inside.
          All-join_map _ _ (indices n) (
            All-widen (indices n) (indices-lt n) λ s first.
              All-map _ (waiting h s) (indices n)
                (All-widen (indices n) (indices-lt n) λ e last. waits inside last)))

    -- One of the threads extends the first entry by its first gap.
    grid_leads :
        (prev : Hypothesis S)
        → get_elem? entries 0 ≡ some prev
        → Covers parts Sound Fits max n k prev
        → SomeLeads parts Sound Fits max n laws paths is_paths k entries before_last
            (grid parts (pos max) n paths (length entries))
    grid_leads prev at covers =
        let g = (fields prev).bitmap.first_gap in
        let inside : g < n =
          (can_extend_gap max n laws.len _ (fields prev).bitmap covers.0 (
            incomplete parts Sound Fits max n laws paths is_paths k entries before_last prev
              covers)).0 in
        let (i, there) =
          IsIn-join_map _ 0 (waiting 0 g g) (indices (length entries))
            (IsIn-indices (length entries) 0 (get_elem?_lt entries 0 prev at))
            (IsIn-join_map _ g (waiting 0 g g) (indices n) (IsIn-indices n g inside)
              (IsIn-map (waiting 0 g) g (indices n) (IsIn-indices n g inside))) in
        (i, waiting 0 g g, there, at_gap at refl refl)

    -- What a launch makes of a stack that is not empty.
    grid-Alive :
        (stacks stacks' : Stacks) (s s' : Stack (Hypothesis S)) (xs : List (Hypothesis S))
        → get_elem? stacks k ≡ some s
        → size s.m_coll ≡ length xs
        → length entries ≡ min parts.stack_size (length xs)
        → All (Covers parts Sound Fits max n k) entries
        → (SomeLeads parts Sound Fits max n laws paths is_paths k entries before_last
              (grid parts (pos max) n paths (length entries))
            → Later parts Sound Fits max n laws paths is_paths k entries before_last stacks')
        → ((j : ℕ)
            → NonEmpty parts Sound Fits max n j (set stacks k s')
            → NonEmpty parts Sound Fits max n j stacks')
        → Alive k stacks
        → Alive (k + 1) stacks'
    grid-Alive stacks stacks' s s' xs at sized count covers on keep (j, from, there) =
        elim (ℕ_discrete k j) [
          | yes same ↦
              let same_stack : there.stack ≡ s =
                some-injective there.stack s
                  (sym there.at ∙ ap (get_elem? stacks) (sym same) ∙ at) in
              let (prev, first) = get_elem?-some entries 0 (
                omega (
                  arith,
                  laws.positive,
                  count,
                  sized,
                  there.some_hypo,
                  ap (λ (s : Stack (Hypothesis S)). size s.m_coll) same_stack,
                )) in
              let (j', later, there') =
                on (grid_leads prev first (All_get _ entries 0 prev covers first)) in
              (j', omega arith, there')
          | no differ ↦ (
            j,
            omega arith,
            keep j (record {
              stack = there.stack;
              at = get_elem?-set_ne stacks k j s' differ ∙ there.at;
              some_hypo = there.some_hypo;
            }),
          )
        ]

  pub process_stack-IsSearch :
      (schedule : List ℕ) (k : ℕ) (stacks : Stacks)
      → k < n
      → Search stacks
      → Returns
          (λ stacks'. Search stacks' × (Alive k stacks → Alive (k + 1) stacks'))
          (process_stack parts (pos max) n paths schedule k stacks)
  unfolding process_stack
  process_stack-IsSearch schedule k stacks before_last is =
      let (s, at) = get_elem?-some stacks k (omega (arith, is.many)) in
      let (xs, filled) = is.each k s at in
      rw at (
        Returns-bind
          (prune-Filled parts.recomb parts.better parts.stack_size laws.recomb_order
            laws.better_order laws.positive (Covers parts Sound Fits max n k) s xs filled)
          λ s' (entries, filled', count).
            let stacks₁ : Stacks = set stacks k s' in
            let source : IsSource parts Sound Fits max n laws paths is_paths k entries before_last
                stacks₁ =
              record {
                search =
                    IsSearch-set parts Sound Fits max n stacks k s' entries is (omega arith)
                      filled';
                stack = s';
                at = get_elem?-set_self stacks k s' (omega (arith, is.many));
                filled = filled';
              } in
            rw (size-Holds filled'.is_stack.holds) (
              Returns-bind
                (interleave-Extends parts Sound Fits max n laws paths is_paths k entries before_last
                  schedule (grid parts (pos max) n paths (length entries)) stacks₁
                  (grid-IsThread k entries before_last) source)
                λ r (is', ext, lead).
                  Returns-map
                    (synchronize-Extends parts Sound Fits max n laws paths is_paths k entries
                      before_last r.0 r.1 is'
                      (Ext-Source parts Sound Fits max n laws paths is_paths k entries before_last
                        stacks₁ r.1 source ext))
                    λ stacks' (ext', on). (
                      ext'.search,
                      grid-Alive k entries before_last stacks stacks' s s' xs at
                          (size-Holds filled.is_stack.holds) count filled'.all
                          (λ l. elim (lead l) [
                            | inl l' ↦ on l'
                            | inr there ↦
                                Ext-On parts Sound Fits max n laws paths is_paths k entries
                                  before_last r.1 stacks' ext' there
                          ])
                          (λ j there. ext'.kept j (ext.kept j there)),
                    )))
