-- ===== src/Process/Step.antt =====
-- What the threads of one launch of `ProcessStack` keep, whatever their order, and which of them leads on.
use gpu_moses.Prelude.{
  ℕ, ◌≤◌, ◌<◌, ◌≡◌, refl, sym, ap, ◌∙◌, Bool, true, false, Option, none, some, List, arith, length,
  get_elem?, get_elem?-some, ltb, All, ltb-false, ◌==◌, not-==, if◌then◌else◌, All_get, ==_iff,
  true≢false, ltb→lt, none≢some,
}
use mathlib.Core.Option.{some-injective}
use gpu_moses.Outcome.{
  Outcome, done, or_fault, out_of_bounds, uninitialised, ◌>>=◌, Returns, returns, Returns-bind,
  Returns-inv, Returns-if, done-injective,
}
use gpu_moses.Cuda.Buffer.{Buffer, size, read}
use gpu_moses.Cuda.Holds.{Holds, size-Holds, read-Holds}
use gpu_moses.Range.{Range, IsRange}
use gpu_moses.Bitmap.{is_complete}
use gpu_moses.Bitmap.Invariant.{overlap-OverlapIs}
use gpu_moses.Signed.{pos}
use gpu_moses.Manager.{can_extend}
use gpu_moses.Manager.Reached.{Reached-IsGood, can_extend_gap}
use gpu_moses.Hypothesis.{Hypothesis, fields, TargetPhrase}
use gpu_moses.Stack.{Stack}
use gpu_moses.Stack.Entries.{Filled}
use gpu_moses.Process.Laws.{IsParts}
use gpu_moses.Process.{
  Parts, InputPath, Thread, waiting, applying, ended, get_input_path, start_thread,
}
use gpu_moses.Process.Paths.{Readable, IsPaths}
use gpu_moses.Process.Extend.{Covers, IsSearch, NonEmpty}

module _ {ℓ κ} {S : Type ℓ} {T : Type κ} (parts : Parts S T) (Sound : Hypothesis S → Type ℓ)
    (Fits : T → Type κ) (max n : ℕ) (laws : IsParts parts Sound Fits n) (paths : List (InputPath T))
    (is_paths : IsPaths Fits n paths) (k : ℕ) (entries : List (Hypothesis S))
    (before_last : k < n) where
  abbrev pub Stacks : Type ℓ
  Stacks = List (Stack (Hypothesis S))

  -- The stack that is extended holds these entries.
  pub record IsSource (stacks : Stacks) : Type ℓ where
    pub search : IsSearch parts Sound Fits max n stacks
    pub stack : Stack (Hypothesis S)
    pub at : get_elem? stacks k ≡ some stack
    pub filled :
        Filled parts.recomb parts.better parts.stack_size
          (Covers parts Sound Fits max n k)
          stack
          entries

  pub data IsThread : Thread S T → Type (ℓ ⊔ κ) where
    waits :
        {hypo_ind start end : ℕ}
        → hypo_ind < length entries
        → end < n
        → IsThread (waiting hypo_ind start end)
    applies :
        {prev : Hypothesis S} {r : Range} {tps : Buffer (TargetPhrase T)} {i : ℕ}
        {ts : List (TargetPhrase T)}
        → Covers parts Sound Fits max n k prev
        → IsRange n r
        → can_extend (pos max) (fields prev).path.end_pos (fields prev).bitmap r ≡ done true
        → Holds tps ts
        → All (λ tp. Fits tp.tp_scores) ts
        → IsThread (applying prev r tps i)
    has_ended : IsThread ended

  -- A thread that adds a hypothesis sooner or later: one for the first gap of an entry, or one that has a
  -- target phrase left.
  pub data Leads : Thread S T → Type (ℓ ⊔ κ) where
    at_gap :
        {hypo_ind start end : ℕ} {prev : Hypothesis S}
        → get_elem? entries hypo_ind ≡ some prev
        → start ≡ (fields prev).bitmap.first_gap
        → end ≡ (fields prev).bitmap.first_gap
        → Leads (waiting hypo_ind start end)
    has_phrase :
        {prev : Hypothesis S} {r : Range} {tps : Buffer (TargetPhrase T)} {i : ℕ}
        → i < size tps
        → Leads (applying prev r tps i)

  pub data HasBegun : Thread S T → Type (ℓ ⊔ κ) where
    is_applying :
        {prev : Hypothesis S} {r : Range} {tps : Buffer (TargetPhrase T)} {i : ℕ}
        → HasBegun (applying prev r tps i)
    is_ended : HasBegun ended

  -- A later stack is not empty.
  abbrev pub Later : Stacks → Type ℓ
  Later stacks = (j : ℕ) × (k < j) × NonEmpty parts Sound Fits max n j stacks

  pub incomplete :
      (prev : Hypothesis S)
      → Covers parts Sound Fits max n k prev
      → is_complete (fields prev).bitmap ≡ false
  unfolding is_complete
  incomplete prev (reached, count, sound) =
      let (bs, sized, v, good) = Reached-IsGood max n laws.len reached in
      not-== (size (fields prev).bitmap.bits) (fields prev).bitmap.num_words_covered
        (λ e. absurd (omega (arith, e, count, sized, size-Holds v.holds)))

  -- An extension that reads its words can be tested.
  tested :
      (prev : Hypothesis S) (r : Range)
      → Covers parts Sound Fits max n k prev
      → IsRange n r
      → Returns
          (λ _. Unit {0})
          (can_extend (pos max) (fields prev).path.end_pos (fields prev).bitmap r)
  unfolding can_extend
  tested prev r (reached, count, sound) range =
      let (bs, sized, v, good) = Reached-IsGood max n laws.len reached in
      Returns-bind (overlap-OverlapIs n r bs laws.len range sized (fields prev).bitmap v)
        λ b is. returns tt

  -- The extension of an entry by its first gap is not refused.
  gap_not_refused :
      {hypo_ind start end : ℕ} (prev : Hypothesis S)
      → Leads (waiting hypo_ind start end)
      → get_elem? entries hypo_ind ≡ some prev
      → Covers parts Sound Fits max n k prev
      → can_extend
          (pos max)
          (fields prev).path.end_pos
          (fields prev).bitmap
          (record { start_pos = start; end_pos = end })
        ≡ done false
      → ⊥
  gap_not_refused prev (at_gap {prev = prev'} at' starts ends) at covers e =
      let same : prev' ≡ prev = some-injective prev' prev (sym at' ∙ at) in
      let allowed =
        (can_extend_gap max n laws.len _ (fields prev).bitmap covers.0
          (incomplete prev covers)).1 in
      true≢false refl (done-injective true false (sym allowed ∙ rw (starts, ends, same) at e))

  begun :
      (start end : ℕ) (prev : Hypothesis S) (tps : Buffer (TargetPhrase T))
      (ts : List (TargetPhrase T)) (ok : Bool) (hypo_ind : ℕ)
      → Covers parts Sound Fits max n k prev
      → start ≤ end
      → end < n
      → get_elem? entries hypo_ind ≡ some prev
      → (size tps == 0) ≡ false
      → can_extend
          (pos max)
          (fields prev).path.end_pos
          (fields prev).bitmap
          (record { start_pos = start; end_pos = end })
        ≡ done ok
      → Holds tps ts
      → All (λ tp. Fits tp.tp_scores) ts
      → IsThread
          (if ok then applying prev (record { start_pos = start; end_pos = end }) tps 0 else ended)
        × HasBegun (
            if ok then applying prev (record { start_pos = start; end_pos = end }) tps 0 else ended)
        × (Leads (waiting hypo_ind start end)
            → Leads (
                if ok
                then applying prev (record { start_pos = start; end_pos = end }) tps 0
                else ended))
  begun start end prev tps ts true hypo_ind covers ordered inside at more e h fit = (
    applies covers (record { ordered = ordered; inside = inside }) e h fit,
    is_applying,
    λ leads. has_phrase (ground (arith, more)),
  )
  begun start end prev tps ts false hypo_ind covers ordered inside at more e h fit =
      (has_ended, is_ended, λ leads. absurd (gap_not_refused prev leads at covers e))

  -- The path of such an extension has target phrases.
  gap_has_phrases :
      {hypo_ind start end : ℕ} (path : InputPath T) (found : Option (Buffer (TargetPhrase T)))
      → Leads (waiting hypo_ind start end)
      → end < n
      → get_input_path n start end paths ≡ done path
      → path.target_phrases ≡ some found
      → (tps : Buffer (TargetPhrase T)) × (found ≡ some tps) × (0 < size tps)
  gap_has_phrases path found (at_gap {prev = prev} at starts ends) last e written =
      let g = (fields prev).bitmap.first_gap in
      let (tps, is, more) = is_paths.word_of g path (rw (← ends) last) (rw (starts, ends) at e) in
      (tps, some-injective found (some tps) (sym written ∙ is), more)

  gap_ordered : {hypo_ind start end : ℕ} → Leads (waiting hypo_ind start end) → end < start → ⊥
  gap_ordered (at_gap at starts ends) past = absurd (omega arith)

  abbrev Begins : ℕ → ℕ → ℕ → Outcome (Thread S T) → Type (ℓ ⊔ κ)
  Begins hypo_ind start end =
      Returns (λ t. IsThread t × HasBegun t × (Leads (waiting hypo_ind start end) → Leads t))

  pub start_thread-IsThread :
      (hypo_ind start end : ℕ) (stacks : Stacks)
      → hypo_ind < length entries
      → end < n
      → IsSource stacks
      → Begins hypo_ind start end (start_thread parts (pos max) n paths k hypo_ind start end stacks)
  unfolding start_thread
  start_thread-IsThread hypo_ind start end stacks inside last source =
      Returns-if (ltb end start)
        (λ past.
          returns
            (has_ended, is_ended, λ leads. absurd (gap_ordered leads (ltb→lt end start past))))
        λ ordered.
          let le : start ≤ end = ltb-false end start ordered in
          let (path, e, is) = is_paths.path_of start end le last in
          rw (e, is.written) (with_found path is.found e is.written is.ranged is.readable le)
    where
      with_found :
          (path : InputPath T) (found : Option (Buffer (TargetPhrase T)))
          → get_input_path n start end paths ≡ done path
          → path.target_phrases ≡ some found
          → path.range ≡ some (record { start_pos = start; end_pos = end })
          → Readable Fits found
          → start ≤ end
          → Begins hypo_ind start end (elim found [
            | none ↦ done ended
            | some tps ↦ if size tps == 0 then done ended else (do
              stack ← or_fault (get_elem? stacks k) out_of_bounds
              prev ← read stack.m_coll hypo_ind
              range ← or_fault path.range uninitialised
              ok ← can_extend (pos max) (fields prev).path.end_pos (fields prev).bitmap range
              done (if ok then applying prev range tps 0 else ended))
          ])
      with_found path none e written ranged readable le = returns (
        has_ended,
        is_ended,
        λ leads.
            let (tps, is, more) = gap_has_phrases path none leads last e written in
            absurd (none≢some tps is),
      )
      with_found path (some tps) e written ranged (ts, h, fit) le =
          Returns-if (size tps == 0)
            (λ empty. returns (
              has_ended,
              is_ended,
              λ leads.
                  let (tps', is, more) = gap_has_phrases path (some tps) leads last e written in
                  absurd (
                    omega (
                      arith,
                      more,
                      ap size (some-injective tps tps' is),
                      (==_iff (size tps) 0).0 empty,
                    )),
            ))
            λ more.
              let (prev, at) = get_elem?-some entries hypo_ind inside in
              let covers = All_get _ entries hypo_ind prev source.filled.all at in
              let range : Range = record { start_pos = start; end_pos = end } in
              let (ok, tested_as, _) =
                Returns-inv (tested prev range covers (record { ordered = le; inside = last })) in
              rw
                (
                  source.at,
                  read-Holds source.filled.is_stack.holds hypo_ind prev at,
                  ranged,
                  tested_as,
                )
                (returns
                  (begun start end prev tps ts ok hypo_ind covers le last at more tested_as h fit))
