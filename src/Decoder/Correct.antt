-- ===== src/Decoder/Correct.antt =====
-- The decoder finds a translation whenever there is one for every word.
use gpu_moses.Prelude.{
  ℕ, ◌+◌, ◌-◌, ◌≤◌, ◌<◌, ◌≡◌, refl, sym, ap, ◌∙◌, true, Option, none, some, List, arith, length,
  take, drop, All, [], ◌∷◌, Bool-cases, inl, inr,
}
use gpu_moses.Outcome.{done, ◌>>=◌, Returns, Returns-bind, done-injective}
use gpu_moses.Cuda.Buffer.{Buffer, size}
use gpu_moses.Cuda.Holds.{Holds, size-Holds}
use gpu_moses.Text.{str_eq}
use gpu_moses.Bitmap.{is_complete}
use gpu_moses.Signed.{pos}
use gpu_moses.Hypothesis.{Hypothesis, fields, TargetPhrase}
use gpu_moses.Stack.{Stack}
use gpu_moses.PhraseTable.{Table}
use gpu_moses.PhraseTable.Spec.{targets, Held, IsTable}
use gpu_moses.Process.Laws.{IsParts}
use gpu_moses.Process.{Parts, InputPath, get_input_path, back, fill_stacks}
use gpu_moses.Process.Paths.{Readable, IsPaths}
use gpu_moses.Process.Run.{fill_stacks-back}
use gpu_moses.InputPaths.{fill_paths}
use gpu_moses.InputPaths.Filled.{IsLaunch, LooksUp, fill_paths-LooksUp}

-- Every word of the input has an entry.
abbrev pub EveryWord {κ} : {T : Type κ} → List (List ℕ × TargetPhrase T) → List ℕ → Type 0
EveryWord entries ids =
    (g : ℕ) → g < length ids → 0 < length (targets (take (g + 1 - g) (drop g ids)) entries)

module _ {κ} {T : Type κ} (Fits : T → Type κ) where
  targets-fit :
      (words : List ℕ) (entries : List (List ℕ × TargetPhrase T))
      → All (λ e. Fits e.1.tp_scores) entries
      → All (λ tp. Fits tp.tp_scores) (targets words entries)
  targets-fit words [] fit = tt
  targets-fit words ((source, tp) ∷ entries) fit = elim (Bool-cases (str_eq source words)) [
    | inl same ↦ rw same (fit.0, targets-fit words entries fit.1)
    | inr differ ↦ rw differ (targets-fit words entries fit.1)
  ]

  Held-Readable :
      (found : Option (Buffer (TargetPhrase T))) (ts : List (TargetPhrase T))
      → Held found ts
      → All (λ tp. Fits tp.tp_scores) ts
      → Readable Fits found
  Held-Readable none ts h fit = tt
  Held-Readable (some tps) ts h fit = (ts, h, fit)

  Held-some :
      (found : Option (Buffer (TargetPhrase T))) (ts : List (TargetPhrase T))
      → Held found ts
      → 0 < length ts
      → (tps : Buffer (TargetPhrase T)) × (found ≡ some tps) × (0 < size tps)
  Held-some none ts h more = absurd (omega (arith, more, ap length h))
  Held-some (some tps) ts h more = (tps, refl, omega (arith, more, size-Holds h))

  module _ (n : ℕ) (entries : List (List ℕ × TargetPhrase T)) (pt : Table (TargetPhrase T))
      (table : IsTable entries pt) (input : Buffer ℕ) (ids : List ℕ) (holds : Holds input ids)
      (sized : length ids ≡ n) (words : EveryWord entries ids)
      (fit : All (λ e. Fits e.1.tp_scores) entries) where
    LooksUp-IsPaths :
        (paths : List (InputPath T))
        → ((start end : ℕ)
            → start ≤ end
            → end < n
            → (path : InputPath T) × (get_input_path n start end paths ≡ done path)
              × (path.range ≡ some (record { start_pos = start; end_pos = end }))
              × LooksUp n entries pt table input ids holds sized start end path)
        → IsPaths Fits n paths
    LooksUp-IsPaths paths h = record {
      path_of = λ start end ordered inside.
          let (path, e, ranged, (found, written, held)) = h start end ordered inside in
          (
            path,
            e,
            record {
              found = found;
              written = written;
              readable = Held-Readable found _ held (targets-fit _ entries fit);
              ranged = ranged;
            },
          );
      word_of = λ g path inside e.
          let (path', e', ranged, (found, written, held)) = h g g (omega arith) inside in
          let (tps, is, more) = Held-some found _ held (words g (omega (arith, sized))) in
          let same : path' ≡ path = done-injective path' path (sym e' ∙ e) in
          (tps, ap (λ (p : InputPath T). p.target_phrases) (sym same) ∙ written ∙ ap some is, more);
    }

module _ {ℓ κ} {S : Type ℓ} {T : Type κ} (parts : Parts S T) (Sound : Hypothesis S → Type ℓ)
    (Fits : T → Type κ) (max n : ℕ) (laws : IsParts parts Sound Fits n) where
  -- The two orderers are orders, the beam is not 0, and there is a limit on reordering. The first hypothesis
  -- is sound; an extension of a sound one by a target phrase whose scores fit is scored without a fault, stays
  -- sound, and has the coverage and the path that it was given. The scores of all entries of the phrase table
  -- fit. The input is not empty, and every word of it has a translation in the phrase table. Then the launches
  -- that `Process` makes before and after its debug output, which is left out here, end without a fault,
  -- whatever the order in which the threads of each launch run. The last stack is not empty, and all its
  -- hypotheses cover the whole input.
  pub fill_paths-fill_stacks :
      (entries : List (List ℕ × TargetPhrase T)) (pt : Table (TargetPhrase T)) (input : Buffer ℕ)
      (ids : List ℕ) (init_phrase : Buffer ℕ) (init_order lookup_order : List (ℕ × ℕ))
      (schedules : ℕ → List ℕ)
      → IsTable entries pt
      → All (λ e. Fits e.1.tp_scores) entries
      → Holds input ids
      → length ids ≡ n
      → EveryWord entries ids
      → IsLaunch n init_order
      → IsLaunch n lookup_order
      → Returns
          (λ stacks.
            (s : Stack (Hypothesis S)) × (back stacks ≡ done s)
            × (xs : List (Hypothesis S)) × Holds s.m_coll xs
            × (0 < length xs)
            × All (λ h. is_complete (fields h).bitmap ≡ true) xs)
          (fill_paths (size input) input pt init_order lookup_order >>= λ paths.
            fill_stacks parts (pos max) (size input) paths init_phrase schedules)
  fill_paths-fill_stacks entries pt input ids init_phrase init_order lookup_order schedules table
        fit holds sized words first second =
      rw (size-Holds holds, sized)
        (Returns-bind
          (fill_paths-LooksUp n entries pt table input ids holds sized init_order lookup_order first
            second)
          λ paths filled.
            fill_stacks-back parts Sound Fits max n laws paths
              (LooksUp-IsPaths Fits n entries pt table input ids holds sized words fit paths filled)
              init_phrase schedules)
