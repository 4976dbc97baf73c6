-- ===== src/Decoder/Debug.antt =====
-- `DebugTPSArr`, which `Process` calls between `Lookup` and the search.
use gpu_moses.Prelude.{
  ℕ, zero, suc, ◌*◌, ◌≤◌, ◌<◌, ◌≡◌, refl, ◌∙◌, Option, none, some, List, [], ◌∷◌, arith, length,
  get_elem?, replicate, none≢some,
}
use mathlib.Core.Option.{some-injective}
use mathlib.Core.Path.{subst}
use gpu_moses.Outcome.{
  Outcome, fault, uninitialised, or_fault, ◌>>=◌, Returns, returns, Returns-inv,
}
use gpu_moses.Cuda.Buffer.{Buffer, size}
use gpu_moses.Cuda.Holds.{Holds, size-Holds}
use gpu_moses.Signed.{ℤ}
use gpu_moses.Manager.{range_to_ind}
use gpu_moses.Manager.Paths.{range_to_ind-lt}
use gpu_moses.Hypothesis.{TargetPhrase}
use gpu_moses.PhraseTable.{Table}
use gpu_moses.PhraseTable.Spec.{IsTable}
use gpu_moses.Process.{Parts, InputPath}
use gpu_moses.InputPaths.{raw_path, fill_paths}
use gpu_moses.InputPaths.Filled.{IsLaunch, fill_paths-LooksUp}
use gpu_moses.InputPaths.Unwritten.{Ends, fill_paths-Kept}
use gpu_moses.Decoder.{debug_tps_arr, process}

get_elem?-replicate {ℓ} :
    {A : Type ℓ} (n i : ℕ) (a : A) → i < n → get_elem? (replicate n a) i ≡ some a
get_elem?-replicate zero i a less = absurd (omega arith)
get_elem?-replicate (suc n) zero a less = refl
get_elem?-replicate (suc n) (suc i) a less = get_elem?-replicate n i a (omega arith)

both_read {κ} :
    {A : Type 0} {B : Type κ} (m : Outcome (Unit {0})) (range : Option A) (tps : Option B)
    → m ≡ fault uninitialised
    → (do r ← or_fault range uninitialised; p ← or_fault tps uninitialised; m) ≡ fault uninitialised
both_read m none tps e = refl
both_read m (some r) none e = refl
both_read m (some r) (some p) e = e

module _ {κ} {T : Type κ} where
  -- An element that was never written is read, or another one before it.
  debug_tps_arr-raw_path :
      (paths : List (InputPath T)) (i : ℕ)
      → get_elem? paths i ≡ some raw_path
      → debug_tps_arr paths ≡ fault uninitialised
  unfolding debug_tps_arr
  debug_tps_arr-raw_path [] i at = absurd (none≢some _ at)
  debug_tps_arr-raw_path (path ∷ paths) zero at = rw (some-injective path raw_path at) refl
  debug_tps_arr-raw_path (path ∷ paths) (suc i) at =
      both_read (debug_tps_arr paths) path.range path.target_phrases
        (debug_tps_arr-raw_path paths i at)

  module _ {ℓ} {S : Type ℓ} (parts : Parts S T) (max_distortion : ℤ) where
    -- On an input of two words or more, and a phrase table that holds some entries, whatever the order of the
    -- threads of the first two launches: these end without a fault, but on the table of paths that they leave,
    -- `DebugTPSArr` reads an element that was never written, and so `Process` ends with this fault.
    pub process-debug_tps_arr :
        (entries : List (List ℕ × TargetPhrase T)) (pt : Table (TargetPhrase T)) (input : Buffer ℕ)
        (ids : List ℕ) (init_phrase : Buffer ℕ) (init_order lookup_order : List (ℕ × ℕ))
        (schedules : ℕ → List ℕ)
        → IsTable entries pt
        → Holds input ids
        → 2 ≤ length ids
        → IsLaunch (length ids) init_order
        → IsLaunch (length ids) lookup_order
        → Returns
            (λ paths. debug_tps_arr paths ≡ fault uninitialised)
            (fill_paths (size input) input pt init_order lookup_order)
          × (process parts max_distortion input pt init_phrase init_order lookup_order schedules
              ≡ fault uninitialised)
    unfolding process
    process-debug_tps_arr entries pt input ids init_phrase init_order lookup_order schedules table
          holds more first second =
        let n = length ids in
        let (paths, e, _) = Returns-inv (
          fill_paths-LooksUp n entries pt table input ids holds refl init_order lookup_order first
            second) in
        let kept =
          fill_paths-Kept n 1 0 (omega arith) (omega (arith, more)) input pt init_order lookup_order
            first.inside second.inside in
        let raw =
          subst (Ends _) e kept
          ∙ get_elem?-replicate (n * n) (range_to_ind n 1 0) raw_path
              (range_to_ind-lt n 1 0 (omega (arith, more)) (omega (arith, more))) in
        let unwritten = debug_tps_arr-raw_path paths (range_to_ind n 1 0) raw in
        rw (size-Holds holds, e) (returns unwritten, rw unwritten refl)
