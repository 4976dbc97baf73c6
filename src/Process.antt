-- ===== src/Process.antt =====
-- `Manager::Process` of Manager.cu, with Stacks.h and Stacks.cu: the kernels that it launches, up to the
-- search for the best hypothesis.
pub mod Laws
pub mod Extend
pub mod Apply
pub mod Paths
pub mod Step
pub mod Kernel
pub mod Grid
pub mod Round
pub mod Run
use gpu_moses.Prelude.{
  ℕ, zero, suc, ◌+◌, ◌-◌, Bool, Option, none, some, List, [], ◌∷◌, ◌++◌, map, length, get_elem?,
  set, ltb, ◌==◌, if◌then◌else◌,
}
use gpu_moses.Outcome.{Outcome, done, out_of_bounds, uninitialised, or_fault, ◌>>=◌}
use gpu_moses.Cuda.Buffer.{Buffer, size, read}
use gpu_moses.Range.{Range}
use gpu_moses.Distortion.{init_range}
use gpu_moses.Signed.{ℤ}
use gpu_moses.Manager.{range_to_ind, can_extend}
use gpu_moses.Hypothesis.{Hypothesis, Fields, fields, TargetPhrase, init_first}
use gpu_moses.Stack.{Stack, prune, add}
use gpu_moses.Stack
use gpu_moses.Search.{extend_all}

-- The vector of input paths is never constructed, so that a member is none until it is written.
pub record InputPath {κ} (T : Type κ) : Type κ where
  pub target_phrases : Option (Option (Buffer (TargetPhrase T)))
  pub range : Option Range

-- A thread of `ProcessStack`: before it starts, with its indices; at the target phrase `i` of an extension
-- that is allowed; or after its return.
pub data Thread {ℓ κ} (S : Type ℓ) (T : Type κ) : Type (ℓ ⊔ κ) where
  waiting : ℕ → ℕ → ℕ → Thread S T
  applying : Hypothesis S → Range → Buffer (TargetPhrase T) → ℕ → Thread S T
  ended : Thread S T

-- `GetInputPath`.
unfoldable pub get_input_path {κ} :
    {T : Type κ} → ℕ → ℕ → ℕ → List (InputPath T) → Outcome (InputPath T)
unfolding range_to_ind
get_input_path input_size start end paths =
    or_fault (get_elem? paths (range_to_ind input_size start end)) out_of_bounds

abbrev pub indices : ℕ → List ℕ
indices zero = []
indices (suc n) = indices n ++ n ∷ []

abbrev pub join_map {ℓ κ} : {A : Type ℓ} {B : Type κ} → (A → List B) → List A → List B
join_map f [] = []
join_map f (a ∷ rest) = f a ++ join_map f rest

-- `Stacks::Back`.
abbrev pub back {ℓ} : {A : Type ℓ} → List A → Outcome A
back stacks = or_fault (get_elem? stacks (length stacks - 1)) out_of_bounds

-- What the decoder is made of: the sums of scores, the features, the two orderers, the size of the beam, and
-- what the constructor of a hypothesis allocates.
pub record Parts {ℓ κ} (S : Type ℓ) (T : Type κ) : Type (ℓ ⊔ κ) where
  pub add_phrase_scores : S → T → Outcome S
  pub add_scores : S → S → Outcome S
  pub evaluate_when_applied : Hypothesis S → Outcome (Hypothesis S)
  pub recomb : Hypothesis S → Hypothesis S → Bool
  pub better : Hypothesis S → Hypothesis S → Bool
  pub stack_size : ℕ
  pub allocated : Fields S

-- The parts, the limit on reordering, the number of words of the input, and its paths.
module _ {ℓ κ} {S : Type ℓ} {T : Type κ} (parts : Parts S T) (max_distortion : ℤ) (input_size : ℕ)
    (paths : List (InputPath T)) where
  -- `ProcessStack`, up to CAN EXTEND. The range of the path is that of `start` and `end`.
  unfoldable pub start_thread : ℕ → ℕ → ℕ → ℕ → List (Stack (Hypothesis S)) → Outcome (Thread S T)
  unfolding get_input_path can_extend read
  start_thread stack_ind hypo_ind start end stacks = if ltb end start then done ended else (do
    path ← get_input_path input_size start end paths
    found ← or_fault path.target_phrases uninitialised
    elim found [
      | none ↦ done ended
      | some tps ↦ if size tps == 0 then done ended else (do
        stack ← or_fault (get_elem? stacks stack_ind) out_of_bounds
        prev ← read stack.m_coll hypo_ind
        range ← or_fault path.range uninitialised
        ok ← can_extend max_distortion (fields prev).path.end_pos (fields prev).bitmap range
        done (if ok then applying prev range tps 0 else ended))
    ])

  -- What a thread does between two points where others may come in: its start, or a round of the loop.
  unfoldable pub step :
      ℕ
      → Thread S T
      → List (Stack (Hypothesis S))
      → Outcome (Thread S T × List (Stack (Hypothesis S)))
  unfolding start_thread read extend_all
  step stack_ind (waiting hypo_ind start end) stacks = do
    t ← start_thread stack_ind hypo_ind start end stacks
    done (t, stacks)
  step stack_ind (applying prev range tps i) stacks =
      if ltb i (size tps)
      then (do
        tp ← read tps i
        stacks' ←
            extend_all parts.add_phrase_scores parts.add_scores parts.evaluate_when_applied
              parts.recomb parts.better parts.stack_size parts.allocated (tp ∷ []) prev range stacks
        done (applying prev range tps (i + 1), stacks'))
      else done (ended, stacks)
  step stack_ind ended stacks = done (ended, stacks)

  -- The threads in the order of a schedule.
  unfoldable pub interleave :
      ℕ
      → List ℕ
      → List (Thread S T)
      → List (Stack (Hypothesis S))
      → Outcome (List (Thread S T) × List (Stack (Hypothesis S)))
  unfolding step
  interleave stack_ind [] threads stacks = done (threads, stacks)
  interleave stack_ind (i ∷ schedule) threads stacks = elim (get_elem? threads i) [
    | none ↦ interleave stack_ind schedule threads stacks
    | some t ↦ do
      (t', stacks') ← step stack_ind t stacks
      interleave stack_ind schedule (set threads i t') stacks'
  ]

  -- The rest of a thread: the rounds that are left.
  unfoldable pub finish_loop :
      ℕ → ℕ → Thread S T → List (Stack (Hypothesis S)) → Outcome (List (Stack (Hypothesis S)))
  unfolding step
  finish_loop stack_ind zero t stacks = done stacks
  finish_loop stack_ind (suc rounds) t stacks = do
    (t', stacks') ← step stack_ind t stacks
    finish_loop stack_ind rounds t' stacks'

  abbrev pub rounds_left : Thread S T → ℕ
  rounds_left (waiting hypo_ind start end) = 0
  rounds_left (applying prev range tps i) = size tps - i
  rounds_left ended = 0

  -- `cudaDeviceSynchronize`: all threads have returned.
  unfoldable pub synchronize :
      ℕ → List (Thread S T) → List (Stack (Hypothesis S)) → Outcome (List (Stack (Hypothesis S)))
  unfolding step finish_loop
  synchronize stack_ind [] stacks = done stacks
  synchronize stack_ind (t ∷ threads) stacks = do
    (t', stacks') ← step stack_ind t stacks
    stacks'' ← finish_loop stack_ind (rounds_left t') t' stacks'
    synchronize stack_ind threads stacks''

  -- `dim3 blocks(stackSize, inputSize, inputSize)`.
  abbrev pub grid : ℕ → List (Thread S T)
  grid count =
      join_map (λ h. join_map (λ s. map (waiting h s) (indices input_size)) (indices input_size))
        (indices count)

  -- A round of the loop of `Process`: `PruneStack`, and `ProcessStack` on the grid.
  unfoldable pub process_stack :
      List ℕ → ℕ → List (Stack (Hypothesis S)) → Outcome (List (Stack (Hypothesis S)))
  unfolding prune interleave synchronize
  process_stack schedule stack_ind stacks = do
    stack ← or_fault (get_elem? stacks stack_ind) out_of_bounds
    stack' ← prune parts.recomb parts.better parts.stack_size stack
    (threads, stacks') ←
        interleave stack_ind schedule (grid (size stack'.m_coll)) (set stacks stack_ind stack')
    synchronize stack_ind threads stacks'

  -- The loop, with a schedule for each of its rounds.
  unfoldable pub process_loop :
      (ℕ → List ℕ) → ℕ → ℕ → List (Stack (Hypothesis S)) → Outcome (List (Stack (Hypothesis S)))
  unfolding process_stack
  process_loop schedules zero stack_ind stacks = done stacks
  process_loop schedules (suc rounds) stack_ind stacks = do
    stacks' ← process_stack (schedules stack_ind) stack_ind stacks
    process_loop schedules rounds (stack_ind + 1) stacks'

  -- The loop of `Stacks::Init`.
  unfoldable pub init_stacks : ℕ → Outcome (List (Stack (Hypothesis S)))
  unfolding Stack.new
  init_stacks zero = done []
  init_stacks (suc num_stacks) = do
    stack ← Stack.new parts.recomb parts.better parts.stack_size
    stacks ← init_stacks num_stacks
    done (stack ∷ stacks)

  -- `Process1stStack`.
  unfoldable pub process_first_stack :
      Buffer ℕ → List (Stack (Hypothesis S)) → Outcome (List (Stack (Hypothesis S)))
  unfolding init_first add
  process_first_stack init_phrase stacks = do
    hypo ← init_first init_range init_phrase parts.allocated
    stack ← or_fault (get_elem? stacks 0) out_of_bounds
    stack' ← add parts.recomb parts.better parts.stack_size hypo stack
    done (set stacks 0 stack')

  -- `Process`, from `Stacks::Init` to the end of the loop.
  unfoldable pub fill_stacks : Buffer ℕ → (ℕ → List ℕ) → Outcome (List (Stack (Hypothesis S)))
  unfolding init_stacks process_first_stack process_loop
  fill_stacks init_phrase schedules = do
    stacks ← init_stacks (input_size + 1)
    stacks' ← process_first_stack init_phrase stacks
    process_loop schedules input_size 0 stacks'
