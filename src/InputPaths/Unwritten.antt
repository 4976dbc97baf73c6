-- ===== src/InputPaths/Unwritten.antt =====
-- The cells of the table of input paths that belong to no range: the end comes before the start.
use gpu_moses.Prelude.{
  ℕ, ◌*◌, ◌≤◌, ◌<◌, ◌≡◌, refl, ◌∙◌, List, [], ◌∷◌, arith, get_elem?, get_elem?-set_ne, set, All,
  lt→ltb, not-ltb, dec_lt, replicate,
}
use gpu_moses.Outcome.{Outcome, done, fault, ◌>>=◌}
use gpu_moses.Cuda.Buffer.{Buffer}
use gpu_moses.Manager.{range_to_ind}
use gpu_moses.Manager.Paths.{range_to_ind-injective}
use gpu_moses.Hypothesis.{TargetPhrase}
use gpu_moses.PhraseTable.{Table, lookup_phrases}
use gpu_moses.Process.{InputPath, get_input_path}
use gpu_moses.InputPaths.{
  launch, init_path_range, raw_path, init_input_paths, lookup_thread, fill_paths,
}

-- If the run ends with a value, the value satisfies `P`.
abbrev pub Ends {ℓ κ} : {A : Type ℓ} → (A → Type κ) → Outcome A → Type κ
Ends P (done a) = P a
Ends P (fault e) = Unit

Ends-bind {ℓ κ μ} :
    {A : Type ℓ} {B : Type κ} (P : B → Type μ) (m : Outcome A) (f : A → Outcome B)
    → ((a : A) → Ends P (f a))
    → Ends P (m >>= f)
Ends-bind P (done a) f next = next a
Ends-bind P (fault e) f next = tt

module _ {κ} {T : Type κ} (n start end : ℕ) (past : end < start) (inside : start < n) where
  abbrev Kept : List (InputPath T) → List (InputPath T) → Type κ
  Kept before after =
      get_elem? after (range_to_ind n start end) ≡ get_elem? before (range_to_ind n start end)

  set-Kept :
      (s e : ℕ) (paths : List (InputPath T)) (path : InputPath T)
      → s ≤ e
      → e < n
      → Kept paths (set paths (range_to_ind n s e) path)
  set-Kept s e paths path ordered last =
      get_elem?-set_ne paths (range_to_ind n s e) (range_to_ind n start end) path λ same.
        let (starts, ends) = range_to_ind-injective n s e start end last (omega arith) same in
        absurd (omega arith)

  Kept-bind :
      (before : List (InputPath T)) (m : Outcome (List (InputPath T)))
      (f : List (InputPath T) → Outcome (List (InputPath T)))
      → Ends (Kept before) m
      → ((a : List (InputPath T)) → Ends (Kept a) (f a))
      → Ends (Kept before) (m >>= f)
  Kept-bind before (fault e) f k next = tt
  Kept-bind before (done a) f k next = through (f a) (next a)
    where
      through : (m : Outcome (List (InputPath T))) → Ends (Kept a) m → Ends (Kept before) m
      through (done b) k' = k' ∙ k
      through (fault e) k' = tt

  launch-Kept :
      (thread : ℕ × ℕ → List (InputPath T) → Outcome (List (InputPath T)))
      (works : (s e : ℕ) (paths : List (InputPath T))
        → e < n
        → Ends (Kept paths) (thread (s, e) paths))
      (order : List (ℕ × ℕ)) (paths : List (InputPath T))
      → All (λ t. t.1 < n) order
      → Ends (Kept paths) (launch thread order paths)
  unfolding launch
  launch-Kept thread works [] paths last = refl
  launch-Kept thread works ((s, e) ∷ order) paths last =
      Kept-bind paths (thread (s, e) paths) (launch thread order) (works s e paths last.0)
        λ a. launch-Kept thread works order a last.1

  init_path_range-Kept :
      (s e : ℕ) (paths : List (InputPath T))
      → e < n
      → Ends (Kept paths) (init_path_range n (s, e) paths)
  unfolding init_path_range
  init_path_range-Kept s e paths last = elim (dec_lt e s) [
    | yes before ↦ rw (lt→ltb e s before) refl
    | no ordered ↦ rw (not-ltb e s (omega arith)) (
        Ends-bind (Kept paths) (get_input_path n s e paths) _
          λ path. set-Kept s e paths _ (omega arith) last)
  ]

  lookup_thread-Kept :
      (input : Buffer ℕ) (pt : Table (TargetPhrase T)) (s e : ℕ) (paths : List (InputPath T))
      → e < n
      → Ends (Kept paths) (lookup_thread n input pt (s, e) paths)
  unfolding lookup_thread
  lookup_thread-Kept input pt s e paths last = elim (dec_lt e s) [
    | yes before ↦ rw (lt→ltb e s before) refl
    | no ordered ↦ rw (not-ltb e s (omega arith)) (
        Ends-bind (Kept paths) (lookup_phrases input s e pt) _ λ tps.
          Ends-bind (Kept paths) (get_input_path n s e paths) _
            λ path. set-Kept s e paths _ (omega arith) last)
  ]

  -- Both launches leave the cell as it was when the table was made.
  pub fill_paths-Kept :
      (input : Buffer ℕ) (pt : Table (TargetPhrase T)) (init_order lookup_order : List (ℕ × ℕ))
      → All (λ t. t.1 < n) init_order
      → All (λ t. t.1 < n) lookup_order
      → Ends (Kept (replicate (n * n) raw_path)) (fill_paths n input pt init_order lookup_order)
  unfolding fill_paths init_input_paths
  fill_paths-Kept input pt init_order lookup_order first second =
      Kept-bind _ (launch (init_path_range n) init_order (replicate (n * n) raw_path)) _
        (launch-Kept (init_path_range n) init_path_range-Kept init_order _ first)
        λ a.
          launch-Kept (lookup_thread n input pt) (lookup_thread-Kept input pt) lookup_order a second
