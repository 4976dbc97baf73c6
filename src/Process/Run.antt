-- ===== src/Process/Run.antt =====
-- The launches of `Process` from `Stacks::Init` on: they end without a fault and fill the last stack.
use gpu_moses.Prelude.{
  ℕ, zero, suc, ◌+◌, ◌-◌, ◌≤◌, ◌<◌, ◌≡◌, refl, ap, true, List, [], arith, length, get_elem?-some,
  get_elem?-set_self, get_elem?_lt, All, All_get, ==_self,
}
use mathlib.Core.Path.{subst}
use gpu_moses.Outcome.{done, Returns, returns, Returns-bind, Returns-map}
use gpu_moses.Cuda.Buffer.{Buffer}
use gpu_moses.Cuda.Holds.{Holds, size-Holds}
use gpu_moses.Bitmap.{is_complete}
use gpu_moses.Signed.{pos}
use gpu_moses.Manager.Reached.{Reached-IsGood}
use gpu_moses.Hypothesis.{Hypothesis, fields}
use gpu_moses.Stack.{Stack}
use gpu_moses.Stack.Entries.{new-Filled, add-Filled}
use gpu_moses.Stack.Prune.{IsStack}
use gpu_moses.Process.Laws.{IsParts}
use gpu_moses.Process.{
  Parts, InputPath, process_loop, init_stacks, process_first_stack, fill_stacks, back,
}
use gpu_moses.Process.Round.{process_stack-IsSearch}
use gpu_moses.Process.Apply.{init_first-Covers}
use gpu_moses.Process.Extend.{Covers, IsSearch, NonEmpty, IsSearch-set}
use gpu_moses.Process.Paths.{IsPaths}
use gpu_moses.Process.Grid.{All-widen}

module _ {ℓ κ} {S : Type ℓ} {T : Type κ} (parts : Parts S T) (Sound : Hypothesis S → Type ℓ)
    (Fits : T → Type κ) (max n : ℕ) (laws : IsParts parts Sound Fits n) (paths : List (InputPath T))
    (is_paths : IsPaths Fits n paths) where
  abbrev Stacks : Type ℓ
  Stacks = List (Stack (Hypothesis S))

  abbrev Search : Stacks → Type ℓ
  Search = IsSearch parts Sound Fits max n

  -- The stack `k`, or a later one, is not empty.
  abbrev Alive : ℕ → Stacks → Type ℓ
  Alive k stacks = (j : ℕ) × (k ≤ j) × NonEmpty parts Sound Fits max n j stacks

  process_loop-IsSearch :
      (schedules : ℕ → List ℕ) (rounds k : ℕ) (stacks : Stacks)
      → k + rounds ≡ n
      → Search stacks
      → Alive k stacks
      → Returns
          (λ stacks'. Search stacks' × Alive n stacks')
          (process_loop parts (pos max) n paths schedules rounds k stacks)
  unfolding process_loop
  process_loop-IsSearch schedules zero k stacks e is alive =
      returns (is, subst (λ k. Alive k stacks) (omega (arith, e)) alive)
  process_loop-IsSearch schedules (suc rounds) k stacks e is alive =
      Returns-bind
        (process_stack-IsSearch parts Sound Fits max n laws paths is_paths (schedules k) k stacks
          (omega (arith, e)) is)
        λ stacks' (is', next).
          process_loop-IsSearch schedules rounds (k + 1) stacks' (omega (arith, e)) is' (next alive)

  init_stacks-IsStack :
      (m : ℕ)
      → Returns
          (λ stacks.
            (length stacks ≡ m)
            × All (λ s. IsStack parts.recomb parts.better parts.stack_size s []) stacks)
          (init_stacks parts (pos max) n paths m)
  unfolding init_stacks
  init_stacks-IsStack zero = returns (refl, tt)
  init_stacks-IsStack (suc m) =
      Returns-bind
        (new-Filled parts.recomb parts.better parts.stack_size (λ h. Unit {0}) laws.positive)
        λ stack filled.
          Returns-bind (init_stacks-IsStack m)
            λ stacks (many, each). returns (ap suc many, (filled.is_stack, each))

  process_first_stack-IsSearch :
      (init_phrase : Buffer ℕ) (stacks : Stacks)
      → Search stacks
      → Returns
          (λ stacks'. Search stacks' × Alive 0 stacks')
          (process_first_stack parts (pos max) n paths init_phrase stacks)
  unfolding process_first_stack
  process_first_stack-IsSearch init_phrase stacks is =
      Returns-bind (init_first-Covers parts Sound Fits max n laws init_phrase) λ h covers.
        let (s, at) = get_elem?-some stacks 0 (omega (arith, is.many)) in
        let (xs, filled) = is.each 0 s at in
        rw at (
          Returns-bind
            (add-Filled parts.recomb parts.better parts.stack_size laws.recomb_order
              laws.better_order laws.positive (Covers parts Sound Fits max n 0) h s xs filled
              covers)
            λ s' (ys, filled', more). returns (
              IsSearch-set parts Sound Fits max n stacks 0 s' ys is (omega arith) filled',
              (
                0,
                omega arith,
                record {
                  stack = s';
                  at = get_elem?-set_self stacks 0 s' (omega (arith, is.many));
                  some_hypo = omega (arith, more, size-Holds filled'.is_stack.holds);
                },
              ),
            ))

  -- The two orderers are orders, the beam is not 0, and there is a limit on reordering. The first hypothesis
  -- is sound; an extension of a sound one by a target phrase whose scores fit is scored without a fault, stays
  -- sound, and has the coverage and the path that it was given. The input is not empty, every range of it has
  -- its path, with target phrases whose scores fit, and every word has one. Then the launches of `Process` from
  -- `Stacks::Init` on end without a fault, whatever the order in which the threads run. Every stack holds
  -- sound hypotheses that the allowed extensions lead to and that cover as many words as the stack is for, and
  -- the last stack, which is for all words, is not empty.
  pub fill_stacks-IsSearch :
      (init_phrase : Buffer ℕ) (schedules : ℕ → List ℕ)
      → Returns
          (λ stacks.
            IsSearch parts Sound Fits max n stacks × NonEmpty parts Sound Fits max n n stacks)
          (fill_stacks parts (pos max) n paths init_phrase schedules)
  unfolding fill_stacks
  fill_stacks-IsSearch init_phrase schedules =
      Returns-bind (init_stacks-IsStack (n + 1)) λ stacks (many, each).
        Returns-bind
          (process_first_stack-IsSearch init_phrase stacks (record {
            many = many;
            each = λ j s at. ([], record { is_stack = All_get _ stacks j s each at; all = tt });
          }))
          λ stacks' (is, alive).
            Returns-map (process_loop-IsSearch schedules n 0 stacks' (omega arith) is alive)
              λ stacks'' (is', (j, from, there)).
                let last : j ≡ n =
                  omega (arith, from, is'.many, get_elem?_lt stacks'' j there.stack there.at) in
                (is', subst (λ j. NonEmpty parts Sound Fits max n j stacks'') last there)

  all_words :
      (h : Hypothesis S) → Covers parts Sound Fits max n n h → is_complete (fields h).bitmap ≡ true
  unfolding is_complete
  all_words h (reached, count, sound) =
      let (bs, sized, v, good) = Reached-IsGood max n laws.len reached in
      rw (size-Holds v.holds, sized, count) (==_self n)

  -- Under these conditions `Back` is a stack of complete translations, and there is one.
  pub fill_stacks-back :
      (init_phrase : Buffer ℕ) (schedules : ℕ → List ℕ)
      → Returns
          (λ stacks.
            (s : Stack (Hypothesis S)) × (back stacks ≡ done s)
            × (xs : List (Hypothesis S)) × Holds s.m_coll xs
            × (0 < length xs)
            × All (λ h. is_complete (fields h).bitmap ≡ true) xs)
          (fill_stacks parts (pos max) n paths init_phrase schedules)
  fill_stacks-back init_phrase schedules =
      Returns-map (fill_stacks-IsSearch init_phrase schedules) λ stacks (is, there).
        let (xs, filled) = is.each n there.stack there.at in
        (
          there.stack,
          rw (← last stacks is) (rw there.at refl),
          xs,
          filled.is_stack.holds,
          omega (arith, there.some_hypo, size-Holds filled.is_stack.holds),
          All-widen xs filled.all all_words,
        )
    where
      last : (stacks : Stacks) → Search stacks → n ≡ length stacks - 1
      last stacks is = omega (arith, is.many)
