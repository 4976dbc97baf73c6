-- ===== src/Process/Extend.antt =====
-- One extension of a hypothesis, with the invariant of all stacks: the stack `j` holds hypotheses that are sound, that
-- the allowed extensions lead to, and that cover `j` words.
use mathlib.Core.Option.{some-injective}
use mathlib.Core.Path.{subst}
use gpu_moses.Prelude.{
  ℕ, ◌+◌, ◌≤◌, ◌<◌, ◌≡◌, refl, sym, ap, ◌∙◌, some, List, arith, length, length-set, get_elem?,
  get_elem?-set_self, get_elem?-set_ne, set, ℕ_discrete,
}
use gpu_moses.Cuda.Buffer.{size}
use gpu_moses.Cuda.Holds.{size-Holds}
use gpu_moses.Manager.Reached.{Reached}
use gpu_moses.Hypothesis.{Hypothesis, fields}
use gpu_moses.Stack.{Stack}
use gpu_moses.Process.{Parts}
use gpu_moses.Stack.Entries.{Filled}

module _ {ℓ κ} {S : Type ℓ} {T : Type κ} (parts : Parts S T) (Sound : Hypothesis S → Type ℓ)
    (Fits : T → Type κ) (max n : ℕ) where
  abbrev pub Covers : ℕ → Hypothesis S → Type ℓ
  Covers j h =
      Reached max n (fields h).path.end_pos (fields h).bitmap
      × ((fields h).bitmap.num_words_covered ≡ j)
      × Sound h

  pub record IsSearch (stacks : List (Stack (Hypothesis S))) : Type ℓ where
    pub many : length stacks ≡ n + 1
    pub each :
        (j : ℕ) (s : Stack (Hypothesis S))
        → get_elem? stacks j ≡ some s
        → (xs : List (Hypothesis S)) × Filled parts.recomb parts.better parts.stack_size
            (Covers j)
            s
            xs

  pub record NonEmpty (j : ℕ) (stacks : List (Stack (Hypothesis S))) : Type ℓ where
    pub stack : Stack (Hypothesis S)
    pub at : get_elem? stacks j ≡ some stack
    pub some_hypo : 0 < size stack.m_coll

  -- What a thread of `ProcessStack` for the stack `k` does to the stacks.
  pub record Extends (k : ℕ) (before after : List (Stack (Hypothesis S))) : Type ℓ where
    pub search : IsSearch after
    pub same : (j : ℕ) → j ≤ k → get_elem? after j ≡ get_elem? before j
    pub kept : (j : ℕ) → NonEmpty j before → NonEmpty j after

  pub Extends-refl :
      (k : ℕ) (stacks : List (Stack (Hypothesis S))) → IsSearch stacks → Extends k stacks stacks
  Extends-refl k stacks is = record {
    search = is;
    same = λ j few. refl;
    kept = λ j some_there. some_there;
  }

  pub Extends-trans :
      (k : ℕ) (a b c : List (Stack (Hypothesis S))) → Extends k a b → Extends k b c → Extends k a c
  Extends-trans k a b c e f = record {
    search = f.search;
    same = λ j few. f.same j few ∙ e.same j few;
    kept = λ j some_there. f.kept j (e.kept j some_there);
  }

  pub IsSearch-set :
      (stacks : List (Stack (Hypothesis S))) (i : ℕ) (s : Stack (Hypothesis S))
      (xs : List (Hypothesis S))
      → IsSearch stacks
      → i < n + 1
      → Filled parts.recomb parts.better parts.stack_size (Covers i) s xs
      → IsSearch (set stacks i s)
  IsSearch-set stacks i s xs is inside filled = record {
    many = length-set stacks i s ∙ is.many;
    each = λ j t at. elim (ℕ_discrete i j) [
      | yes same ↦
          let same_stack : s ≡ t = some-injective s t (
            sym (get_elem?-set_self stacks i s (omega (arith, is.many)))
            ∙ ap (get_elem? (set stacks i s)) same
            ∙ at) in
          (
            xs,
            subst (λ j. Filled parts.recomb parts.better parts.stack_size (Covers j) t xs) same
                (subst (λ t. Filled parts.recomb parts.better parts.stack_size (Covers i) t xs)
                  same_stack filled),
          )
      | no differ ↦ is.each j t (sym (get_elem?-set_ne stacks i j s differ) ∙ at)
    ];
  }

  pub NonEmpty-set :
      (stacks : List (Stack (Hypothesis S))) (i j : ℕ) (s : Stack (Hypothesis S))
      → i < length stacks
      → 0 < size s.m_coll
      → NonEmpty j stacks
      → NonEmpty j (set stacks i s)
  NonEmpty-set stacks i j s inside positive there = elim (ℕ_discrete i j) [
    | yes same ↦ record {
      stack = s;
      at = ap (get_elem? (set stacks i s)) (sym same) ∙ get_elem?-set_self stacks i s inside;
      some_hypo = positive;
    }
    | no differ ↦ record {
      stack = there.stack;
      at = get_elem?-set_ne stacks i j s differ ∙ there.at;
      some_hypo = there.some_hypo;
    }
  ]

  -- A stack that is replaced by one that is not empty.
  pub Extends-set :
      (k : ℕ) (stacks : List (Stack (Hypothesis S))) (i : ℕ) (s : Stack (Hypothesis S))
      (xs : List (Hypothesis S))
      → IsSearch stacks
      → k < i
      → i < n + 1
      → Filled parts.recomb parts.better parts.stack_size (Covers i) s xs
      → 0 < length xs
      → Extends k stacks (set stacks i s) × NonEmpty i (set stacks i s)
  Extends-set k stacks i s xs is later inside filled positive =
      let inside' : i < length stacks = omega (arith, is.many) in
      let positive' : 0 < size s.m_coll = omega (arith, size-Holds filled.is_stack.holds) in
      (
        record {
          search = IsSearch-set stacks i s xs is inside filled;
          same = λ j few. get_elem?-set_ne stacks i j s (λ e. absurd (omega arith));
          kept = λ j there. NonEmpty-set stacks i j s inside' positive' there;
        },
        record { stack = s; at = get_elem?-set_self stacks i s inside'; some_hypo = positive' },
      )
