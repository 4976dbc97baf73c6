-- ===== src/Cuda/Buffer.antt =====
-- The storage that CUDA/Array.h and CUDA/Vector.h share, and the members whose text is the same in
-- both. `m_size` is the number of cells; a cell is `none` until something is written to it.
use gpu_moses.Prelude.{
  ℕ, zero, suc, ◌+◌, ◌-◌, ◌*◌, Option, none, some, List, [], ◌∷◌, ◌++◌, length, get_elem?, set, ltb,
  leb, if◌then◌else◌,
}
use gpu_moses.Outcome.{Outcome, done, fault, out_of_bounds, uninitialised, ◌>>=◌, or_fault}

pub record Buffer {ℓ} (A : Type ℓ) : Type ℓ where
  pub max_size : ℕ
  pub cells : List (Option A)

module _ {ℓ} {A : Type ℓ} where
  abbrev pub size : Buffer A → ℕ
  size b = length b.cells

  -- `operator[]` as an rvalue.
  unfoldable pub read : Buffer A → ℕ → Outcome A
  read b i = do cell ← or_fault (get_elem? b.cells i) out_of_bounds; or_fault cell uninitialised

  -- `operator[]` as an lvalue.
  unfoldable pub write : Buffer A → ℕ → A → Outcome (Buffer A)
  write b i v =
      if ltb i (size b)
      then done (record b { cells = set b.cells i (some v) })
      else fault out_of_bounds

  -- `m_arr[dest] = m_arr[source]`: the bits are copied, written or not.
  unfoldable pub copy_cell : Buffer A → ℕ → ℕ → Outcome (Buffer A)
  copy_cell b source dest = do
    cell ← or_fault (get_elem? b.cells source) out_of_bounds
    if ltb dest (size b)
        then done (record b { cells = set b.cells dest cell })
        else fault out_of_bounds

  -- `m_size = n`: cells beyond the old size have no known content.
  abbrev pub fit : ℕ → List (Option A) → List (Option A)
  fit zero cells = []
  fit (suc n) [] = none ∷ fit n []
  fit (suc n) (c ∷ cells) = c ∷ fit n cells

  unfoldable pub set_size : Buffer A → ℕ → Buffer A
  set_size b n = record b { cells = fit n b.cells }

  unfoldable pub clear : Buffer A → Buffer A
  clear b = record b { cells = [] }

  -- The loop of `Shift`. The argument is `destInd + 1`, so that 0 is the `destInd` of -1.
  unfoldable pub shift_loop : ℕ → ℕ → ℕ → Buffer A → Outcome (Buffer A)
  shift_loop start offset zero b = done b
  shift_loop start offset (suc dest) b =
      let rest = copy_cell b (dest - offset) dest >>= shift_loop start offset dest in
      if ltb dest start then done b else if ltb dest (start + offset) then done b else rest

  unfoldable pub shift : ℕ → ℕ → Buffer A → Outcome (Buffer A)
  unfolding shift_loop copy_cell
  shift start offset b = shift_loop start offset (size b) b

-- `Array::reserve`, `Vector::Reserve` and `Vector::reserve` differ; what calls them takes the one meant.
abbrev pub Reserve {ℓ} : (A : Type ℓ) → Type ℓ
Reserve A = ℕ → Buffer A → Outcome (Buffer A)

module _ {ℓ} {A : Type ℓ} (reserve : Reserve A) where
  unfoldable pub resize : ℕ → Buffer A → Outcome (Buffer A)
  unfolding set_size
  resize n b = do b' ← reserve n b; done (set_size b' n)

  -- `if (m_size >= m_maxSize) reserve(1 + m_maxSize * 2);`
  unfoldable pub make_room : Buffer A → Outcome (Buffer A)
  make_room b = if leb b.max_size (size b) then reserve (1 + b.max_size * 2) b else done b

  unfoldable pub push_back : A → Buffer A → Outcome (Buffer A)
  unfolding make_room
  push_back v b = do b' ← make_room b; done (record b' { cells = b'.cells ++ some v ∷ [] })

  unfoldable pub insert : ℕ → A → Buffer A → Outcome (Buffer A)
  unfolding make_room resize shift write
  insert ind v b = do
    b₁ ← make_room b
    b₂ ← resize (size b₁ + 1) b₁
    b₃ ← shift ind 1 b₂
    write b₃ ind v
