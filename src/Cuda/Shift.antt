-- ===== src/Cuda/Shift.antt =====
-- `Shift` of CUDA/Array.h and CUDA/Vector.h: what it leaves in each cell.
use gpu_moses.Prelude.{
  ℕ, zero, suc, ◌+◌, ◌-◌, ◌≤◌, ◌<◌, ◌≡◌, refl, sym, ap, ◌∙◌, some, List, arith, length, get_elem?,
  set, insert_at, length-set, get_elem?-set_self, get_elem?-set_ne, get_elem?-insert_at_lt,
  get_elem?-insert_at_self, get_elem?-insert_at_gt, get_elem?_ext, get_elem?-some, get_elem?-none,
  dec_lt, lt→ltb, ltb, Option,
}
use gpu_moses.Outcome.{done, Returns, returns, Returns-map, Returns-if}
use gpu_moses.Cuda.Buffer.{Buffer, size, copy_cell, shift_loop, shift}

module _ {ℓ} {A : Type ℓ} where
  -- After the loop the cells after `start` and below `dest` hold what stood one place to their left.
  abbrev pub Shifted : ℕ → ℕ → Buffer A → Buffer A → Type ℓ
  Shifted start dest b b' =
      (b'.max_size ≡ b.max_size)
      × (size b' ≡ size b)
      × ((j : ℕ) → start ≤ j → suc j < dest → get_elem? b'.cells (suc j) ≡ get_elem? b.cells j)
      × ((j : ℕ) → j ≤ start → get_elem? b'.cells j ≡ get_elem? b.cells j)
      × ((j : ℕ) → dest ≤ j → get_elem? b'.cells j ≡ get_elem? b.cells j)

  pub copy_cell_lem :
      (b : Buffer A) (source dest : ℕ) (cell : Option A)
      → get_elem? b.cells source ≡ some cell
      → dest < size b
      → copy_cell b source dest ≡ done (record b { cells = set b.cells dest cell })
  unfolding copy_cell
  copy_cell_lem b source dest cell e fits = rw (e, lt→ltb dest (size b) fits)

  -- One copy, and then the rest of the loop.
  pub Shifted-suc :
      (start dest : ℕ) (b b' : Buffer A) (cell : Option A)
      → start < dest
      → dest < size b
      → get_elem? b.cells (dest - 1) ≡ some cell
      → Shifted start dest (record b { cells = set b.cells dest cell }) b'
      → Shifted start (suc dest) b b'
  Shifted-suc start dest b b' cell go fits at_source (max, len, moved, kept, above) = (
    max,
    len ∙ length-set b.cells dest cell,
    (λ j le lt. elim (dec_lt (suc j) dest) [
      | yes more ↦
          moved j le more ∙ get_elem?-set_ne b.cells dest j cell (λ e. absurd (omega arith))
      | no last ↦
          let here : suc j ≡ dest = omega arith in
          let before : dest - 1 ≡ j = omega arith in
          ap (get_elem? b'.cells) here
          ∙ above dest (omega arith)
          ∙ get_elem?-set_self b.cells dest cell fits
          ∙ sym at_source
          ∙ ap (get_elem? b.cells) before
    ]),
    (λ j le. kept j le ∙ get_elem?-set_ne b.cells dest j cell (λ e. absurd (omega arith))),
    (λ j le.
        above j (omega arith) ∙ get_elem?-set_ne b.cells dest j cell (λ e. absurd (omega arith))),
  )

  shift_loop-Shifted :
      (start dest : ℕ) (b : Buffer A)
      → dest ≤ size b
      → Returns (Shifted start dest b) (shift_loop start 1 dest b)
  unfolding shift_loop
  shift_loop-Shifted start zero b fits =
      returns (refl, refl, (λ j le lt. absurd (omega arith)), (λ j le. refl), (λ j le. refl))
  shift_loop-Shifted start (suc dest) b fits =
      Returns-if (ltb dest start) (λ t. idle (ground arith))
        λ f.
          Returns-if (ltb dest (start + 1)) (λ t. idle (ground arith))
            λ g.
              let go : start < dest = ground arith in
              let (cell, at_source) = get_elem?-some b.cells (dest - 1) (omega arith) in
              rw (copy_cell_lem b (dest - 1) dest cell at_source (omega arith)) (
                Returns-map (shift_loop-Shifted start dest _ (rw length-set (omega arith)))
                  λ b' s. Shifted-suc start dest b b' cell go (omega arith) at_source s)
    where
      idle : dest ≤ start → Returns (Shifted start (suc dest) b) (done b)
      idle le =
          returns (refl, refl, (λ j from to. absurd (omega arith)), (λ j le. refl), (λ j le. refl))

  pub shift-Shifted :
      (start : ℕ) (b : Buffer A) → Returns (Shifted start (size b) b) (shift start 1 b)
  unfolding shift
  shift-Shifted start b = shift_loop-Shifted start (size b) b (omega arith)

  -- A write into the gap then makes the cells those of an insertion.
  pub set-Shifted :
      (i : ℕ) (v : A) (cells ys : List A)
      → i ≤ length ys
      → length cells ≡ suc (length ys)
      → ((j : ℕ) → i ≤ j → j < length ys → get_elem? cells (suc j) ≡ get_elem? ys j)
      → ((j : ℕ) → j < i → get_elem? cells j ≡ get_elem? ys j)
      → set cells i v ≡ insert_at i v ys
  set-Shifted i v cells ys in_range len moved kept = get_elem?_ext _ _ at
    where
      after : (j : ℕ) → i ≤ j → get_elem? cells (suc j) ≡ get_elem? ys j
      after j le = elim (dec_lt j (length ys)) [
        | yes inside ↦ moved j le inside
        | no outside ↦
            get_elem?-none cells (suc j) (omega arith) ∙ sym (get_elem?-none ys j (omega arith))
      ]

      right_of : (j : ℕ) → i < j → get_elem? (set cells i v) j ≡ get_elem? (insert_at i v ys) j
      right_of zero less = absurd (omega arith)
      right_of (suc j) less =
          get_elem?-set_ne cells i (suc j) v (λ e. absurd (omega arith))
          ∙ after j (omega arith)
          ∙ sym (get_elem?-insert_at_gt i j v ys in_range (omega arith))

      at : (j : ℕ) → get_elem? (set cells i v) j ≡ get_elem? (insert_at i v ys) j
      at j = elim (dec_lt j i) [
        | yes less ↦
            get_elem?-set_ne cells i j v (λ e. absurd (omega arith))
            ∙ kept j less
            ∙ sym (get_elem?-insert_at_lt i j v ys in_range less)
        | no more ↦ elim (dec_lt i j) [
          | yes less ↦ right_of j less
          | no same ↦
              let e : i ≡ j = omega arith in
              rw (← e) (
                get_elem?-set_self cells i v (omega arith)
                ∙ sym (get_elem?-insert_at_self i v ys in_range))
        ]
      ]
