-- ===== src/Manager/Paths.antt =====
-- The table of input paths has one entry for every pair of positions.
use native.Mathlib.Nat.{mul-le-mul_left}
use gpu_moses.Prelude.{ℕ, ◌+◌, ◌*◌, ◌≤◌, ◌<◌, ◌≡◌, arith, dec_lt}
use gpu_moses.Manager.{range_to_ind}

range_to_ind-row :
    (n start end start' end' : ℕ)
    → end < n
    → start < start'
    → range_to_ind n start end < range_to_ind n start' end'
unfolding range_to_ind
range_to_ind-row n start end start' end' he less =
    let next : start + 1 ≤ start' = omega arith in omega (arith, mul-le-mul_left n next)

-- `RangeToInd` of positions in the input is an index of the table, which has `inputSize * inputSize`
-- entries.
pub range_to_ind-lt : (n start end : ℕ) → start < n → end < n → range_to_ind n start end < n * n
unfolding range_to_ind
range_to_ind-lt n start end hs he =
    let next : start + 1 ≤ n = omega arith in omega (arith, mul-le-mul_left n next)

-- Two pairs of positions in the input never share an entry of the table.
pub range_to_ind-injective :
    (n start end start' end' : ℕ)
    → end < n
    → end' < n
    → range_to_ind n start end ≡ range_to_ind n start' end'
    → (start ≡ start') × (end ≡ end')
unfolding range_to_ind
range_to_ind-injective n start end start' end' he he' same = elim (dec_lt start start') [
  | yes less ↦ absurd (omega (arith, same, range_to_ind-row n start end start' end' he less))
  | no up ↦ elim (dec_lt start' start) [
    | yes less ↦ absurd (omega (arith, same, range_to_ind-row n start' end' start end he' less))
    | no down ↦
        let row : start ≡ start' = omega arith in
        let same' : start' * n + end ≡ start' * n + end' = rw row at same in (row, omega arith)
  ]
]
