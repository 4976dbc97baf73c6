-- ===== src/Bitmap/Loops.antt =====
-- The four loops over a bitmap's words, each against its bits as a list.
use gpu_moses.Prelude.{
  ℕ, zero, suc, ◌+◌, ◌≤◌, ◌<◌, ◌≡◌, refl, sym, ap, ◌⊎◌, Bool, true, false, some, Option, List, [],
  ◌∷◌, ◌++◌, map, arith, length, length-append, get_elem?, set, replicate, length-set,
  get_elem?-some, get_elem?-middle, dec_lt, lt→ltb, ltb, leb, ◌&&◌, if◌then◌else◌, inl, inr,
}
use native.Mathlib.Numerals.{add-one}
use gpu_moses.Outcome.{done, Returns, returns, Returns-map, Returns-bind}
use gpu_moses.Range.{not_found}
use gpu_moses.Cuda.Buffer.{Buffer, write}
use gpu_moses.Cuda.Holds.{Holds, read-Holds, write-Holds}
use gpu_moses.Bitmap.{reset_loop, copy_loop, mark_loop, gap_loop, overlap_loop}
use gpu_moses.Bitmap.Cover.{cover, cover-nothing, cover-set, IsFree}

set-append {ℓ} :
    {A : Type ℓ} (xs ys : List A) (y v : A) → set (xs ++ (y ∷ ys)) (length xs) v ≡ xs ++ (v ∷ ys)
set-append [] ys y v = refl
set-append (x ∷ xs) ys y v = ap (◌∷◌ x) (set-append xs ys y v)

append_step {ℓ} : {A : Type ℓ} (xs ys : List A) (v : A) → (xs ++ v ∷ []) ++ ys ≡ xs ++ (v ∷ ys)
append_step [] ys v = refl
append_step (x ∷ xs) ys v = ap (◌∷◌ x) (append_step xs ys v)

-- The cells of the storage, and that it has kept its capacity.
abbrev pub Stores : List (Option Bool) → Buffer Bool → Buffer Bool → Type 0
Stores cells b b' = (b'.cells ≡ cells) × (b'.max_size ≡ b.max_size)

write_next :
    (xs ys : List (Option Bool)) (y : Option Bool) (v : Bool) (b : Buffer Bool)
    → b.cells ≡ xs ++ (y ∷ ys)
    → write b (length xs) v ≡ done (record b { cells = xs ++ (some v ∷ ys) })
unfolding write
write_next xs ys y v b e = rw (
  e,
  set-append xs ys y (some v),
  lt→ltb (length xs) (length (xs ++ (y ∷ ys))) (omega (arith, length-append xs (y ∷ ys))),
)

pub reset_loop-Stores :
    (xs ys : List (Option Bool)) (b : Buffer Bool)
    → b.cells ≡ xs ++ ys
    → Returns
        (Stores (xs ++ map some (replicate (length ys) false)) b)
        (reset_loop (length ys) (length xs) b)
unfolding reset_loop
reset_loop-Stores xs [] b e = returns (e, refl)
reset_loop-Stores xs (y ∷ ys) b e =
    let rest =
      reset_loop-Stores (xs ++ some false ∷ []) ys (record b { cells = xs ++ (some false ∷ ys) })
        (sym (append_step xs ys (some false))) in
    rw (write_next xs ys y false b e)
      (rw (append_step xs _ (some false), length-append xs (some false ∷ [])) at rest)

pub copy_loop-Stores :
    (xs ys : List (Option Bool)) (us vs : List Bool) (b copy : Buffer Bool)
    → b.cells ≡ xs ++ ys
    → Holds copy (us ++ vs)
    → length us ≡ length xs
    → length vs ≡ length ys
    → Returns (Stores (xs ++ map some vs) b) (copy_loop (length ys) (length xs) copy b)
unfolding copy_loop
copy_loop-Stores xs [] us [] b copy e h same len = returns (e, refl)
copy_loop-Stores xs [] us (v ∷ vs) b copy e h same len = absurd (omega arith)
copy_loop-Stores xs (y ∷ ys) us [] b copy e h same len = absurd (omega arith)
copy_loop-Stores xs (y ∷ ys) us (v ∷ vs) b copy e h same len =
    let rest =
      copy_loop-Stores (xs ++ some v ∷ []) ys (us ++ v ∷ []) vs
        (record b { cells = xs ++ (some v ∷ ys) }) copy (sym (append_step xs ys (some v)))
        (rw (append_step us vs v) h)
        (omega (arith, length-append us (v ∷ []), length-append xs (some v ∷ []))) (omega arith) in
    rw
      (
        read-Holds h (length xs) v (rw (← same) (get_elem?-middle us vs v)),
        write_next xs ys y v b e,
      )
      (rw (append_step xs _ (some v), length-append xs (some v ∷ [])) at rest)

-- Marking covers the run, and notes whether the first gap lies in it.
pub mark_loop-cover :
    (rounds pos gap : ℕ) (seen : Bool) (b : Buffer Bool) (bs : List Bool)
    → Holds b bs
    → pos + rounds ≤ length bs
    → Returns
        (λ r.
          Holds r.1 (cover pos rounds bs)
          × (r.0 ≡ (if leb pos gap && ltb gap (pos + rounds) then true else seen)))
        (mark_loop rounds pos gap seen b)
unfolding mark_loop
mark_loop-cover zero pos gap seen b bs h fits = returns (rw (cover-nothing pos bs) h, ground arith)
mark_loop-cover (suc rounds) pos gap seen b bs h fits =
    Returns-bind (write-Holds h pos true (omega arith)) λ b' (h', _).
      Returns-map
        (mark_loop-cover rounds (pos + 1) gap _ b' (set bs pos true) h'
          (omega (arith, length-set bs pos true)))
        λ r p. (rw (cover-set pos rounds bs) (rw (add-one pos) at p.0), ground (arith, p.1))

-- The first position from `pos` on that is not covered, where all before it are.
abbrev pub IsGap : List Bool → ℕ → Type 0
IsGap bs g =
    ((get_elem? bs g ≡ some false) × ((j : ℕ) → j < g → get_elem? bs j ≡ some true))
    ⊎ ((g ≡ not_found) × ((j : ℕ) → j < length bs → get_elem? bs j ≡ some true))

pub gap_loop-IsGap :
    (rounds pos : ℕ) (b : Buffer Bool) (bs : List Bool)
    → Holds b bs
    → pos + rounds ≡ length bs
    → ((j : ℕ) → j < pos → get_elem? bs j ≡ some true)
    → Returns (IsGap bs) (gap_loop rounds pos b)
unfolding gap_loop
gap_loop-IsGap zero pos b bs h e before = returns (inr (refl, λ j less. before j (omega arith)))
gap_loop-IsGap (suc rounds) pos b bs h e before =
    gap_at (get_elem?-some bs pos (omega arith))
      (λ all. gap_loop-IsGap rounds (pos + 1) b bs h (omega arith) all)
  where
    gap_at :
        (x : Bool) × (get_elem? bs pos ≡ some x)
        → (((j : ℕ) → j < pos + 1 → get_elem? bs j ≡ some true)
            → Returns (IsGap bs) (gap_loop rounds (pos + 1) b))
        → Returns (IsGap bs) (gap_loop (suc rounds) pos b)
    gap_at (true, at) rest = rw (read-Holds h pos true at) (
        rest λ j less. elim (dec_lt j pos) [
          | yes old ↦ before j old
          | no last ↦ let same : j ≡ pos = omega arith in rw same at
        ])
    gap_at (false, at) rest = rw (read-Holds h pos false at) (returns (inl (at, before)))

-- What the answer of `Overlap` says of the `n` words from `s` on.
abbrev pub OverlapIs : ℕ → ℕ → List Bool → Bool → Type 0
OverlapIs s n bs true = (j : ℕ) × (s ≤ j) × (j < s + n) × (get_elem? bs j ≡ some true)
OverlapIs s n bs false = IsFree s n bs

pub overlap_loop-OverlapIs :
    (rounds pos : ℕ) (b : Buffer Bool) (bs : List Bool)
    → Holds b bs
    → pos + rounds ≤ length bs
    → Returns (OverlapIs pos rounds bs) (overlap_loop rounds pos b)
unfolding overlap_loop
overlap_loop-OverlapIs zero pos b bs h fits = returns (λ j from to. absurd (omega arith))
overlap_loop-OverlapIs (suc rounds) pos b bs h fits =
    word_at (get_elem?-some bs pos (omega arith))
      (overlap_loop-OverlapIs rounds (pos + 1) b bs h (omega arith))
  where
    widen :
        get_elem? bs pos ≡ some false
        → (r : Bool) → OverlapIs (pos + 1) rounds bs r
        → OverlapIs pos (suc rounds) bs r
    widen at true (j, from, to, hit) = (j, omega arith, omega arith, hit)
    widen at false free = λ j from to. elim (dec_lt pos j) [
      | yes later ↦ free j (omega arith) (omega arith)
      | no here ↦ let same : j ≡ pos = omega arith in rw same at
    ]

    word_at :
        (x : Bool) × (get_elem? bs pos ≡ some x)
        → Returns (OverlapIs (pos + 1) rounds bs) (overlap_loop rounds (pos + 1) b)
        → Returns (OverlapIs pos (suc rounds) bs) (overlap_loop (suc rounds) pos b)
    word_at (true, at) rest =
        rw (read-Holds h pos true at) (returns (pos, omega arith, omega arith, at))
    word_at (false, at) rest = rw (read-Holds h pos false at) (Returns-map rest (widen at))
