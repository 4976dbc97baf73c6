-- ===== src/Bitmap/Cover.antt =====
-- Lists of bits: covering a run of words, and the number of words covered.
use mathlib.Core.Option.{some-injective}
use gpu_moses.Prelude.{
  ℕ, zero, suc, ◌+◌, ◌≤◌, ◌<◌, ◌≡◌, refl, ap, Bool, true, false, some, List, [], ◌∷◌, arith, length,
  get_elem?, set,
}

-- The `n` words from `s` on become covered.
abbrev pub cover : ℕ → ℕ → List Bool → List Bool
cover s n [] = []
cover zero zero (b ∷ bs) = b ∷ bs
cover zero (suc n) (b ∷ bs) = true ∷ cover zero n bs
cover (suc s) n (b ∷ bs) = b ∷ cover s n bs

abbrev pub bit_count : Bool → ℕ
bit_count true = 1
bit_count false = 0

abbrev pub covered : List Bool → ℕ
covered [] = 0
covered (b ∷ bs) = bit_count b + covered bs

-- None of the `n` words from `s` on is covered.
abbrev pub IsFree : ℕ → ℕ → List Bool → Type 0
IsFree s n bs = (j : ℕ) → s ≤ j → j < s + n → get_elem? bs j ≡ some false

pub length-cover : (s n : ℕ) (bs : List Bool) → length (cover s n bs) ≡ length bs
length-cover s n [] = refl
length-cover zero zero (b ∷ bs) = refl
length-cover zero (suc n) (b ∷ bs) = ap suc (length-cover zero n bs)
length-cover (suc s) n (b ∷ bs) = ap suc (length-cover s n bs)

pub cover-nothing : (s : ℕ) (bs : List Bool) → cover s zero bs ≡ bs
cover-nothing s [] = refl
cover-nothing zero (b ∷ bs) = refl
cover-nothing (suc s) (b ∷ bs) = ap (◌∷◌ b) (cover-nothing s bs)

-- Covering one more word in front.
pub cover-set : (s n : ℕ) (bs : List Bool) → cover s (suc n) bs ≡ cover (suc s) n (set bs s true)
cover-set s n [] = refl
cover-set zero n (b ∷ bs) = refl
cover-set (suc s) n (b ∷ bs) = ap (◌∷◌ b) (cover-set s n bs)

pub get_elem?-cover_in :
    (s n : ℕ) (bs : List Bool) (j : ℕ)
    → s ≤ j
    → j < s + n
    → j < length bs
    → get_elem? (cover s n bs) j ≡ some true
get_elem?-cover_in s n [] j from to inside = absurd (omega arith)
get_elem?-cover_in zero zero (b ∷ bs) j from to inside = absurd (omega arith)
get_elem?-cover_in zero (suc n) (b ∷ bs) zero from to inside = refl
get_elem?-cover_in zero (suc n) (b ∷ bs) (suc j) from to inside =
    get_elem?-cover_in zero n bs j (omega arith) (omega arith) (omega arith)
get_elem?-cover_in (suc s) n (b ∷ bs) zero from to inside = absurd (omega arith)
get_elem?-cover_in (suc s) n (b ∷ bs) (suc j) from to inside =
    get_elem?-cover_in s n bs j (omega arith) (omega arith) (omega arith)

pub get_elem?-cover_below :
    (s n : ℕ) (bs : List Bool) (j : ℕ) → j < s → get_elem? (cover s n bs) j ≡ get_elem? bs j
get_elem?-cover_below s n [] j h = refl
get_elem?-cover_below zero n (b ∷ bs) j h = absurd (omega arith)
get_elem?-cover_below (suc s) n (b ∷ bs) zero h = refl
get_elem?-cover_below (suc s) n (b ∷ bs) (suc j) h = get_elem?-cover_below s n bs j (omega arith)

pub get_elem?-cover_above :
    (s n : ℕ) (bs : List Bool) (j : ℕ) → s + n ≤ j → get_elem? (cover s n bs) j ≡ get_elem? bs j
get_elem?-cover_above s n [] j h = refl
get_elem?-cover_above zero zero (b ∷ bs) j h = refl
get_elem?-cover_above zero (suc n) (b ∷ bs) zero h = absurd (omega arith)
get_elem?-cover_above zero (suc n) (b ∷ bs) (suc j) h =
    get_elem?-cover_above zero n bs j (omega arith)
get_elem?-cover_above (suc s) n (b ∷ bs) zero h = absurd (omega arith)
get_elem?-cover_above (suc s) n (b ∷ bs) (suc j) h = get_elem?-cover_above s n bs j (omega arith)

pub covered-le : (bs : List Bool) → covered bs ≤ length bs
covered-le [] = omega arith
covered-le (true ∷ bs) = omega (arith, covered-le bs)
covered-le (false ∷ bs) = omega (arith, covered-le bs)

-- Covering free words counts each of them.
pub covered-cover :
    (s n : ℕ) (bs : List Bool)
    → s + n ≤ length bs
    → IsFree s n bs
    → covered (cover s n bs) ≡ covered bs + n
covered-cover s n [] fits free = omega arith
covered-cover zero zero (b ∷ bs) fits free = omega arith
covered-cover zero (suc n) (true ∷ bs) fits free = cc (free 0 (omega arith) (omega arith))
covered-cover zero (suc n) (false ∷ bs) fits free = omega (
  arith,
  covered-cover zero n bs (omega arith) (λ j from to. free (suc j) (omega arith) (omega arith)),
)
covered-cover (suc s) n (b ∷ bs) fits free = omega (
  arith,
  covered-cover s n bs (omega arith) (λ j from to. free (suc j) (omega arith) (omega arith)),
)

pub covered-all :
    (bs : List Bool)
    → ((j : ℕ) → j < length bs → get_elem? bs j ≡ some true)
    → covered bs ≡ length bs
covered-all [] all = refl
covered-all (b ∷ bs) all =
    let first : b ≡ true = some-injective _ _ (all 0 (omega arith)) in
    let rest : covered bs ≡ length bs = covered-all bs (λ j less. all (suc j) (omega arith)) in
    rw first (omega (arith, rest))
