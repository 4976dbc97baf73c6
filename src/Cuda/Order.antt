-- ===== src/Cuda/Order.antt =====
-- What the comparers that are passed to `upperBound` as `CC` have to satisfy, and lists in their order.
use gpu_moses.Prelude.{
  ℕ, zero, suc, ◌+◌, ◌≤◌, ◌<◌, ◌≡◌, sym, ◌∙◌, length, take, drop, insert_at, insert_at-append,
  take-append-drop, All-of_get, length-take, get_elem?_lt, get_elem?-take, get_elem?-drop, Bool,
  true, false, some, List, [], ◌∷◌, ◌++◌, arith, get_elem?, All, All_get, All-left, All-right,
  All-append, Ordered, Bool-cases, inl, inr, none≢some,
}
use mathlib.Core.Path.{subst}
use mathlib.Core.Option.{some-injective}

-- `lt` is a strict weak order: not being related either way is an equivalence.
pub record StrictWeakOrder {ℓ} {A : Type ℓ} (lt : A → A → Bool) : Type ℓ where
  pub irrefl : (a : A) → lt a a ≡ false
  pub trans : (a b c : A) → lt a b ≡ true → lt b c ≡ true → lt a c ≡ true
  pub cotrans : (a b c : A) → lt a c ≡ true → lt a b ≡ false → lt b c ≡ true

module _ {ℓ} {A : Type ℓ} {lt : A → A → Bool} (order : StrictWeakOrder lt) where
  open order use {irrefl, trans, cotrans}

  pub lt_asymm : (a b : A) → lt a b ≡ true → lt b a ≡ false
  lt_asymm a b h = elim (Bool-cases (lt b a)) [
    | inl back ↦ absurd (true≢false (trans a b a h back) (irrefl a))
    | inr e ↦ e
  ]
    where
      true≢false : lt a a ≡ true → lt a a ≡ false → ⊥
      true≢false p q = cc

  -- The other form of `cotrans`.
  pub cotrans_right : (a b c : A) → lt a c ≡ true → lt b c ≡ false → lt a b ≡ true
  cotrans_right a b c h k = elim (Bool-cases (lt a b)) [
    | inl e ↦ e
    | inr e ↦ cc (cotrans a b c h e)
  ]

  -- "Not after" is transitive.
  pub not_after_trans : (a b c : A) → lt b a ≡ false → lt c b ≡ false → lt c a ≡ false
  not_after_trans a b c h k = elim (Bool-cases (lt c a)) [
    | inl e ↦ cc (cotrans c b a e k)
    | inr e ↦ e
  ]

-- In order, equivalent entries allowed; and in order with no two equivalent.
module _ {ℓ} {A : Type ℓ} (lt : A → A → Bool) where
  abbrev pub IsSorted : List A → Type 0
  IsSorted = Ordered (λ x y. lt y x ≡ false)

  abbrev pub IsStrictlySorted : List A → Type 0
  IsStrictlySorted = Ordered (λ x y. lt x y ≡ true)

pub Ordered_get {ℓ κ} :
    {A : Type ℓ} (R : A → A → Type κ) (xs : List A) (i j : ℕ) (x y : A)
    → i < j
    → Ordered R xs
    → get_elem? xs i ≡ some x
    → get_elem? xs j ≡ some y
    → R x y
Ordered_get R [] i j x y l o ex ey = absurd (none≢some x ex)
Ordered_get R (z ∷ xs) i zero x y l o ex ey = absurd (omega arith)
Ordered_get R (z ∷ xs) zero (suc j) x y l o ex ey =
    All_get (R x) xs j y (subst (λ w. All (R w) xs) (some-injective z x ex) o.0) ey
Ordered_get R (z ∷ xs) (suc i) (suc j) x y l o ex ey =
    Ordered_get R xs i j x y (omega arith) o.1 ex ey

module _ {ℓ κ} {A : Type ℓ} (R : A → A → Type κ) where
  pub Ordered-left : (xs ys : List A) → Ordered R (xs ++ ys) → Ordered R xs
  Ordered-left [] ys o = tt
  Ordered-left (x ∷ xs) ys o = (All-left (R x) xs ys o.0, Ordered-left xs ys o.1)

  pub Ordered-right : (xs ys : List A) → Ordered R (xs ++ ys) → Ordered R ys
  Ordered-right [] ys o = o
  Ordered-right (x ∷ xs) ys o = Ordered-right xs ys o.1

  -- A value between two parts of an ordered list keeps it ordered.
  pub Ordered-insert :
      (xs ys : List A) (v : A)
      → Ordered R (xs ++ ys)
      → All (λ x. R x v) xs
      → All (R v) ys
      → Ordered R (xs ++ (v ∷ ys))
  Ordered-insert [] ys v o before after = (after, o)
  Ordered-insert (x ∷ xs) ys v o before after = (
    All-append (R x) xs (v ∷ ys) (All-left (R x) xs ys o.0) (before.0, All-right (R x) xs ys o.0),
    Ordered-insert xs ys v o.1 before.1 after,
  )

  -- The same by index.
  pub insert_at-Ordered :
      (i : ℕ) (v : A) (xs : List A)
      → Ordered R xs
      → i ≤ length xs
      → ((j : ℕ) (y : A) → j < i → get_elem? xs j ≡ some y → R y v)
      → ((j : ℕ) (y : A) → i ≤ j → get_elem? xs j ≡ some y → R v y)
      → Ordered R (insert_at i v xs)
  insert_at-Ordered i v xs o in_range before after = rw (insert_at-append i v xs in_range) (
      Ordered-insert (take i xs) (drop i xs) v (rw (take-append-drop i xs) o)
        (All-of_get (λ y. R y v) (take i xs)
          (λ j y e.
            let less : j < i = omega (arith, get_elem?_lt (take i xs) j y e, length-take i xs) in
            before j y less (sym (get_elem?-take i xs j less) ∙ e)))
        (All-of_get (R v) (drop i xs)
          (λ j y e. after (i + j) y (omega arith) (sym (get_elem?-drop i xs j) ∙ e))))
