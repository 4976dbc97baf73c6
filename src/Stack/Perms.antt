-- ===== src/Stack/Perms.antt =====
-- Rearrangements of a list, kept as data: what holds of all entries, or of all pairs, survives them.
use mathlib.Core.List.{Permᴰ}
use mathlib.Core.List.Permᴰ
use mathlib.Core.Path.{subst}
use mathlib.Core.Option.{some-injective}
use gpu_moses.Prelude.{
  ℕ, zero, suc, ◌≡◌, refl, sym, ap, ◌∙◌, ◌⊎◌, inl, inr, Bool, true, List, [], ◌∷◌, ◌++◌, length,
  insert_at, All, All-right, Ordered, some, none≢some, get_elem?, set,
}

pub length-Permᴰ {ℓ} : {A : Type ℓ} {xs ys : List A} → Permᴰ xs ys → length xs ≡ length ys
length-Permᴰ Permᴰ.nil = refl
length-Permᴰ (Permᴰ.cons _ p) = ap suc (length-Permᴰ p)
length-Permᴰ (Permᴰ.swap _ _) = refl
length-Permᴰ (Permᴰ.trans p q) = length-Permᴰ p ∙ length-Permᴰ q

pub insert_at-Permᴰ {ℓ} :
    {A : Type ℓ} (i : ℕ) (v : A) (xs : List A) → Permᴰ (insert_at i v xs) (v ∷ xs)
insert_at-Permᴰ zero v xs = Permᴰ.refl (v ∷ xs)
insert_at-Permᴰ (suc i) v [] = Permᴰ.refl (v ∷ [])
insert_at-Permᴰ (suc i) v (x ∷ xs) =
    Permᴰ.trans (Permᴰ.cons refl (insert_at-Permᴰ i v xs)) (Permᴰ.swap refl refl)

-- A write takes the old entry out and puts the new one in.
pub set-Permᴰ {ℓ} :
    {A : Type ℓ} (i : ℕ) (v x : A) (xs : List A)
    → get_elem? xs i ≡ some x
    → Permᴰ (x ∷ set xs i v) (v ∷ xs)
set-Permᴰ i v x [] at = absurd (none≢some x at)
set-Permᴰ zero v x (y ∷ xs) at = Permᴰ.swap (sym (some-injective y x at)) refl
set-Permᴰ (suc i) v x (y ∷ xs) at =
    Permᴰ.trans (Permᴰ.swap refl refl)
      (Permᴰ.trans (Permᴰ.cons refl (set-Permᴰ i v x xs at)) (Permᴰ.swap refl refl))

module _ {ℓ κ} {A : Type ℓ} (P : A → Type κ) where
  pub All-Permᴰ : {xs ys : List A} → Permᴰ xs ys → All P xs → All P ys
  All-Permᴰ Permᴰ.nil h = h
  All-Permᴰ (Permᴰ.cons e p) h = (subst P e h.0, All-Permᴰ p h.1)
  All-Permᴰ (Permᴰ.swap e f) h = (subst P f h.1.0, (subst P e h.0, h.1.1))
  All-Permᴰ (Permᴰ.trans p q) h = All-Permᴰ q (All-Permᴰ p h)

module _ {ℓ} {A : Type ℓ} (lt : A → A → Bool) where
  -- Comparable one way or the other, and lists whose entries all are.
  abbrev pub Apart : A → A → Type 0
  Apart x y = (lt x y ≡ true) ⊎ (lt y x ≡ true)

  abbrev pub Distinct : List A → Type 0
  Distinct = Ordered Apart

  Apart-symm : (x y : A) → Apart x y → Apart y x
  Apart-symm x y (inl h) = inr h
  Apart-symm x y (inr h) = inl h

  pub Distinct-Permᴰ : {xs ys : List A} → Permᴰ xs ys → Distinct xs → Distinct ys
  Distinct-Permᴰ Permᴰ.nil h = h
  Distinct-Permᴰ (Permᴰ.cons {a = a} {b = b} {l₂ = ys} e p) h =
      (subst (λ x. All (Apart x) ys) e (All-Permᴰ (Apart a) p h.0), Distinct-Permᴰ p h.1)
  Distinct-Permᴰ (Permᴰ.swap {a = a} {b = b} {b' = b'} {l = l} e f) h =
      subst (λ x. Distinct (x ∷ b' ∷ l)) f
        (subst (λ y. Distinct (b ∷ y ∷ l)) e ((Apart-symm a b h.0.0, h.1.0), (h.0.1, h.1.1)))
  Distinct-Permᴰ (Permᴰ.trans p q) h = Distinct-Permᴰ q (Distinct-Permᴰ p h)

  pub IsStrictlySorted→Distinct : (xs : List A) → Ordered (λ x y. lt x y ≡ true) xs → Distinct xs
  IsStrictlySorted→Distinct [] h = h
  IsStrictlySorted→Distinct (x ∷ xs) h = (less xs h.0, IsStrictlySorted→Distinct xs h.1)
    where
      less : (ys : List A) → All (λ y. lt x y ≡ true) ys → All (Apart x) ys
      less [] k = k
      less (y ∷ ys) k = (inl k.0, less ys k.1)

-- Every entry of the first part is in the relation with every one of the second.
pub Ordered-cross {ℓ κ} :
    {A : Type ℓ} (R : A → A → Type κ) (xs ys : List A)
    → Ordered R (xs ++ ys)
    → All (λ x. All (R x) ys) xs
Ordered-cross R [] ys o = tt
Ordered-cross R (x ∷ xs) ys o = (All-right (R x) xs ys o.0, Ordered-cross R xs ys o.1)
