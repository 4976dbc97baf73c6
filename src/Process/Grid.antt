-- ===== src/Process/Grid.antt =====
-- The threads of a grid: all combinations of indices.
use gpu_moses.Prelude.{
  ℕ, zero, suc, ◌+◌, ◌<◌, ◌≡◌, sym, ap, ◌∙◌, some, List, [], ◌∷◌, ◌++◌, map, arith, length,
  get_elem?, get_elem?_lt, get_elem?-append_left, get_elem?-append_right, get_elem?-map, All,
  All-append, none≢some, ℕ_discrete,
}
use mathlib.Core.Option
use mathlib.Core.Path.{subst}
use gpu_moses.Process.{indices, join_map}

module _ {ℓ} {A : Type ℓ} where
  pub All-widen {κ μ} :
      {P : A → Type κ} {Q : A → Type μ} (xs : List A) → All P xs → ((x : A) → P x → Q x) → All Q xs
  All-widen [] h f = tt
  All-widen (x ∷ xs) h f = (f x h.0, All-widen xs h.1 f)

  pub All-map {κ μ} :
      {B : Type κ} (P : B → Type μ) (f : A → B) (xs : List A)
      → All (λ a. P (f a)) xs
      → All P (map f xs)
  All-map P f [] h = tt
  All-map P f (x ∷ xs) h = (h.0, All-map P f xs h.1)

  pub All-join_map {κ μ} :
      {B : Type κ} (P : B → Type μ) (f : A → List B) (xs : List A)
      → All (λ a. All P (f a)) xs
      → All P (join_map f xs)
  All-join_map P f [] h = tt
  All-join_map P f (x ∷ xs) h = All-append P (f x) (join_map f xs) h.0 (All-join_map P f xs h.1)

  -- An entry of a list, with its place.
  abbrev pub IsIn : A → List A → Type ℓ
  IsIn a xs = (i : ℕ) × (get_elem? xs i ≡ some a)

  IsIn-left : (a : A) (xs ys : List A) → IsIn a xs → IsIn a (xs ++ ys)
  IsIn-left a xs ys (i, at) = (i, get_elem?-append_left xs ys i (get_elem?_lt xs i a at) ∙ at)

  IsIn-right : (a : A) (xs ys : List A) → IsIn a ys → IsIn a (xs ++ ys)
  IsIn-right a xs ys (i, at) = (
    length xs + i,
    get_elem?-append_right xs ys (length xs + i) (omega arith)
        ∙ ap (get_elem? ys) (omega arith)
        ∙ at,
  )

pub IsIn-map {ℓ κ} :
    {A : Type ℓ} {B : Type κ} (f : A → B) (a : A) (xs : List A) → IsIn a xs → IsIn (f a) (map f xs)
IsIn-map f a xs (i, at) = (i, get_elem?-map f xs i ∙ ap (Option.map f) at)

pub IsIn-join_map {ℓ κ} :
    {A : Type ℓ} {B : Type κ} (f : A → List B) (a : A) (b : B) (xs : List A)
    → IsIn a xs
    → IsIn b (f a)
    → IsIn b (join_map f xs)
IsIn-join_map f a b [] (i, at) there = absurd (none≢some a at)
IsIn-join_map f a b (x ∷ xs) (zero, at) there =
    IsIn-left b (f x) (join_map f xs)
      (subst (λ x. IsIn b (f x)) (Option.some-injective a x (sym at)) there)
IsIn-join_map f a b (x ∷ xs) (suc i, at) there =
    IsIn-right b (f x) (join_map f xs) (IsIn-join_map f a b xs (i, at) there)

pub indices-lt : (n : ℕ) → All (λ i. i < n) (indices n)
indices-lt zero = tt
indices-lt (suc n) =
    All-append _ (indices n) (n ∷ []) (All-widen (indices n) (indices-lt n) λ i less. omega arith)
      (omega arith, tt)

pub IsIn-indices : (n i : ℕ) → i < n → IsIn i (indices n)
IsIn-indices zero i less = absurd (omega arith)
IsIn-indices (suc n) i less = elim (ℕ_discrete i n) [
  | yes same ↦ IsIn-right i (indices n) (n ∷ []) (0, ap some (sym same))
  | no differ ↦ IsIn-left i (indices n) (n ∷ []) (IsIn-indices n i (omega arith))
]
