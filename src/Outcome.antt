-- ===== src/Outcome.antt =====
-- How device and host code ends: with a value, or at a fault that the source leaves to the machine.
use mathlib.Core.Path.{subst}
use gpu_moses.Prelude.{sym, ◌∙◌, ◌≡◌, refl, Bool, true, false, Option, none, some, if◌then◌else◌}

-- `trap` is the `asm("trap;")` of the device code, `assertion` a failed `assert`, `exception` a
-- UTIL_THROW. A read or write outside an allocation, and a read of a cell that was never written,
-- are undefined behaviour in the source; here they end the run.
pub data Fault : Type 0 where
  trap out_of_bounds uninitialised assertion exception null_pointer out_of_fuel : Fault

pub data Outcome {ℓ} (A : Type ℓ) : Type ℓ where
  done : A → Outcome A
  fault : Fault → Outcome A

infixl 5 ◌>>=◌ ◌>>◌
abbrev pub ◌>>=◌ {ℓ κ} : {A : Type ℓ} {B : Type κ} → Outcome A → (A → Outcome B) → Outcome B
done a >>= f = f a
fault e >>= f = fault e

abbrev pub ◌>>◌ {ℓ} : {B : Type ℓ} → Outcome (Unit {0}) → Outcome B → Outcome B
m >> k = m >>= λ _. k

abbrev pub guard : Bool → Fault → Outcome (Unit {0})
guard true e = done tt
guard false e = fault e

abbrev pub or_fault {ℓ} : {A : Type ℓ} → Option A → Fault → Outcome A
or_fault none e = fault e
or_fault (some a) e = done a

-- The run ends, and its value satisfies `P`.
pub data Returns {ℓ κ} {A : Type ℓ} (P : A → Type κ) : Outcome A → Type (ℓ ⊔ κ) where
  returns : {a : A} → P a → Returns P (done a)

module _ {ℓ κ} {A : Type ℓ} {P : A → Type κ} where
  -- The value of a run that ends.
  pub Returns-inv : {m : Outcome A} → Returns P m → (v : A) × (m ≡ done v) × P v
  Returns-inv (returns {a = v} holds) = (v, refl, holds)

  pub Returns-if :
      {yes no : Outcome A} (test : Bool)
      → (test ≡ true → Returns P yes)
      → (test ≡ false → Returns P no)
      → Returns P (if test then yes else no)
  Returns-if false on_yes on_no = on_no refl
  Returns-if true on_yes on_no = on_yes refl

  pub Returns-map {μ} :
      {R : A → Type μ} {m : Outcome A} → Returns P m → ((v : A) → P v → R v) → Returns R m
  Returns-map (returns {a = v} holds) weaken = returns (weaken v holds)

  pub Returns-bind {μ ν} :
      {C : Type μ} {R : C → Type ν} {m : Outcome A} {f : A → Outcome C}
      → Returns P m
      → ((v : A) → P v → Returns R (f v))
      → Returns R (m >>= f)
  Returns-bind (returns {a = v} holds) next = next v holds

-- Two successful runs of one computation agree.
pub done-injective {ℓ} : {A : Type ℓ} (a b : A) → done a ≡ done b → a ≡ b
done-injective a b e = cc

pub Returns-at {ℓ κ} :
    {A : Type ℓ} {P : A → Type κ} {m : Outcome A} (v : A) → Returns P m → m ≡ done v → P v
Returns-at {P = P} v run e =
    let (w, e', holds) = Returns-inv run in subst P (done-injective w v (sym e' ∙ e)) holds

-- Two properties of one run.
pub Returns-both {ℓ κ μ} :
    {A : Type ℓ} {P : A → Type κ} {Q : A → Type μ} {m : Outcome A}
    → Returns P m
    → Returns Q m
    → Returns (λ a. P a × Q a) m
Returns-both (returns {a = v} p) q = returns (p, Returns-at v q refl)
