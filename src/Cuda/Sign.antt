-- ===== src/Cuda/Sign.antt =====
-- Three-way comparisons, the `int` results of the `Compare` members: -1, 0 and +1.
use gpu_moses.Prelude.{◌≡◌, refl, sym, Bool, true, false, arith, if◌then◌else◌}
use gpu_moses.Cuda.Order.{StrictWeakOrder, lt_asymm}

pub data Sign : Type 0 where
  minus_one no_sign plus_one : Sign

abbrev pub negate : Sign → Sign
negate minus_one = plus_one
negate no_sign = no_sign
negate plus_one = minus_one

abbrev pub is_minus : Sign → Bool
is_minus minus_one = true
is_minus no_sign = false
is_minus plus_one = false

-- `if (comp != 0) return comp;` before a second comparison.
abbrev pub or_else : Sign → Sign → Sign
or_else minus_one t = minus_one
or_else no_sign t = t
or_else plus_one t = plus_one

-- What the signs of (a, b) and (b, c) say of the sign of (a, c).
abbrev pub Composes : Sign → Sign → Sign → Type 0
Composes no_sign q r = r ≡ q
Composes minus_one minus_one r = r ≡ minus_one
Composes minus_one no_sign r = r ≡ minus_one
Composes minus_one plus_one r = Unit
Composes plus_one minus_one r = Unit
Composes plus_one no_sign r = r ≡ plus_one
Composes plus_one plus_one r = r ≡ plus_one

-- A consistent three-way comparison.
pub record IsComparison {ℓ} {A : Type ℓ} (cmp : A → A → Sign) : Type ℓ where
  pub self : (a : A) → cmp a a ≡ no_sign
  pub flip : (a b : A) → cmp b a ≡ negate (cmp a b)
  pub comp : (a b c : A) → Composes (cmp a b) (cmp b c) (cmp a c)

pub Composes-or_else :
    (p q r p' q' r' : Sign)
    → Composes p q r
    → Composes p' q' r'
    → Composes (or_else p p') (or_else q q') (or_else r r')
Composes-or_else minus_one minus_one r p' q' r' h k = ground arith
Composes-or_else minus_one no_sign r p' q' r' h k = ground arith
Composes-or_else minus_one plus_one r p' q' r' h k = tt
Composes-or_else no_sign minus_one r p' q' r' h k = ground arith
Composes-or_else no_sign no_sign r p' q' r' h k = ground arith
Composes-or_else no_sign plus_one r p' q' r' h k = ground arith
Composes-or_else plus_one minus_one r p' q' r' h k = tt
Composes-or_else plus_one no_sign r p' q' r' h k = ground arith
Composes-or_else plus_one plus_one r p' q' r' h k = ground arith

pub negate-or_else : (s t : Sign) → negate (or_else s t) ≡ or_else (negate s) (negate t)
negate-or_else minus_one t = refl
negate-or_else no_sign t = refl
negate-or_else plus_one t = refl

-- "Less, then anything" and "anything, then more" against an end of the order.
pub Composes-below : (s : Sign) → Composes minus_one s minus_one
Composes-below minus_one = refl
Composes-below no_sign = refl
Composes-below plus_one = tt

pub Composes-above : (s : Sign) → Composes s plus_one plus_one
Composes-above minus_one = tt
Composes-above no_sign = refl
Composes-above plus_one = refl

-- Two comparisons in turn make one.
pub or_else-IsComparison {ℓ} :
    {A : Type ℓ} {c d : A → A → Sign}
    → IsComparison c
    → IsComparison d
    → IsComparison (λ a b. or_else (c a b) (d a b))
or_else-IsComparison {c} {d} hc hd = record {
  self = λ a. rw (hc.self a) (hd.self a);
  flip = λ a b. rw (hc.flip a b, hd.flip a b) (sym (negate-or_else (c a b) (d a b)));
  comp = λ a b e. Composes-or_else _ _ (c a e) _ _ (d a e) (hc.comp a b e) (hd.comp a b e);
}

-- Read through a function, a comparison stays one.
pub on-IsComparison {ℓ κ} :
    {A : Type ℓ} {B : Type κ} {c : B → B → Sign} (f : A → B)
    → IsComparison c
    → IsComparison (λ a b. c (f a) (f b))
on-IsComparison f h = record {
  self = λ a. h.self (f a);
  flip = λ a b. h.flip (f a) (f b);
  comp = λ a b e. h.comp (f a) (f b) (f e);
}

-- "Below 0" is a strict weak order.
pub IsComparison-order {ℓ} :
    {A : Type ℓ} {c : A → A → Sign} → IsComparison c → StrictWeakOrder (λ a b. is_minus (c a b))
IsComparison-order {c} h = record {
  irrefl = λ a. rw (h.self a);
  trans = λ a b e p q. below_trans (c a b) (c b e) (c a e) (h.comp a b e) p q;
  cotrans =
      λ a b e p q. below_cotrans (c a b) (c b a) (c b e) (c a e) (h.flip a b) (h.comp b a e) p q;
}
  where
    below_trans :
        (p q r : Sign) → Composes p q r → is_minus p ≡ true → is_minus q ≡ true → is_minus r ≡ true
    below_trans p q r k hp hq = ground arith

    below_cotrans :
        (p p' q r : Sign)
        → p' ≡ negate p
        → Composes p' r q
        → is_minus r ≡ true
        → is_minus p ≡ false
        → is_minus q ≡ true
    below_cotrans p p' q r e k hr hp = ground arith

-- The comparison that a `<` decides, with the signs of the loop in `Array::Compare`.
module _ {ℓ} {A : Type ℓ} (lt : A → A → Bool) where
  abbrev pub entry_sign : A → A → Sign
  entry_sign x y = if lt x y then plus_one else if lt y x then minus_one else no_sign

  pub entry_sign-IsComparison : StrictWeakOrder lt → IsComparison entry_sign
  entry_sign-IsComparison order = record {
    self = λ a. ground (arith, order.irrefl a);
    flip = λ a b. ground (arith, lt_asymm order a b, lt_asymm order b a);
    comp = λ a b c. ground (
      arith,
      order.cotrans a b c,
      order.cotrans a c b,
      order.cotrans b a c,
      order.cotrans b c a,
      order.cotrans c a b,
      order.cotrans c b a,
      order.trans a b c,
      order.trans c b a,
      lt_asymm order a c,
      lt_asymm order a b,
      lt_asymm order b c,
    );
  }
