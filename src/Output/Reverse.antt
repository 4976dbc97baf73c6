-- ===== src/Output/Reverse.antt =====
-- The reversal in place.
use gpu_moses.Prelude.{
  ℕ, zero, suc, ◌+◌, ◌-◌, ◌/◌, ◌≤◌, ◌<◌, ◌≡◌, ◌≢◌, ◌⊎◌, inl, inr, refl, sym, ap, ◌∙◌, some, List,
  arith, length, get_elem?, get_elem?-some, get_elem?_lt, get_elem?-set_self, get_elem?-set_ne, set,
  length-set, ℕ_discrete,
}
use gpu_moses.Outcome.{Returns, returns, Returns-bind, Returns-map}
use gpu_moses.Cuda.Buffer.{Buffer}
use gpu_moses.Cuda.Holds.{Holds, read-Holds, write-Holds}
use gpu_moses.Output.{reverse_loop}

-- `ys` is `xs` with the entries from `i` to the `i`-th from the end of the first `n` in reverse.
pub record IsReversed (i n : ℕ) (xs ys : List ℕ) : Type 0 where
  pub same_length : length ys ≡ length xs
  pub inside : (j : ℕ) → i ≤ j → j + i < n → get_elem? ys j ≡ get_elem? xs (n - 1 - j)
  pub outside : (j : ℕ) → (j < i) ⊎ (n ≤ j + i) → get_elem? ys j ≡ get_elem? xs j

-- One exchange of two entries.
get_elem?-exchanged :
    (i k a b : ℕ) (xs : List ℕ)
    → i < k
    → get_elem? xs i ≡ some a
    → get_elem? xs k ≡ some b
    → (get_elem? (set (set xs i b) k a) i ≡ some b)
      × (get_elem? (set (set xs i b) k a) k ≡ some a)
      × ((j : ℕ) → j ≢ i → j ≢ k → get_elem? (set (set xs i b) k a) j ≡ get_elem? xs j)
get_elem?-exchanged i k a b xs apart at_i at_k = (
  get_elem?-set_ne (set xs i b) k i a (λ e. absurd (omega arith))
      ∙ get_elem?-set_self xs i b (get_elem?_lt xs i a at_i),
  get_elem?-set_self (set xs i b) k a (omega (arith, length-set xs i b, get_elem?_lt xs k b at_k)),
  λ j not_i not_k.
      get_elem?-set_ne (set xs i b) k j a (λ e. not_k (sym e))
      ∙ get_elem?-set_ne xs i j b (λ e. not_i (sym e)),
)

IsReversed-middle : (i n : ℕ) (xs : List ℕ) → n ≤ i + i + 1 → IsReversed i n xs xs
IsReversed-middle i n xs few = record {
  same_length = refl;
  inside = λ j from to. ap (get_elem? xs) (omega arith);
  outside = λ j out. refl;
}

IsReversed-exchange :
    (i n a b : ℕ) (xs ys : List ℕ)
    → i + 1 < n - i
    → get_elem? xs i ≡ some a
    → get_elem? xs (n - i - 1) ≡ some b
    → IsReversed (i + 1) n (set (set xs i b) (n - i - 1) a) ys
    → IsReversed i n xs ys
IsReversed-exchange i n a b xs ys apart at_i at_k r = record {
  same_length = r.same_length ∙ length-set (set xs i b) (n - i - 1) a ∙ length-set xs i b;
  inside = within;
  outside = λ j out.
      r.outside j (widen j out)
      ∙ rest j (λ e. absurd (apart_from j out (inl e))) (λ e. absurd (apart_from j out (inr e)));
}
  where
    moved :
        (get_elem? (set (set xs i b) (n - i - 1) a) i ≡ some b)
        × (get_elem? (set (set xs i b) (n - i - 1) a) (n - i - 1) ≡ some a)
        × ((j : ℕ)
            → j ≢ i
            → j ≢ n - i - 1
            → get_elem? (set (set xs i b) (n - i - 1) a) j ≡ get_elem? xs j)
    moved = get_elem?-exchanged i (n - i - 1) a b xs (omega arith) at_i at_k

    rest :
        (j : ℕ)
        → j ≢ i
        → j ≢ n - i - 1
        → get_elem? (set (set xs i b) (n - i - 1) a) j ≡ get_elem? xs j
    rest = moved.2

    widen : (j : ℕ) → (j < i) ⊎ (n ≤ j + i) → (j < i + 1) ⊎ (n ≤ j + (i + 1))
    widen j (inl h) = inl (omega arith)
    widen j (inr h) = inr (omega arith)

    apart_from : (j : ℕ) → (j < i) ⊎ (n ≤ j + i) → (j ≡ i) ⊎ (j ≡ n - i - 1) → ⊥
    apart_from j (inl h) (inl e) = omega arith
    apart_from j (inl h) (inr e) = omega arith
    apart_from j (inr h) (inl e) = omega arith
    apart_from j (inr h) (inr e) = omega arith

    within : (j : ℕ) → i ≤ j → j + i < n → get_elem? ys j ≡ get_elem? xs (n - 1 - j)
    within j from to = elim (ℕ_discrete j i) [
      | yes first ↦
          r.outside j (inl (omega arith))
          ∙ ap (get_elem? (set (set xs i b) (n - i - 1) a)) first
          ∙ moved.0
          ∙ sym at_k
          ∙ ap (get_elem? xs) (omega arith)
      | no not_first ↦ elim (ℕ_discrete j (n - i - 1)) [
        | yes last ↦
            r.outside j (inr (omega arith))
            ∙ ap (get_elem? (set (set xs i b) (n - i - 1) a)) last
            ∙ moved.1
            ∙ sym at_i
            ∙ ap (get_elem? xs) (omega arith)
        | no not_last ↦
            r.inside j (omega arith) (omega arith)
            ∙ rest (n - 1 - j) (λ e. absurd (omega arith)) (λ e. absurd (omega arith))
      ]
    ]

pub reverse_loop-IsReversed :
    (rounds i n : ℕ) (xs : List ℕ) (ids : Buffer ℕ)
    → Holds ids xs
    → i + rounds ≡ n / 2
    → n ≤ length xs
    → Returns
        (λ ids'. (ys : List ℕ) × Holds ids' ys × IsReversed i n xs ys)
        (reverse_loop rounds i n ids)
unfolding reverse_loop
reverse_loop-IsReversed zero i n xs ids h e space =
    returns (xs, h, IsReversed-middle i n xs (omega arith))
reverse_loop-IsReversed (suc rounds) i n xs ids h e space =
    let (a, at_i) = get_elem?-some xs i (omega arith) in
    let (b, at_k) = get_elem?-some xs (n - i - 1) (omega arith) in
    rw (read-Holds h i a at_i, read-Holds h (n - i - 1) b at_k)
      (Returns-bind (write-Holds h i b (omega arith)) λ ids' (h', _).
        Returns-bind (write-Holds h' (n - i - 1) a (omega (arith, length-set xs i b)))
          λ ids'' (h'', _).
            Returns-map
              (reverse_loop-IsReversed rounds (i + 1) n (set (set xs i b) (n - i - 1) a) ids'' h''
                (omega arith)
                (omega (arith, length-set (set xs i b) (n - i - 1) a, length-set xs i b)))
              λ out (ys, hy, r).
                (ys, hy, IsReversed-exchange i n a b xs ys (omega arith) at_i at_k r))
