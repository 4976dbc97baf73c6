-- ===== src/Output/Best.antt =====
-- The search for the best hypothesis of a stack.
use mathlib.Core.Path.{subst}
use mathlib.Core.Option.{some-injective}
use gpu_moses.Prelude.{
  ℕ, zero, suc, ◌+◌, ◌<◌, ◌≡◌, refl, sym, ap, ◌∙◌, Bool, true, false, none, some, List, arith,
  length, get_elem?, get_elem?-some, get_elem?_lt, dec_lt, Bool-cases, inl, inr, true≢false,
}
use gpu_moses.Outcome.{Returns, returns}
use gpu_moses.Cuda.Buffer.{Buffer}
use gpu_moses.Cuda.Holds.{Holds, read-Holds}
use gpu_moses.Cuda.Order.{StrictWeakOrder}
use gpu_moses.Hypothesis.{Hypothesis, fields}
use gpu_moses.Output.{best_loop}

module _ {ℓ κ} {S : Type ℓ} {N : Type κ} (future_score : S → N) (greater : N → N → Bool)
    (lowest : N) (order : StrictWeakOrder greater) where
  abbrev pub score_of : Hypothesis S → N
  score_of h = future_score (fields h).scores

  -- `h` is an entry, and none of the first `n` entries has a better score.
  abbrev pub IsBest : List (Hypothesis S) → ℕ → Hypothesis S → Type ℓ
  IsBest hs n h =
      ((k : ℕ) × (get_elem? hs k ≡ some h))
      × ((j : ℕ) (y : Hypothesis S)
          → j < n
          → get_elem? hs j ≡ some y
          → greater (score_of y) (score_of h) ≡ false)

  IsBest-new :
      (hs : List (Hypothesis S)) (i : ℕ) (h new : Hypothesis S)
      → get_elem? hs i ≡ some new
      → greater (score_of new) (score_of h) ≡ true
      → IsBest hs i h
      → IsBest hs (i + 1) new
  IsBest-new hs i h new at wins is = ((i, at), none_better)
    where
      none_better :
          (j : ℕ) (y : Hypothesis S)
          → j < i + 1
          → get_elem? hs j ≡ some y
          → greater (score_of y) (score_of new) ≡ false
      none_better j y less at_j = elim (dec_lt j i) [
        | yes old ↦ elim (Bool-cases (greater (score_of y) (score_of new))) [
          | inl better ↦ absurd (
              true≢false (order.trans (score_of y) (score_of new) (score_of h) better wins)
                (is.1 j y old at_j))
          | inr e ↦ e
        ]
        | no last ↦
            let same : j ≡ i = omega arith in
            subst (λ z. greater (score_of z) (score_of new) ≡ false)
              (some-injective new y (sym at ∙ sym (ap (get_elem? hs) same) ∙ at_j))
              (order.irrefl (score_of new))
      ]

  IsBest-old :
      (hs : List (Hypothesis S)) (i : ℕ) (h new : Hypothesis S)
      → get_elem? hs i ≡ some new
      → greater (score_of new) (score_of h) ≡ false
      → IsBest hs i h
      → IsBest hs (i + 1) h
  IsBest-old hs i h new at loses is = (is.0, none_better)
    where
      none_better :
          (j : ℕ) (y : Hypothesis S)
          → j < i + 1
          → get_elem? hs j ≡ some y
          → greater (score_of y) (score_of h) ≡ false
      none_better j y less at_j = elim (dec_lt j i) [
        | yes old ↦ is.1 j y old at_j
        | no last ↦
            let same : j ≡ i = omega arith in
            subst (λ z. greater (score_of z) (score_of h) ≡ false)
              (some-injective new y (sym at ∙ sym (ap (get_elem? hs) same) ∙ at_j)) loses
      ]

  best_loop-IsBest :
      (rounds i : ℕ) (hs : List (Hypothesis S)) (b : Buffer (Hypothesis S)) (h : Hypothesis S)
      → Holds b hs
      → i + rounds ≡ length hs
      → IsBest hs i h
      → Returns
          (λ r. (best : Hypothesis S) × (r ≡ some best) × IsBest hs (length hs) best)
          (best_loop future_score greater lowest rounds i b (score_of h) (some h))
  unfolding best_loop
  best_loop-IsBest zero i hs b h holds e is =
      returns (h, refl, (is.0, λ j y less at. is.1 j y (omega arith) at))
  best_loop-IsBest (suc rounds) i hs b h holds e is =
      let (new, at) = get_elem?-some hs i (omega arith) in
      rw (read-Holds holds i new at) (elim (Bool-cases (greater (score_of new) (score_of h))) [
        | inl wins ↦ rw wins (
            best_loop-IsBest rounds (i + 1) hs b new holds (omega arith)
              (IsBest-new hs i h new at wins is))
        | inr loses ↦ rw loses (
            best_loop-IsBest rounds (i + 1) hs b h holds (omega arith)
              (IsBest-old hs i h new at loses is))
      ])

  IsBest-first :
      (hs : List (Hypothesis S)) (h : Hypothesis S) → get_elem? hs 0 ≡ some h → IsBest hs 1 h
  IsBest-first hs h at = (
    (0, at),
    λ j y less at_j.
        let same : j ≡ 0 = omega arith in
        subst (λ z. greater (score_of z) (score_of h) ≡ false)
          (some-injective h y (sym at ∙ sym (ap (get_elem? hs) same) ∙ at_j))
          (order.irrefl (score_of h)),
  )

  best_loop_start :
      (n : ℕ) (hs : List (Hypothesis S)) (b : Buffer (Hypothesis S)) (first : Hypothesis S)
      → n ≡ length hs
      → Holds b hs
      → get_elem? hs 0 ≡ some first
      → greater (score_of first) lowest ≡ true
      → Returns
          (λ r. (best : Hypothesis S) × (r ≡ some best) × IsBest hs (length hs) best)
          (best_loop future_score greater lowest n 0 b lowest none)
  unfolding best_loop
  best_loop_start zero hs b first e holds at wins =
      absurd (omega (arith, get_elem?_lt hs 0 first at))
  best_loop_start (suc n) hs b first e holds at wins =
      rw (read-Holds holds 0 first at, wins)
        (best_loop-IsBest n 1 hs b first holds (omega arith) (IsBest-first hs first at))

  -- In a stack whose first entry beats the lowest score, a best entry is found.
  pub best_loop-found :
      (hs : List (Hypothesis S)) (b : Buffer (Hypothesis S)) (first : Hypothesis S)
      → Holds b hs
      → get_elem? hs 0 ≡ some first
      → greater (score_of first) lowest ≡ true
      → Returns
          (λ r. (best : Hypothesis S) × (r ≡ some best) × IsBest hs (length hs) best)
          (best_loop future_score greater lowest (length hs) 0 b lowest none)
  best_loop-found hs b first holds at wins =
      best_loop_start (length hs) hs b first refl holds at wins
