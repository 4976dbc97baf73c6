-- ===== src/Scores/Sums.antt =====
-- The sums and the spans that the loops write.
use mathlib.Core.Path.{subst}
use mathlib.Core.List.{append_assoc}
use gpu_moses.Prelude.{
  ℕ, ◌+◌, ◌≤◌, ◌≡◌, refl, ap, some, List, [], ◌∷◌, ◌++◌, arith, length, length-append, get_elem?,
  set, length-set, ==_self, get_elem?-middle,
}
use gpu_moses.Outcome.{Returns, returns, Returns-bind}
use gpu_moses.Cuda.Buffer.{Buffer}
use gpu_moses.Cuda.Holds.{Holds, read-Holds, write-Holds}
use gpu_moses.Scores.{Scores, FeatureSpan, plus_loop, plus_equal, assign_loop, plus_equal_vector}

module _ {ℓ} {N : Type ℓ} (null : N) (plus times : N → N → N) where
  -- The weighted sum, in the order of the additions.
  abbrev pub weighted : N → List N → List N → N
  weighted total [] ws = total
  weighted total (x ∷ xs) [] = total
  weighted total (x ∷ xs) (w ∷ ws) = weighted (plus total (times x w)) xs ws

  abbrev pub overwrite : ℕ → List N → List N → List N
  overwrite i [] xs = xs
  overwrite i (y ∷ ys) xs = overwrite (i + 1) ys (set xs i y)

  assign_loop-overwrite :
      (scores ws before after xs : List N) (i start : ℕ) (weights : Buffer N) (s : Scores N)
      → Holds s.m_scores xs
      → Holds weights (before ++ (ws ++ after))
      → length before ≡ i + start
      → length ws ≡ length scores
      → i + start + length scores ≤ length xs
      → Returns
          (λ r.
            Holds r.m_scores (overwrite (i + start) scores xs)
            × (r.m_total ≡ weighted s.m_total scores ws))
          (assign_loop null plus times weights start i scores s)
  unfolding assign_loop
  assign_loop-overwrite [] ws before after xs i start weights s hs hw at len fits =
      returns (hs, refl)
  assign_loop-overwrite (x ∷ scores) [] before after xs i start weights s hs hw at len fits =
      absurd (omega (arith, len))
  assign_loop-overwrite (x ∷ scores) (w ∷ ws) before after xs i start weights s hs hw at len fits =
      let weight : get_elem? (before ++ (w ∷ ws ++ after)) (i + start) ≡ some w =
        rw at at (get_elem?-middle before (ws ++ after) w) in
      let next : i + 1 + start ≡ i + start + 1 = omega arith in
      Returns-bind (write-Holds hs (i + start) x (omega arith)) λ m (h, _).
        rw (read-Holds hw (i + start) w weight) (
          subst
            (λ k.
              Returns
                (λ r.
                  Holds r.m_scores (overwrite k scores (set xs (i + start) x))
                  × (r.m_total ≡ weighted (plus s.m_total (times x w)) scores ws))
                (assign_loop null plus times weights start (i + 1) scores
                  (record { m_scores = m; m_total = plus s.m_total (times x w) })))
            next
            (assign_loop-overwrite scores ws (before ++ w ∷ []) after (set xs (i + start) x) (i + 1)
              start weights (record { m_scores = m; m_total = plus s.m_total (times x w) }) h
              (rw (append_assoc before (w ∷ []) (ws ++ after)) hw)
              (omega (arith, at, length-append before (w ∷ []))) (omega (arith, len))
              (omega (arith, length-set xs (i + start) x))))

  -- `Scores::PlusEqual` of a vector of scores: with as many as the feature has, inside the scores and
  -- the weights, it ends without a fault, writes the scores to the span of the feature, and adds
  -- their weighted sum to the total.
  pub plus_equal_vector-overwrite :
      (ff : FeatureSpan) (scores ws before after xs : List N) (weights : Buffer N) (s : Scores N)
      → Holds s.m_scores xs
      → Holds weights (before ++ (ws ++ after))
      → length before ≡ ff.start_ind
      → length ws ≡ ff.num_scores
      → ff.start_ind + ff.num_scores ≤ length xs
      → length scores ≡ ff.num_scores
      → Returns
          (λ r.
            Holds r.m_scores (overwrite ff.start_ind scores xs)
            × (r.m_total ≡ weighted s.m_total scores ws))
          (plus_equal_vector null plus times weights ff scores s)
  unfolding plus_equal_vector
  plus_equal_vector-overwrite ff scores ws before after xs weights s hs hw at len fits right =
      let first : 0 + ff.start_ind ≡ ff.start_ind = omega arith in
      rw (right, ==_self ff.num_scores)
        (subst
          (λ k.
            Returns
              (λ r.
                Holds r.m_scores (overwrite k scores xs)
                × (r.m_total ≡ weighted s.m_total scores ws))
              (assign_loop null plus times weights ff.start_ind 0 scores s))
          first
          (assign_loop-overwrite scores ws before after xs 0 ff.start_ind weights s hs hw
            (omega (arith, at)) (omega (arith, len, right)) (omega (arith, right))))

  -- Entry by entry, for lists of one length.
  abbrev pub sums : List N → List N → List N
  sums [] ys = []
  sums (x ∷ xs) [] = x ∷ xs
  sums (x ∷ xs) (y ∷ ys) = plus x y ∷ sums xs ys

  set-middle : (us vs : List N) (x v : N) → set (us ++ (x ∷ vs)) (length us) v ≡ us ++ (v ∷ vs)
  set-middle [] vs x v = refl
  set-middle (u ∷ us) vs x v = ap (◌∷◌ u) (set-middle us vs x v)

  plus_loop-sums :
      (xs ys us vs : List N) (i : ℕ) (other mine : Buffer N)
      → Holds other (vs ++ ys)
      → Holds mine (us ++ xs)
      → length us ≡ i
      → length vs ≡ i
      → length ys ≡ length xs
      → Returns
          (λ m. Holds m (us ++ sums xs ys))
          (plus_loop null plus times (length xs) i other mine)
  unfolding plus_loop
  plus_loop-sums [] ys us vs i other mine ho hm at at' same = returns hm
  plus_loop-sums (x ∷ xs) [] us vs i other mine ho hm at at' same = absurd (omega (arith, same))
  plus_loop-sums (x ∷ xs) (y ∷ ys) us vs i other mine ho hm at at' same =
      let mine_at : get_elem? (us ++ (x ∷ xs)) i ≡ some x = rw at at (get_elem?-middle us xs x) in
      let other_at : get_elem? (vs ++ (y ∷ ys)) i ≡ some y = rw at' at (get_elem?-middle vs ys y) in
      rw (read-Holds hm i x mine_at, read-Holds ho i y other_at)
        (Returns-bind (write-Holds hm i (plus x y) (omega (arith, length-append us (x ∷ xs))))
          λ m (h, _).
            let written : set (us ++ (x ∷ xs)) i (plus x y) ≡ us ++ (plus x y ∷ xs) =
              rw at at (set-middle us xs x (plus x y)) in
            rw (← append_assoc us (plus x y ∷ []) (sums xs ys)) (
              plus_loop-sums xs ys (us ++ plus x y ∷ []) (vs ++ y ∷ []) (i + 1) other m
                (rw (append_assoc vs (y ∷ []) ys) ho)
                (rw (append_assoc us (plus x y ∷ []) xs, ← written) h)
                (omega (arith, at, length-append us (plus x y ∷ [])))
                (omega (arith, at', length-append vs (y ∷ []))) (omega (arith, same))))

  -- `ScoresUnmanaged::PlusEqual` of other scores with the same number of entries ends without a fault,
  -- and adds entry to entry and total to total.
  pub plus_equal-sums :
      (xs ys : List N) (other s : Scores N)
      → Holds s.m_scores xs
      → Holds other.m_scores ys
      → length ys ≡ length xs
      → Returns
          (λ r. Holds r.m_scores (sums xs ys) × (r.m_total ≡ plus s.m_total other.m_total))
          (plus_equal null plus times (length xs) other s)
  unfolding plus_equal
  plus_equal-sums xs ys other s hs ho same =
      Returns-bind (plus_loop-sums xs ys [] [] 0 other.m_scores s.m_scores ho hs refl refl same)
        λ m h. returns (h, refl)
