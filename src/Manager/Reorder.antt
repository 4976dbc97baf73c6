-- ===== src/Manager/Reorder.antt =====
-- The limit on reordering never leaves a hypothesis that cannot be completed.
use gpu_moses.Prelude.{
  ℕ, ◌+◌, ◌-◌, ◌≤◌, ◌<◌, ◌≡◌, ◌≢◌, refl, sym, ◌∙◌, ◌⊎◌, inl, inr, Bool, true, false, not, ltb, ◌==◌,
  ◌&&◌, some, List, arith, length, get_elem?, get_elem?_lt, if◌then◌else◌, true≢false, ==_iff,
  not-==, dec_lt, ltb-false, ℕ_discrete,
}
use mathlib.Core.Option.{some-injective}
use gpu_moses.Outcome.{done, Returns-inv, done-injective}
use gpu_moses.Range.{Range, IsRange, not_found}
use gpu_moses.Bitmap.{Bitmap}
use gpu_moses.Bitmap.Cover.{
  cover, IsFree, get_elem?-cover_in, get_elem?-cover_below, get_elem?-cover_above,
}
use gpu_moses.Bitmap.Loops.{IsGap, OverlapIs}
use gpu_moses.Bitmap.Invariant.{IsValid, IsLength, overlap-OverlapIs, span}
use gpu_moses.Signed.{pos, abs-minus}
use gpu_moses.Manager.{compute_distortion_distance, can_extend}

-- The distance between a phrase that ends at a position of the input and one that starts at another.
pub compute_distortion_distance_lem :
    (e s : ℕ) → e ≢ not_found → compute_distortion_distance e s ≡ (e + 1 - s) + (s - (e + 1))
unfolding compute_distortion_distance
compute_distortion_distance_lem e s h = rw (not-== e not_found h) (abs-minus e s)

-- No covered word is `max` or more words after the first gap, and the first gap can be reached from
-- the last word that was translated.
pub record IsRecoverable (max prev_end : ℕ) (bs : List Bool) (g : ℕ) : Type 0 where
  pub near : get_elem? bs g ≡ some false → (j : ℕ) → get_elem? bs j ≡ some true → j < g + max
  pub back : get_elem? bs g ≡ some false → compute_distortion_distance prev_end g ≤ max

-- What the tests of `ProcessStack` say when the extension is made.
passed :
    (too_far_in at_gap too_far_out : Bool)
    → (if not false && too_far_in
        then false
        else if at_gap
        then true
        else if false
        then true
        else not too_far_out)
      ≡ true
    → (at_gap ≡ true) ⊎ (too_far_out ≡ false)
passed true at_gap out h = absurd (true≢false h refl)
passed false true out h = inl refl
passed false false true h = absurd (true≢false h refl)
passed false false false h = inr refl

pub covered≢free :
    (bs : List Bool) (j : ℕ) → get_elem? bs j ≡ some true → get_elem? bs j ≡ some false → ⊥
covered≢free bs j h k = true≢false (sym (some-injective _ _ (sym h ∙ k))) refl

-- No word before the first gap is free.
pub IsGap-least : (bs : List Bool) (g j : ℕ) → IsGap bs g → get_elem? bs j ≡ some false → g ≤ j
IsGap-least bs g j (inl (hit, before)) free = elim (dec_lt j g) [
  | yes less ↦ absurd (covered≢free bs j (before j less) free)
  | no more ↦ omega arith
]
IsGap-least bs g j (inr (e, all)) free =
    absurd (covered≢free bs j (all j (get_elem?_lt bs j false free)) free)

-- If a word is free, the gap is a word, and all before it are covered.
pub IsGap-free :
    (bs : List Bool) (g j : ℕ)
    → IsGap bs g
    → get_elem? bs j ≡ some false
    → (get_elem? bs g ≡ some false) × ((i : ℕ) → i < g → get_elem? bs i ≡ some true)
IsGap-free bs g j (inl is) free = is
IsGap-free bs g j (inr (e, all)) free =
    absurd (covered≢free bs j (all j (get_elem?_lt bs j false free)) free)

module _ (max n : ℕ) (r : Range) (bs : List Bool) (len : IsLength n) (range : IsRange n r)
    (sized : length bs ≡ n) where
  pub accepted :
      (prev_end : ℕ) (bm : Bitmap)
      → IsValid bs bm
      → can_extend (pos max) prev_end bm r ≡ done true
      → IsFree r.start_pos (span r) bs
        × ((bm.first_gap ≡ r.start_pos)
            ⊎ (compute_distortion_distance r.end_pos bm.first_gap ≤ max))
  unfolding can_extend
  accepted prev_end bm v h =
      let (b, e, is) = Returns-inv (overlap-OverlapIs n r bs len range sized bm v) in
      decide b is (rw e at h)
    where
      decide :
          (b : Bool)
          → OverlapIs r.start_pos (span r) bs b
          → done (
              if b
              then false
              else if not false && ltb max (compute_distortion_distance prev_end r.start_pos)
              then false
              else if bm.first_gap == r.start_pos
              then true
              else if false
              then true
              else not (ltb max (compute_distortion_distance r.end_pos bm.first_gap)))
            ≡ done true
          → IsFree r.start_pos (span r) bs
            × ((bm.first_gap ≡ r.start_pos)
                ⊎ (compute_distortion_distance r.end_pos bm.first_gap ≤ max))
      decide true is h = absurd (true≢false (done-injective _ _ h) refl)
      decide false is h = (
        is,
        elim (passed (ltb max (compute_distortion_distance prev_end r.start_pos))
            (bm.first_gap == r.start_pos)
            (ltb max (compute_distortion_distance r.end_pos bm.first_gap)) (done-injective _ _ h)) [
              | inl same ↦ inl ((==_iff bm.first_gap r.start_pos).0 same)
              | inr short ↦
                  inr (ltb-false max (compute_distortion_distance r.end_pos bm.first_gap) short)
            ],
      )

  covered_after :
      (j : ℕ)
      → get_elem? (cover r.start_pos (span r) bs) j ≡ some true
      → (j ≤ r.end_pos) ⊎ (get_elem? bs j ≡ some true)
  covered_after j h = elim (dec_lt r.end_pos j) [
    | yes above ↦
        inr
          (sym (get_elem?-cover_above r.start_pos (span r) bs j (omega (arith, range.ordered))) ∙ h)
    | no inside ↦ inl (omega arith)
  ]

  -- A gap that is left was there before, outside the range.
  gap_before :
      (j : ℕ)
      → get_elem? (cover r.start_pos (span r) bs) j ≡ some false
      → (get_elem? bs j ≡ some false) × ((j < r.start_pos) ⊎ (r.end_pos < j))
  gap_before j h = elim (dec_lt j r.start_pos) [
    | yes below ↦ (sym (get_elem?-cover_below r.start_pos (span r) bs j below) ∙ h, inl below)
    | no from ↦ elim (dec_lt r.end_pos j) [
      | yes above ↦ (
        sym (get_elem?-cover_above r.start_pos (span r) bs j (omega (arith, range.ordered))) ∙ h,
        inr above,
      )
      | no to ↦ absurd (
          covered≢free (cover r.start_pos (span r) bs) j
            (get_elem?-cover_in r.start_pos (span r) bs j (omega arith)
              (omega (arith, range.ordered)) (omega (arith, range.inside)))
            h)
    ]
  ]

  module _ (prev_end : ℕ) (bm : Bitmap) (v : IsValid bs bm)
      (ok : can_extend (pos max) prev_end bm r ≡ done true)
      (old : IsRecoverable max prev_end bs bm.first_gap) (g' : ℕ)
      (is_gap : IsGap (cover r.start_pos (span r) bs) g')
      (hit : get_elem? (cover r.start_pos (span r) bs) g' ≡ some false) where
    distance_after :
        (g : ℕ)
        → compute_distortion_distance r.end_pos g ≡ (r.end_pos + 1 - g) + (g - (r.end_pos + 1))
    distance_after g =
        compute_distortion_distance_lem r.end_pos g λ e. absurd (omega (arith, range.inside, len.1))

    free_before : get_elem? bs g' ≡ some false
    free_before = (gap_before g' hit).0

    old_gap : get_elem? bs bm.first_gap ≡ some false
    old_gap = (IsGap-free bs bm.first_gap g' v.gap free_before).0

    grows : bm.first_gap ≤ g'
    grows = IsGap-least bs bm.first_gap g' v.gap free_before

    free_start : get_elem? bs r.start_pos ≡ some false
    free_start =
        (accepted prev_end bm v ok).0 r.start_pos (omega arith) (omega (arith, range.ordered))

    -- Away from the left-most edge the gap stays.
    stays : bm.first_gap ≢ r.start_pos → g' ≤ bm.first_gap
    stays differ =
        let least : bm.first_gap ≤ r.start_pos = IsGap-least bs _ _ v.gap free_start in
        IsGap-least (cover r.start_pos (span r) bs) g' bm.first_gap is_gap
          (get_elem?-cover_below r.start_pos (span r) bs bm.first_gap (omega arith) ∙ old_gap)

    -- At the left-most edge the gap moves beyond the range.
    moves : bm.first_gap ≡ r.start_pos → r.end_pos < g'
    moves same = elim ((gap_before g' hit).1) [
      | inl below ↦ absurd (omega (arith, grows))
      | inr above ↦ above
    ]

    near_after : (j : ℕ) → get_elem? (cover r.start_pos (span r) bs) j ≡ some true → j < g' + max
    near_after j h = elim (covered_after j h) [
      | inr was ↦ omega (arith, old.near old_gap j was, grows)
      | inl inside ↦ elim ((accepted prev_end bm v ok).1) [
        | inl same ↦ omega (arith, moves same)
        | inr short ↦ omega (arith, short, distance_after bm.first_gap, grows)
      ]
    ]

    -- The word before the new gap, if it is beyond the range, was covered before.
    before_gap : r.end_pos + 1 < g' → get_elem? bs (g' - 1) ≡ some true
    before_gap far =
        let h : get_elem? (cover r.start_pos (span r) bs) (g' - 1) ≡ some true =
          (IsGap-free (cover r.start_pos (span r) bs) g' g' is_gap hit).1 (g' - 1) (omega arith) in
        elim (covered_after (g' - 1) h) [ inl inside ↦ absurd (omega arith) | inr was ↦ was ]

    back_after : compute_distortion_distance r.end_pos g' ≤ max
    back_after = elim (ℕ_discrete bm.first_gap r.start_pos) [
      | yes same ↦ elim (dec_lt (r.end_pos + 1) g') [
        | yes far ↦
            omega
              (arith, distance_after g', old.near old_gap (g' - 1) (before_gap far), range.ordered)
        | no next ↦ omega (arith, distance_after g', moves same)
      ]
      | no differ ↦ elim ((accepted prev_end bm v ok).1) [
        | inl same ↦ absurd (differ same)
        | inr short ↦
            let same : bm.first_gap ≡ g' = omega (arith, stays differ, grows) in rw same at short
      ]
    ]

  -- An extension that `ProcessStack` makes keeps the hypothesis recoverable.
  pub can_extend-IsRecoverable :
      (prev_end : ℕ) (bm : Bitmap) (g' : ℕ)
      → IsValid bs bm
      → can_extend (pos max) prev_end bm r ≡ done true
      → IsRecoverable max prev_end bs bm.first_gap
      → IsGap (cover r.start_pos (span r) bs) g'
      → IsRecoverable max r.end_pos (cover r.start_pos (span r) bs) g'
  can_extend-IsRecoverable prev_end bm g' v ok old is_gap = record {
    near = λ hit. near_after prev_end bm v ok old g' is_gap hit;
    back = λ hit. back_after prev_end bm v ok old g' is_gap hit;
  }
