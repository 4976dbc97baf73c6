-- ===== src/Manager/Reached.antt =====
-- The coverage of the hypotheses that the search makes, step by step, under a limit on reordering.
use gpu_moses.Prelude.{
  ℕ, zero, suc, ◌<◌, ◌≡◌, refl, ◌∙◌, inl, inr, Bool, true, false, some, List, arith, length,
  get_elem?, get_elem?_lt, replicate, length-replicate, true≢false, none≢some, not-ltb, ==_self,
}
use mathlib.Core.Option.{some-injective}
use gpu_moses.Outcome.{done, Returns-inv, Returns-at}
use gpu_moses.Cuda.Buffer.{Buffer}
use gpu_moses.Cuda.Holds.{size-Holds}
use gpu_moses.Range.{Range, IsRange, not_found}
use gpu_moses.Bitmap.{Bitmap, init, init_from, is_complete}
use gpu_moses.Bitmap.Cover.{cover, covered-all, length-cover}
use gpu_moses.Bitmap.Loops.{IsGap, OverlapIs}
use gpu_moses.Bitmap.Invariant.{
  IsValid, IsStorage, IsLength, init-IsValid, init_from-IsValid, overlap-OverlapIs, span,
}
use gpu_moses.Signed.{pos}
use gpu_moses.Manager.{compute_distortion_distance, can_extend}
use gpu_moses.Manager.Reorder.{
  IsRecoverable, covered≢free, IsGap-least, accepted, can_extend-IsRecoverable,
}

-- The hypotheses that `Process1stStack` and `ProcessStack` make on an input of `n` words, each as the
-- last position of its input path and its bitmap.
pub data Reached (max n : ℕ) : ℕ → Bitmap → Type 0 where
  initial :
      {b : Buffer Bool} {bm : Bitmap}
      → IsStorage n b
      → init b ≡ done bm
      → Reached max n not_found bm
  extended :
      {prev_end : ℕ} {b : Buffer Bool} {bm bm' : Bitmap} (r : Range)
      → Reached max n prev_end bm
      → IsRange n r
      → can_extend (pos max) prev_end bm r ≡ done true
      → IsStorage n b
      → init_from b bm r ≡ done bm'
      → Reached max n r.end_pos bm'

get_elem?-replicate : (n j : ℕ) (a b : Bool) → get_elem? (replicate n a) j ≡ some b → a ≡ b
get_elem?-replicate zero j a b h = absurd (none≢some b h)
get_elem?-replicate (suc n) zero a b h = some-injective a b h
get_elem?-replicate (suc n) (suc j) a b h = get_elem?-replicate n j a b h

first_word : (n : ℕ) → 0 < n → get_elem? (replicate n false) 0 ≡ some false
first_word zero h = absurd (omega arith)
first_word (suc n) h = refl

nothing_far :
    (max n g : ℕ)
    → IsGap (replicate n false) g
    → 0 < n
    → IsRecoverable max not_found (replicate n false) g
unfolding compute_distortion_distance
nothing_far max n g gap positive = record {
  near = λ hit j h. absurd (true≢false (get_elem?-replicate n j false true h) refl);
  back = λ hit. omega (arith, IsGap-least (replicate n false) g 0 gap (first_word n positive));
}

-- The range of one word, the first that is not translated.
abbrev pub gap_range : Bitmap → Range
gap_range bm = record { start_pos = bm.first_gap; end_pos = bm.first_gap }

module _ (max n : ℕ) (len : IsLength n) where
  abbrev pub IsGood : ℕ → Bitmap → Type 0
  IsGood prev_end bm =
      (bs : List Bool) × (length bs ≡ n)
      × IsValid bs bm
      × IsRecoverable max prev_end bs bm.first_gap

  pub Reached-IsGood : {prev_end : ℕ} {bm : Bitmap} → Reached max n prev_end bm → IsGood prev_end bm
  Reached-IsGood (initial {b = b} {bm = bm} storage e) =
      let v = Returns-at bm (init-IsValid n b len storage) e in
      (replicate n false, length-replicate n false, v, nothing_far max n bm.first_gap v.gap len.0)
  Reached-IsGood (extended {b = b} {bm = bm} {bm' = bm'} r before range ok storage e) =
      let (bs, sized, v, good) = Reached-IsGood before in
      let v' =
        Returns-at bm'
          (init_from-IsValid n r bs len range sized b bm storage v
            (accepted max n r bs len range sized _ bm v ok).0)
          e in
      (
        cover r.start_pos (span r) bs,
        length-cover r.start_pos (span r) bs ∙ sized,
        v',
        can_extend-IsRecoverable max n r bs len range sized _ bm bm'.first_gap v ok good v'.gap,
      )

  gap_word :
      (bs : List Bool) (bm : Bitmap)
      → IsValid bs bm
      → is_complete bm ≡ false
      → get_elem? bs bm.first_gap ≡ some false
  unfolding is_complete
  gap_word bs bm v incomplete = elim v.gap [
    | inl is ↦ is.0
    | inr is ↦ absurd (
        true≢false (rw (size-Holds v.holds, v.counted, covered-all bs is.1) (==_self (length bs)))
          incomplete)
  ]

  gap_passes :
      (prev_end : ℕ) (bm : Bitmap) (bs : List Bool)
      → length bs ≡ n
      → IsValid bs bm
      → IsRecoverable max prev_end bs bm.first_gap
      → get_elem? bs bm.first_gap ≡ some false
      → can_extend (pos max) prev_end bm (gap_range bm) ≡ done true
  unfolding can_extend
  gap_passes prev_end bm bs sized v good hit =
      let range : IsRange n (gap_range bm) = record {
        ordered = omega arith;
        inside = omega (arith, get_elem?_lt bs bm.first_gap false hit);
      } in
      let (b, e, is) = Returns-inv (overlap-OverlapIs n (gap_range bm) bs len range sized bm v) in
      rw
        (
          e,
          not_covered b is,
          not-ltb max (compute_distortion_distance prev_end bm.first_gap) (good.back hit),
          ==_self bm.first_gap,
        )
        refl
    where
      not_covered : (b : Bool) → OverlapIs bm.first_gap (span (gap_range bm)) bs b → b ≡ false
      not_covered false is = refl
      not_covered true (j, from, to, at) =
          let same : j ≡ bm.first_gap = omega arith in
          absurd (covered≢free bs bm.first_gap (rw same at at) hit)

  -- On an input that is not empty and under a limit on reordering, no hypothesis that the allowed
  -- extensions lead to is a dead end: if it is not complete, the first gap is a word of the input, and
  -- the extension by that one word is allowed.
  pub can_extend_gap :
      (prev_end : ℕ) (bm : Bitmap)
      → Reached max n prev_end bm
      → is_complete bm ≡ false
      → (bm.first_gap < n) × (can_extend (pos max) prev_end bm (gap_range bm) ≡ done true)
  can_extend_gap prev_end bm reached incomplete =
      let (bs, sized, v, good) = Reached-IsGood reached in
      let hit = gap_word bs bm v incomplete in
      (
        omega (arith, get_elem?_lt bs bm.first_gap false hit),
        gap_passes prev_end bm bs sized v good hit,
      )
