-- ===== src/Bitmap/Invariant.antt =====
-- The cached count and first gap of a bitmap are right after both `Init`s; `Overlap` is exact.
use gpu_moses.Prelude.{
  ℕ, zero, suc, ◌+◌, ◌-◌, ◌≤◌, ◌<◌, ◌≡◌, refl, sym, ◌∙◌, Bool, true, false, some, List, [], arith,
  length, length-replicate, get_elem?, get_elem?_lt, replicate, ltb, leb, ◌&&◌, if◌then◌else◌, inl,
  inr, dec_lt,
}
use gpu_moses.Outcome.{done, Returns, returns, Returns-bind, Returns-if}
use gpu_moses.Range.{
  Range, IsRange, not_found, add64, get_num_words_covered, get_num_words_covered_lem,
}
use gpu_moses.Cuda.Buffer.{Buffer, size}
use gpu_moses.Cuda.Holds.{Holds, size-Holds}
use gpu_moses.Bitmap.{Bitmap, init, init_from, set_value_non_overlap, gap_loop, overlap}
use gpu_moses.Bitmap.Cover.{
  cover, covered, covered-le, covered-cover, length-cover, IsFree, get_elem?-cover_in,
  get_elem?-cover_below, get_elem?-cover_above,
}
use gpu_moses.Bitmap.Loops.{
  reset_loop-Stores, copy_loop-Stores, mark_loop-cover, IsGap, gap_loop-IsGap, OverlapIs,
  overlap_loop-OverlapIs,
}

-- `bs` says which words are translated; the cached fields agree with it.
pub record IsValid (bs : List Bool) (bm : Bitmap) : Type 0 where
  pub holds : Holds bm.bits bs
  pub counted : bm.num_words_covered ≡ covered bs
  pub gap : IsGap bs bm.first_gap

-- The number of words of a range.
abbrev pub span : Range → ℕ
span r = r.end_pos + 1 - r.start_pos

-- Storage that the constructor allocated for `n` words.
pub record IsStorage (n : ℕ) (b : Buffer Bool) : Type 0 where
  pub sized : size b ≡ n
  pub fits : n ≤ b.max_size

-- An input that is not empty, and short enough for NOT_FOUND_DEVICE to be no position.
abbrev pub IsLength : ℕ → Type 0
IsLength n = (0 < n) × (n ≤ not_found)

IsGap-start : (n : ℕ) → 0 < n → IsGap (replicate n false) 0
IsGap-start zero h = absurd (omega arith)
IsGap-start (suc n) h = inl (refl, λ j less. absurd (omega arith))

pub covered-replicate : (n : ℕ) → covered (replicate n false) ≡ 0
covered-replicate zero = refl
covered-replicate (suc n) = omega (arith, covered-replicate n)

-- The first `Init` covers nothing, from storage of any content.
pub init-IsValid :
    (n : ℕ) (b : Buffer Bool)
    → IsLength n
    → IsStorage n b
    → Returns (IsValid (replicate n false)) (init b)
unfolding init
init-IsValid n b len s = Returns-bind (reset_loop-Stores [] b.cells b refl) λ b' p.
    returns (record {
      holds = record {
        contents = rw s.sized at p.0;
        fits = rw (p.1, length-replicate n false) s.fits;
      };
      counted = sym (covered-replicate n);
      gap = IsGap-start n len.0;
    })

-- The gap of the old bits after a run of free words is covered.
IsGap-cover :
    (bs : List Bool) (s n g : ℕ)
    → length bs ≤ not_found
    → 0 < n
    → s + n ≤ length bs
    → IsFree s n bs
    → IsGap bs g
    → (leb s g && ltb g (s + n)) ≡ false
    → IsGap (cover s n bs) g
IsGap-cover bs s n g small some_word fits free (inl (hit, before)) out = inl (
  elim (dec_lt g s) [
    | yes less ↦ get_elem?-cover_below s n bs g less ∙ hit
    | no more ↦ get_elem?-cover_above s n bs g (ground arith) ∙ hit
  ],
  λ j less. still_true j (before j less),
)
  where
    still_true : (j : ℕ) → get_elem? bs j ≡ some true → get_elem? (cover s n bs) j ≡ some true
    still_true j e = elim (dec_lt j s) [
      | yes below ↦ get_elem?-cover_below s n bs j below ∙ e
      | no more ↦ elim (dec_lt j (s + n)) [
        | yes inside ↦
            get_elem?-cover_in s n bs j (omega arith) inside
              (omega (arith, get_elem?_lt bs j true e))
        | no above ↦ get_elem?-cover_above s n bs j (omega arith) ∙ e
      ]
    ]
IsGap-cover bs s n g small some_word fits free (inr (e, all)) out =
    cc (free s (omega arith) (omega arith), all s (omega arith))

-- Where the old gap lies in the run, all words before the end of the run are now covered.
covered_up_to :
    (bs : List Bool) (s n g : ℕ)
    → s + n ≤ length bs
    → IsGap bs g
    → length bs ≤ not_found
    → (leb s g && ltb g (s + n)) ≡ true
    → (j : ℕ) → j < s + n
    → get_elem? (cover s n bs) j ≡ some true
covered_up_to bs s n g fits (inl (hit, before)) small inside j less = elim (dec_lt j s) [
  | yes below ↦ get_elem?-cover_below s n bs j below ∙ before j (ground arith)
  | no more ↦ get_elem?-cover_in s n bs j (omega arith) less (omega arith)
]
covered_up_to bs s n g fits (inr (e, all)) small inside j less = absurd (ground arith)

module _ (n : ℕ) (r : Range) (bs : List Bool) (len : IsLength n) (range : IsRange n r)
    (sized : length bs ≡ n) where
  run_fits : r.start_pos + span r ≤ length bs
  run_fits = omega (arith, range.ordered, range.inside)

  abbrev after : List Bool
  after = cover r.start_pos (span r) bs

  count_after :
      (bm : Bitmap)
      → IsValid bs bm
      → IsFree r.start_pos (span r) bs
      → add64 bm.num_words_covered (get_num_words_covered r) ≡ covered after
  unfolding add64
  count_after bm v free = omega (
    arith,
    v.counted,
    covered-cover r.start_pos (span r) bs run_fits free,
    get_num_words_covered_lem n r len.1 range,
    covered-le after,
    length-cover r.start_pos (span r) bs,
    len.1,
    sized,
    range.ordered,
  )

  IsGap-after :
      (bm : Bitmap) (b : Buffer Bool) (seen : Bool)
      → IsValid bs bm
      → IsFree r.start_pos (span r) bs
      → Holds b after
      → seen ≡ (
          if leb r.start_pos bm.first_gap && ltb bm.first_gap (r.start_pos + span r)
          then true
          else false)
      → Returns (IsGap after) (
          if seen then gap_loop (size b - (r.end_pos + 1)) (r.end_pos + 1) b else done bm.first_gap)
  IsGap-after bm b seen v free h e =
      Returns-if seen
        (λ hit.
          gap_loop-IsGap (size b - (r.end_pos + 1)) (r.end_pos + 1) b after h
            (omega (arith, size-Holds h, length-cover r.start_pos (span r) bs, sized, range.inside))
            (λ j less.
              covered_up_to bs r.start_pos (span r) bm.first_gap run_fits v.gap
                (omega (arith, len.1, sized)) (ground arith) j (omega (arith, range.ordered))))
        (λ miss. returns (
          IsGap-cover bs r.start_pos (span r) bm.first_gap (omega (arith, len.1, sized))
            (omega (arith, range.ordered)) run_fits free v.gap (ground arith)))

  -- `SetValueNonOverlap` on a range none of whose words is covered yet.
  set_value-IsValid :
      (bm : Bitmap)
      → IsValid bs bm
      → IsFree r.start_pos (span r) bs
      → Returns (IsValid after) (set_value_non_overlap r bm)
  unfolding set_value_non_overlap
  set_value-IsValid bm v free =
      Returns-bind
        (mark_loop-cover (span r) r.start_pos bm.first_gap false bm.bits bs v.holds run_fits)
        λ p q. Returns-bind (IsGap-after bm p.1 p.0 v free q.0 q.1) λ g is_gap.
          returns (record { holds = q.0; counted = count_after bm v free; gap = is_gap })

  -- The second `Init`: if the range has no word that is translated already, the new bitmap covers the
  -- words of the range and those of the old one, its count is the number of covered words, and its
  -- first gap the first word that is not covered, or NOT_FOUND_DEVICE.
  pub init_from-IsValid :
      (b : Buffer Bool) (copy : Bitmap)
      → IsStorage n b
      → IsValid bs copy
      → IsFree r.start_pos (span r) bs
      → Returns (IsValid (cover r.start_pos (span r) bs)) (init_from b copy r)
  unfolding init_from
  init_from-IsValid b copy s v free =
      Returns-bind
        (copy_loop-Stores [] b.cells [] bs b copy.bits refl v.holds refl (omega (arith, s.sized)))
        λ b' p.
          set_value-IsValid
            (record {
              num_words_covered = copy.num_words_covered;
              first_gap = copy.first_gap;
              bits = b';
            })
            (record {
              holds = record { contents = p.0; fits = omega (arith, p.1, s.fits) };
              counted = v.counted;
              gap = v.gap;
            })
            free

  -- `Overlap` says true exactly if a word of the range is covered.
  pub overlap-OverlapIs :
      (bm : Bitmap) → IsValid bs bm → Returns (OverlapIs r.start_pos (span r) bs) (overlap r bm)
  unfolding overlap
  overlap-OverlapIs bm v = overlap_loop-OverlapIs (span r) r.start_pos bm.bits bs v.holds run_fits
