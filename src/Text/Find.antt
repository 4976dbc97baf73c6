-- ===== src/Text/Find.antt =====
-- What the searches find.
use gpu_moses.Prelude.{
  ℕ, ◌+◌, ◌≡◌, ◌↔◌, refl, ap, ◌∙◌, Bool, true, false, none, some, List, [], ◌∷◌, ◌++◌, arith,
  length, length-append, drop, take, All, Bool-cases, inl, inr, ◌⊎◌, not-ltb,
}
use gpu_moses.Outcome.{done}
use gpu_moses.Text.{Str, str_eq, scan, find_from, after_last, substr, distance}

pub str_eq_iff : (s t : Str) → (str_eq s t ≡ true) ↔ (s ≡ t)
str_eq_iff [] [] = ((λ e. refl), (λ e. refl))
str_eq_iff [] (b ∷ t) = ((λ e. cc), (λ e. cc))
str_eq_iff (a ∷ s) [] = ((λ e. cc), (λ e. cc))
str_eq_iff (a ∷ s) (b ∷ t) = ground (arith, str_eq_iff s t)

pub str_eq_self : (s : Str) → str_eq s s ≡ true
str_eq_self s = (str_eq_iff s s).1 refl

module _ {ℓ} {A : Type ℓ} where
  pub drop-append : (xs ys : List A) → drop (length xs) (xs ++ ys) ≡ ys
  drop-append [] ys = refl
  drop-append (x ∷ xs) ys = drop-append xs ys

  pub take-append : (xs ys : List A) → take (length xs) (xs ++ ys) ≡ xs
  take-append [] ys = refl
  take-append (x ∷ xs) ys = ap (◌∷◌ x) (take-append xs ys)

-- Every character fails the test.
abbrev pub None : (ℕ → Bool) → Str → Type 0
None test = All (λ c. test c ≡ false)

module _ (test : ℕ → Bool) where
  -- A search stops at the first character that passes.
  pub scan_at :
      (i : ℕ) (before : Str) (c : ℕ) (rest : Str)
      → None test before
      → test c ≡ true
      → scan test i (before ++ (c ∷ rest)) ≡ some (i + length before)
  unfolding scan
  scan_at i [] c rest h hit = rw hit (ap some (omega arith))
  scan_at i (b ∷ before) c rest h hit =
      rw h.0 (scan_at (i + 1) before c rest h.1 hit ∙ ap some (omega arith))

  pub scan_clean : (i : ℕ) (str : Str) → None test str → scan test i str ≡ none
  unfolding scan
  scan_clean i [] h = refl
  scan_clean i (c ∷ str) h = rw h.0 (scan_clean (i + 1) str h.1)

  -- A string has no character that passes, or it has a first one.
  pub Splits-cases :
      (str : Str)
      → None test str
        ⊎ ((before : Str) × (c : ℕ) × (rest : Str) × (str ≡ before ++ (c ∷ rest))
            × None test before
            × (test c ≡ true))
  Splits-cases [] = inl tt
  Splits-cases (c ∷ str) = elim (Bool-cases (test c)) [
    | inl hit ↦ inr ([], c, str, refl, tt, hit)
    | inr miss ↦ elim (Splits-cases str) [
      | inl h ↦ inl (miss, h)
      | inr (before, d, rest, e, h, hit) ↦ inr (c ∷ before, d, rest, ap (◌∷◌ c) e, (miss, h), hit)
    ]
  ]

  -- Behind what comes before, in a longer string.
  pub find_from_at :
      (front before : Str) (c : ℕ) (rest : Str)
      → None test before
      → test c ≡ true
      → find_from test (front ++ (before ++ (c ∷ rest))) (some (length front))
        ≡ some (length front + length before)
  unfolding find_from
  find_from_at front before c rest h hit =
      rw (drop-append front (before ++ (c ∷ rest))) (scan_at (length front) before c rest h hit)

  pub find_from_clean :
      (front str : Str) → None test str → find_from test (front ++ str) (some (length front)) ≡ none
  unfolding find_from
  find_from_clean front str h = rw (drop-append front str) (scan_clean (length front) str h)

  pub find_start_at :
      (before : Str) (c : ℕ) (rest : Str)
      → None test before
      → test c ≡ true
      → find_from test (before ++ (c ∷ rest)) (some 0) ≡ some (length before)
  find_start_at before c rest h hit = find_from_at [] before c rest h hit ∙ ap some (omega arith)

  pub find_start_none : (str : Str) → None test str → find_from test str (some 0) ≡ none
  find_start_none str h = find_from_clean [] str h

  pub find_from_npos : (str : Str) → find_from test str none ≡ none
  unfolding find_from
  find_from_npos str = refl

  pub after_last_clean : (str : Str) → None test str → after_last test str ≡ 0
  unfolding after_last
  after_last_clean [] h = refl
  after_last_clean (c ∷ str) h = rw (after_last_clean str h.1, h.0) refl

  pub after_last_at :
      (before : Str) (c : ℕ) (rest : Str)
      → test c ≡ true
      → None test rest
      → after_last test (before ++ (c ∷ rest)) ≡ length before + 1
  unfolding after_last
  after_last_at [] c rest hit h = rw (after_last_clean rest h, hit) refl
  after_last_at (b ∷ before) c rest hit h = rw (after_last_at before c rest hit h) (ground arith)

pub substr_middle :
    (front tok rest : Str)
    → substr (some (length front)) (some (length tok)) (front ++ (tok ++ rest)) ≡ done tok
unfolding substr
substr_middle front tok rest =
    rw
      (
        not-ltb (length (front ++ (tok ++ rest))) (length front)
            (omega (arith, length-append front (tok ++ rest))),
        drop-append front (tok ++ rest),
        take-append tok rest,
      )
      refl

pub substr_rest : (front rest : Str) → substr (some (length front)) none (front ++ rest) ≡ done rest
unfolding substr
substr_rest front rest =
    rw
      (
        not-ltb (length (front ++ rest)) (length front) (omega (arith, length-append front rest)),
        drop-append front rest,
      )
      refl

-- From one place to a later one.
pub substr_span :
    (front tok rest : Str)
    → substr
        (some (length front))
        (distance (some (length front + length tok)) (some (length front)))
        (front ++ (tok ++ rest))
      ≡ done tok
unfolding distance
substr_span front tok rest =
    let count : distance (some (length front + length tok)) (some (length front))
        ≡ some (length tok) =
      ap some (omega arith) in
    ap (λ n. substr (some (length front)) n (front ++ (tok ++ rest))) count
    ∙ substr_middle front tok rest

pub substr-take :
    (front rest : Str) (n : ℕ)
    → substr (some (length front)) (some n) (front ++ rest) ≡ done (take n rest)
unfolding substr
substr-take front rest n =
    rw
      (
        not-ltb (length (front ++ rest)) (length front) (omega (arith, length-append front rest)),
        drop-append front rest,
      )
      refl

pub substr_front : (tok rest : Str) → substr (some 0) (some (length tok)) (tok ++ rest) ≡ done tok
substr_front tok rest = substr_middle [] tok rest

pub substr_npos : (front rest : Str) → substr (some (length front)) none (front ++ rest) ≡ done rest
unfolding distance
substr_npos front rest = substr_rest front rest
