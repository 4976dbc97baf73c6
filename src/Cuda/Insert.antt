-- ===== src/Cuda/Insert.antt =====
-- `insert` and `push_back` of CUDA/Array.h and CUDA/Vector.h against lists.
use gpu_moses.Prelude.{
  ℕ, zero, suc, ◌+◌, ◌*◌, ◌≤◌, ◌<◌, ◌≡◌, refl, sym, ap, ◌∙◌, none, some, List, [], ◌∷◌, ◌++◌, map,
  arith, length, get_elem?, set, insert_at, length-insert_at, length-map, length-append,
  get_elem?-append_left, Bool-cases, inl, inr, lt→ltb, not-ltb, not-leb, le→leb, leb, Option,
}
use gpu_moses.Outcome.{done, fault, trap, ◌>>=◌, Returns, returns, Returns-bind, Returns-map}
use gpu_moses.Cuda.Buffer.{
  Buffer, size, write, fit, set_size, shift, Reserve, resize, make_room, push_back, insert,
}
use gpu_moses.Cuda.Holds.{Holds, size-Holds}
use gpu_moses.Cuda.Shift.{shift-Shifted, set-Shifted}
use mathlib.Core.List.{map-append}
use native.Mathlib.Numerals.{add-one}
use gpu_moses.Cuda.Array
use gpu_moses.Cuda.Vector

module _ {ℓ} {A : Type ℓ} where
  pub fit-suc : (cells : List (Option A)) → fit (suc (length cells)) cells ≡ cells ++ none ∷ []
  fit-suc [] = refl
  fit-suc (c ∷ cells) = ap (◌∷◌ c) (fit-suc cells)

  map-insert_at {κ} :
      {B : Type κ} (f : A → B) (i : ℕ) (v : A) (xs : List A)
      → map f (insert_at i v xs) ≡ insert_at i (f v) (map f xs)
  map-insert_at f zero v xs = refl
  map-insert_at f (suc i) v [] = refl
  map-insert_at f (suc i) v (x ∷ xs) = ap (◌∷◌ (f x)) (map-insert_at f i v xs)

  pub write_lem :
      (b : Buffer A) (i : ℕ) (v : A)
      → i < size b
      → write b i v ≡ done (record b { cells = set b.cells i (some v) })
  unfolding write
  write_lem b i v fits = rw (lt→ltb i (size b) fits)

  -- The cells behind one unwritten cell at the end: what the shift and the write make of them.
  fill_gap :
      (ind : ℕ) (v : A) (xs : List A) (b : Buffer A)
      → b.cells ≡ map some xs ++ none ∷ []
      → length xs < b.max_size
      → ind ≤ length xs
      → Returns
          (λ b'. Holds b' (insert_at ind v xs) × (b'.max_size ≡ b.max_size))
          (shift ind 1 b >>= λ b'. write b' ind v)
  fill_gap ind v xs b gap space in_range =
      Returns-bind (shift-Shifted ind b) λ b' (max, same, moved, kept, above).
        let len' : size b' ≡ suc (length xs) = same ∙ len in
        rw (write_lem b' ind v (omega arith)) (
          returns (
            record {
              contents =
                  set-Shifted ind (some v) b'.cells (map some xs) (rw length-map in_range)
                    (len' ∙ ap suc (sym (length-map some xs)))
                    (λ j le lt.
                      moved j le (omega (arith, length-map some xs))
                      ∙ old j (omega (arith, length-map some xs)))
                    (λ j lt. kept j (omega arith) ∙ old j (omega arith))
                  ∙ sym (map-insert_at some ind v xs);
              fits = omega (arith, length-insert_at ind v xs);
            },
            max,
          ))
    where
      len : size b ≡ suc (length xs)
      len = rw (gap, length-append (map some xs) (none ∷ []), length-map some xs) (omega arith)

      old : (j : ℕ) → j < length xs → get_elem? b.cells j ≡ get_elem? (map some xs) j
      old j less = rw gap (get_elem?-append_left (map some xs) (none ∷ []) j (rw length-map less))

  module _ (reserve : Reserve A)
      (roomy : (n : ℕ) (b : Buffer A) → n ≤ b.max_size → reserve n b ≡ done b) where
    insert-Holds_of_room :
        (ind : ℕ) (v : A) (xs : List A) (b b₁ : Buffer A)
        → make_room reserve b ≡ done b₁
        → Holds b₁ xs
        → length xs < b₁.max_size
        → ind ≤ length xs
        → Returns
            (λ b'. Holds b' (insert_at ind v xs) × (b'.max_size ≡ b₁.max_size))
            (insert reserve ind v b)
    unfolding insert resize set_size
    insert-Holds_of_room ind v xs b b₁ room h space in_range =
        rw (room, roomy (size b₁ + 1) b₁ (omega (arith, size-Holds h)))
          (fill_gap ind v xs _ (rw (add-one (size b₁), fit-suc b₁.cells, h.contents)) space
            in_range)

  -- Both `reserve`s leave a buffer alone that is large enough.
  array_roomy : (n : ℕ) (b : Buffer A) → n ≤ b.max_size → Array.reserve n b ≡ done b
  unfolding Array.reserve
  array_roomy n b le = rw (not-ltb b.max_size n le)

  vector_roomy : (n : ℕ) (b : Buffer A) → n ≤ b.max_size → Vector.reserve n b ≡ done b
  unfolding Vector.reserve
  vector_roomy n b le = rw (not-ltb b.max_size n le)

  -- Where it is full, `Array` doubles its capacity and adds one.
  array_room :
      (xs : List A) (b : Buffer A)
      → Holds b xs
      → (b₁ : Buffer A) × (make_room Array.reserve b ≡ done b₁)
        × Holds b₁ xs
        × (length xs < b₁.max_size)
  unfolding make_room Array.reserve
  array_room xs b h = elim (Bool-cases (leb b.max_size (size b))) [
    | inr space ↦ (b, rw space, h, ground (arith, size-Holds h))
    | inl full ↦ (
      record b { max_size = 1 + b.max_size * 2 },
      rw (full, lt→ltb b.max_size (1 + b.max_size * 2) (omega arith)),
      record { contents = h.contents; fits = omega (arith, h.fits) },
      omega (arith, h.fits),
    )
  ]

  -- `insert` on `Array` puts the value at the index, whatever the capacity, and faults nowhere.
  pub array_insert-Holds :
      (ind : ℕ) (v : A) (xs : List A) (b : Buffer A)
      → Holds b xs
      → ind ≤ length xs
      → Returns (λ b'. Holds b' (insert_at ind v xs)) (insert Array.reserve ind v b)
  array_insert-Holds ind v xs b h in_range =
      let (b₁, room, h₁, space) = array_room xs b h in
      Returns-map
        (insert-Holds_of_room Array.reserve array_roomy ind v xs b b₁ room h₁ space in_range)
        λ b' p. p.0

  -- `Reserve` of `Vector` on the host is that of `Array`.
  reserve_host-reserve : Vector.reserve_host {A = A} ≡ Array.reserve
  unfolding Vector.reserve_host Array.reserve
  reserve_host-reserve = refl

  pub host_insert-Holds :
      (ind : ℕ) (v : A) (xs : List A) (b : Buffer A)
      → Holds b xs
      → ind ≤ length xs
      → Returns (λ b'. Holds b' (insert_at ind v xs)) (insert Vector.reserve_host ind v b)
  host_insert-Holds ind v xs b h in_range =
      rw reserve_host-reserve (array_insert-Holds ind v xs b h in_range)

  -- `push_back` on `Array` puts the value last, whatever the capacity.
  pub array_push_back-Holds :
      (v : A) (xs : List A) (b : Buffer A)
      → Holds b xs
      → Returns (λ b'. Holds b' (xs ++ v ∷ [])) (push_back Array.reserve v b)
  unfolding push_back
  array_push_back-Holds v xs b h =
      let (b₁, room, h₁, space) = array_room xs b h in
      rw room (
        returns {a = record b₁ { cells = b₁.cells ++ some v ∷ [] }} (record {
          contents = rw (h₁.contents, map-append some xs (v ∷ [])) refl;
          fits = omega (arith, length-append xs (v ∷ []));
        }))

  pub host_push_back-Holds :
      (v : A) (xs : List A) (b : Buffer A)
      → Holds b xs
      → Returns (λ b'. Holds b' (xs ++ v ∷ [])) (push_back Vector.reserve_host v b)
  host_push_back-Holds v xs b h = rw reserve_host-reserve (array_push_back-Holds v xs b h)

  -- `insert` on the device's `Vector` does the same while there is room, and keeps the capacity.
  pub vector_insert-Holds :
      (ind : ℕ) (v : A) (xs : List A) (b : Buffer A)
      → Holds b xs
      → length xs < b.max_size
      → ind ≤ length xs
      → Returns
          (λ b'. Holds b' (insert_at ind v xs) × (b'.max_size ≡ b.max_size))
          (insert Vector.reserve ind v b)
  unfolding make_room
  vector_insert-Holds ind v xs b h space in_range =
      insert-Holds_of_room Vector.reserve vector_roomy ind v xs b b
        (rw (not-leb b.max_size (size b) (omega (arith, size-Holds h)))) h space in_range

  -- On a full `Vector` the device code traps.
  pub vector_insert_full :
      (ind : ℕ) (v : A) (xs : List A) (b : Buffer A)
      → Holds b xs
      → length xs ≡ b.max_size
      → insert Vector.reserve ind v b ≡ fault trap
  unfolding insert make_room Vector.reserve
  vector_insert_full ind v xs b h full = rw (
    le→leb b.max_size (size b) (omega (arith, size-Holds h)),
    lt→ltb b.max_size (1 + b.max_size * 2) (omega arith),
  )
