-- ===== src/LanguageModel/Context.antt =====
-- `ShiftOrPush` keeps the last words, as many as the order of the model, with the newest first.
use native.Mathlib.Numerals.{add-one}
use mathlib.Core.Option
use gpu_moses.Prelude.{
  ℕ, zero, suc, ◌+◌, ◌-◌, ◌≤◌, ◌<◌, ◌≡◌, refl, sym, ap, ◌∙◌, some, none, List, [], ◌∷◌, ◌++◌, map,
  arith, length, length-map, length-append, length-set, ◌%◌, get_elem?, get_elem?-some,
  get_elem?-map, get_elem?-take, get_elem?-append_left, set, take, take_all, length-take, ltb,
  ltb→lt, ltb-false,
}
use gpu_moses.Outcome.{Returns, returns, Returns-bind, Returns-map, Returns-if, ◌>>=◌}
use gpu_moses.Range.{sub64, word}
use gpu_moses.Cuda.Buffer.{Buffer, size, write, resize, set_size}
use gpu_moses.Cuda.Array
use gpu_moses.Cuda.Holds.{Holds, size-Holds}
use gpu_moses.Cuda.Shift.{Shifted, Shifted-suc, copy_cell_lem, set-Shifted}
use gpu_moses.Cuda.Insert.{fit-suc, write_lem}
use gpu_moses.LanguageModel.{move_loop, shift_or_push}

move_loop-Shifted :
    (n : ℕ) (b : Buffer ℕ) → n < size b → Returns (Shifted 0 (suc n) b) (move_loop n b)
unfolding move_loop
move_loop-Shifted zero b h =
    returns (refl, refl, (λ j le lt. absurd (omega arith)), (λ j le. refl), (λ j le. refl))
move_loop-Shifted (suc n) b h =
    let (cell, at) = get_elem?-some b.cells n (omega arith) in
    rw (copy_cell_lem b n (suc n) cell at h) (
      Returns-map
        (move_loop-Shifted n (record b { cells = set b.cells (suc n) cell })
          (omega (arith, length-set b.cells (suc n) cell)))
        λ b' s.
          Shifted-suc 0 (suc n) b b' cell (omega arith) h
            (ap (get_elem? b.cells) (omega arith) ∙ at) s)

-- The rest of the call, once the context has its new size.
push_front :
    (v : ℕ) (ys : List ℕ) (grown : Buffer ℕ)
    → size grown ≡ suc (length ys)
    → suc (length ys) ≤ grown.max_size
    → suc (length ys) < word
    → ((j : ℕ) → j < length ys → get_elem? grown.cells j ≡ get_elem? (map some ys) j)
    → Returns
        (λ b. Holds b (v ∷ ys) × (b.max_size ≡ grown.max_size))
        (move_loop (sub64 (size grown) 1) grown >>= λ moved. write moved 0 v)
unfolding sub64
push_front v ys grown len fits small old =
    let last : (size grown + word - 1) % word ≡ length ys = omega (arith, len) in
    rw last (
      Returns-bind (move_loop-Shifted (length ys) grown (omega (arith, len)))
        λ b (max, same, moved, kept, above). rw (write_lem b 0 v (omega (arith, same, len))) (
          returns (
            record {
              contents =
                  set-Shifted 0 (some v) b.cells (map some ys) (omega arith)
                    (omega (arith, same, len, length-map some ys))
                    (λ j from less.
                      moved j (omega arith) (omega (arith, length-map some ys))
                      ∙ old j (omega (arith, length-map some ys)))
                    (λ j less. absurd (omega arith));
              fits = omega (arith, max);
            },
            max,
          )))

-- Room for one more word: the cells of the old ones stay.
grow :
    (xs : List ℕ) (b : Buffer ℕ)
    → Holds b xs
    → Returns
        (λ g. (g.cells ≡ map some xs ++ none ∷ []) × (suc (length xs) ≤ g.max_size))
        (resize Array.reserve (size b + 1) b)
unfolding resize Array.reserve set_size
grow xs b h =
    Returns-bind
      (Returns-if {P = λ g. (g.cells ≡ b.cells) × (suc (length xs) ≤ g.max_size)}
        (ltb b.max_size (size b + 1)) (λ less. returns (refl, omega (arith, size-Holds h)))
        (λ more.
          returns (refl, omega (arith, size-Holds h, ltb-false b.max_size (size b + 1) more))))
      λ g (same, room).
        returns (rw (same, add-one (size b), fit-suc b.cells, h.contents) refl, room)

-- `ShiftOrPush` on a context with no more words than the order puts the word in front and drops what
-- exceeds the order. It ends without a fault, for an order that is not 0.
pub shift_or_push-Holds :
    (o v : ℕ) (xs : List ℕ) (context : Buffer ℕ)
    → Holds context xs
    → length xs ≤ suc o
    → suc o < word
    → Returns (λ b. Holds b (take (suc o) (v ∷ xs))) (shift_or_push (suc o) v context)
unfolding shift_or_push
shift_or_push-Holds o v xs context h few small =
    Returns-bind
      (Returns-if
        {P = λ g.
          (size g ≡ suc (length (take o xs)))
          × (suc (length (take o xs)) ≤ g.max_size)
          × ((j : ℕ)
              → j < length (take o xs)
              → get_elem? g.cells j ≡ get_elem? (map some (take o xs)) j)}
        (ltb (size context) (suc o))
        (λ room. Returns-map (grow xs context h) λ g (cells, max).
          let all : take o xs ≡ xs =
            take_all o xs (omega (arith, size-Holds h, ltb→lt (size context) (suc o) room)) in
          rw all (
            ap length cells
                ∙ omega (arith, length-append (map some xs) (none ∷ []), length-map some xs),
            max,
            λ j less.
                ap (λ c. get_elem? c j) cells
                ∙ get_elem?-append_left (map some xs) (none ∷ []) j
                    (omega (arith, length-map some xs)),
          ))
        (λ full.
          let size_is : length xs ≡ suc o =
            omega (arith, size-Holds h, ltb-false (size context) (suc o) full) in
          returns (
            omega (arith, size-Holds h, length-take o xs),
            omega (arith, h.fits, length-take o xs),
            λ j less.
                ap (λ c. get_elem? c j) h.contents
                ∙ get_elem?-map some xs j
                ∙ sym
                    (ap (Option.map some) (get_elem?-take o xs j (omega (arith, length-take o xs))))
                ∙ sym (get_elem?-map some (take o xs) j),
          )))
      λ g (len, max, old).
        Returns-map (push_front v (take o xs) g len max (omega (arith, length-take o xs)) old)
          λ b (holds, _). holds
