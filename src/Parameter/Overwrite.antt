-- ===== src/Parameter/Overwrite.antt =====
-- Parameter.cpp: the values that OverwriteParam leaves.
use Prim.Native.String.{String}
use gpu_moses.Prelude.{◌+◌, ◌≡◌, refl, ap, set, List, [], ◌∷◌, ◌++◌, arith, length, if◌then◌else◌}
use gpu_moses.Parameter.Table.{is_option, write_values}

-- The arguments up to the next switch.
values_of : List String → List String
values_of [] = []
values_of (token ∷ argv) = if is_option token then [] else token ∷ values_of argv

-- The first list over the second one.
over : List String → List String → List String
over [] old = old
over (v ∷ vs) [] = v ∷ over vs []
over (v ∷ vs) (_ ∷ old) = v ∷ over vs old

set_at :
    (pre : List String) (x v : String) (old : List String)
    → set (pre ++ x ∷ old) (length pre) v ≡ (pre ++ v ∷ []) ++ old
set_at [] x v old = refl
set_at (p ∷ pre) x v old = ap (◌∷◌ p) (set_at pre x v old)

snoc_over :
    (pre : List String) (v : String) (old : List String) → (pre ++ v ∷ []) ++ old ≡ pre ++ v ∷ old
snoc_over [] v old = refl
snoc_over (p ∷ pre) v old = ap (◌∷◌ p) (snoc_over pre v old)

snoc_nil : (pre : List String) (v : String) → (pre ++ []) ++ v ∷ [] ≡ (pre ++ v ∷ []) ++ []
snoc_nil [] v = refl
snoc_nil (p ∷ pre) v = ap (◌∷◌ p) (snoc_nil pre v)

length_more : (pre old : List String) → length (pre ++ old) ≡ length pre + length old
length_more [] old = ground arith
length_more (p ∷ pre) old = ground (arith, length_more pre old)

-- From the place of an argument on, the loop writes the arguments up to the next switch over the
-- values that were there.
write_values-over :
    (argv pre old : List String)
    → write_values argv (pre ++ old) (length pre) ≡ pre ++ over (values_of argv) old
unfolding write_values over values_of
write_values-over [] pre old = refl
write_values-over (token ∷ argv) pre [] = ground (
  arith,
  write_values-over argv (pre ++ token ∷ []) [],
  snoc_nil pre token,
  snoc_over pre token (over (values_of argv) []),
  length_more pre [],
  length_more pre (token ∷ []),
)
write_values-over (token ∷ argv) pre (x ∷ old) = ground (
  arith,
  write_values-over argv (pre ++ token ∷ []) old,
  set_at pre x token old,
  snoc_over pre token (over (values_of argv) old),
  length_more pre (x ∷ old),
  length_more pre (token ∷ []),
)
