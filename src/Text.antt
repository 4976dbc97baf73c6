-- ===== src/Text.antt =====
-- What the source uses of std::string. A string is the list of its bytes; a position is none where the
-- source has std::string::npos.
pub mod Find
pub mod Separator
use Prim.Native.Char.{code}
use Prim.Native.String.{String}
use gpu_moses.Prelude.{
  ℕ, zero, suc, ◌+◌, ◌-◌, Bool, true, false, not, ◌&&◌, ◌||◌, Option, none, some, List, [], ◌∷◌,
  length, take, drop, ltb, ◌==◌, if◌then◌else◌,
}
use gpu_moses.Outcome.{Outcome, done, fault, exception}

abbrev pub Str : Type 0
Str = List ℕ

abbrev pub codes : String → Str
codes String.[] = []
codes (String.◌∷◌ c s) = code c ∷ codes s

abbrev pub str_eq : Str → Str → Bool
str_eq [] [] = true
str_eq [] (b ∷ t) = false
str_eq (a ∷ s) [] = false
str_eq (a ∷ s) (b ∷ t) = a == b && str_eq s t

abbrev pub one_of : Str → ℕ → Bool
one_of [] c = false
one_of (d ∷ ds) c = c == d || one_of ds c

abbrev pub none_of : Str → ℕ → Bool
none_of ds c = not (one_of ds c)

-- The place of the first character with the property, where the string starts at `i`.
unfoldable pub scan : (ℕ → Bool) → ℕ → Str → Option ℕ
scan test i [] = none
scan test i (c ∷ cs) = if test c then some i else scan test (i + 1) cs

unfoldable pub find_from : (ℕ → Bool) → Str → Option ℕ → Option ℕ
unfolding scan
find_from test str none = none
find_from test str (some pos) = scan test pos (drop pos str)

abbrev pub find_first_of : Str → Str → Option ℕ → Option ℕ
find_first_of ds = find_from (one_of ds)

abbrev pub find_first_not_of : Str → Str → Option ℕ → Option ℕ
find_first_not_of ds = find_from (none_of ds)

-- The place after the last character with the property, or 0.
unfoldable pub after_last : (ℕ → Bool) → Str → ℕ
after_last test [] = 0
after_last test (c ∷ cs) =
    let rest = after_last test cs in if ltb 0 rest then suc rest else if test c then 1 else 0

abbrev pub is_prefix : Str → Str → Bool
is_prefix [] str = true
is_prefix (p ∷ ps) [] = false
is_prefix (p ∷ ps) (c ∷ cs) = p == c && is_prefix ps cs

unfoldable pub scan_str : Str → ℕ → Str → Option ℕ
scan_str sep i [] = if is_prefix sep [] then some i else none
scan_str sep i (c ∷ cs) = if is_prefix sep (c ∷ cs) then some i else scan_str sep (i + 1) cs

-- `find` of a string.
unfoldable pub find_str : Str → Str → ℕ → Option ℕ
unfolding scan_str
find_str sep str pos = if ltb (length str) pos then none else scan_str sep pos (drop pos str)

-- `substr(pos, n)`, which throws where the position is past the end. The distance from a place to npos is
-- more than any string has.
unfoldable pub substr : Option ℕ → Option ℕ → Str → Outcome Str
substr none n str = fault exception
substr (some pos) none str = if ltb (length str) pos then fault exception else done (drop pos str)
substr (some pos) (some n) str =
    if ltb (length str) pos then fault exception else done (take n (drop pos str))

-- `to - from`.
unfoldable pub distance : Option ℕ → Option ℕ → Option ℕ
distance none from = none
distance (some to) none = none
distance (some to) (some from) = some (to - from)
