-- ===== src/Util.antt =====
-- Util.h and Util.cpp: the functions on strings. `Scan` to a float is a parameter of what uses it.
pub mod Words
pub mod Join
pub mod Fields
pub mod Separate
use gpu_moses.Prelude.{
  ℕ, zero, suc, ◌+◌, ◌-◌, ◌*◌, ◌^◌, ◌%◌, Bool, true, false, ◌&&◌, ◌||◌, Option, none, some, List,
  [], ◌∷◌, ◌++◌, length, map, take, drop, ltb, leb, ◌==◌, if◌then◌else◌,
}
use gpu_moses.Outcome.{Outcome, done, fault, exception, out_of_fuel, ◌>>=◌}
use gpu_moses.Text.{
  Str, codes, str_eq, one_of, none_of, find_first_of, find_first_not_of, find_str, after_last,
  substr, distance,
}

-- The loop of both `Tokenize`, from `last_pos` and `pos`. Each round passes a token, so that one round more
-- than the string has characters is enough.
unfoldable pub tokenize_loop : ℕ → Str → Str → Option ℕ → Option ℕ → List Str → Outcome (List Str)
tokenize_loop zero delimiters str last_pos pos output = fault out_of_fuel
tokenize_loop (suc fuel) delimiters str last_pos pos output = do
  let go_on = (do
    token ← substr last_pos (distance pos last_pos) str
    let last_pos' = find_first_not_of delimiters str pos
    tokenize_loop fuel delimiters str last_pos' (find_first_of delimiters str last_pos')
        (output ++ token ∷ []))
  elim pos [ some p ↦ go_on | none ↦ elim last_pos [ some p ↦ go_on | none ↦ done output ] ]

-- `Tokenize(output, str, delimiters)`.
unfoldable pub tokenize_into : List Str → Str → Str → Outcome (List Str)
unfolding tokenize_loop
tokenize_into output str delimiters =
    let last_pos = find_first_not_of delimiters str (some 0) in
    tokenize_loop (length str + 1) delimiters str last_pos (find_first_of delimiters str last_pos)
      output

-- `Tokenize(str, delimiters)`.
unfoldable pub tokenize : Str → Str → Outcome (List Str)
unfolding tokenize_loop
tokenize str delimiters =
    let last_pos = find_first_not_of delimiters str (some 0) in
    tokenize_loop (length str + 1) delimiters str last_pos (find_first_of delimiters str last_pos)
      []

-- " \t", the default delimiters.
abbrev pub blanks : Str
blanks = codes " \t"

-- `TokenizeFirstOnly`.
unfoldable pub tokenize_first_only : Str → Str → Outcome (List Str)
tokenize_first_only str delimiters = elim (find_first_of delimiters str (some 0)) [
  | some pos ↦ do
    key ← substr (some 0) (some pos) str
    value ← substr (some (pos + 1)) (some (length str - pos - 1)) str
    done (key ∷ value ∷ [])
  | none ↦ done (str ∷ [])
]

-- `res.erase(0, res.find_first_not_of(dropChars))`, where npos erases all.
unfoldable pub erase_front : Str → Str → Str
erase_front drop_chars res = elim (find_first_not_of drop_chars res (some 0)) [
  | some n ↦ drop n res
  | none ↦ []
]

-- `Trim`. `find_last_not_of` is one less than `after_last`.
unfoldable pub trim : Str → Str → Str
unfolding erase_front
trim str drop_chars = erase_front drop_chars (take (after_last (none_of drop_chars) str) str)

-- The default of `dropChars`.
abbrev pub white : Str
white = codes " \t\n\r"

-- The loop of `TokenizeMultiCharSeparator`, at `pos`.
unfoldable pub separate_loop : ℕ → Str → Str → ℕ → List Str → Outcome (List Str)
separate_loop zero separator str pos output = fault out_of_fuel
separate_loop (suc fuel) separator str pos output = elim (find_str separator str pos) [
  | some next_pos ↦ do
    field ← substr (some pos) (some (next_pos - pos)) str
    separate_loop fuel separator str (next_pos + length separator) (output ++ trim field white ∷ [])
  | none ↦ do field ← substr (some pos) none str; done (output ++ trim field white ∷ [])
]

-- `TokenizeMultiCharSeparator`. A separator that is not empty makes each round pass a character.
unfoldable pub tokenize_multi_char_separator : List Str → Str → Str → Outcome (List Str)
unfolding separate_loop
tokenize_multi_char_separator output str separator =
    separate_loop (length str + 1) separator str 0 output

-- `ToLower`, for ASCII.
abbrev pub to_lower : Str → Str
to_lower = map (λ c. if leb b'A' c && leb c b'Z' then c + 32 else c)

-- `Scan<bool>`.
unfoldable pub scan_bool : Str → Outcome Bool
scan_bool input =
    let lc = to_lower input in
    if str_eq lc (codes "yes")
      || str_eq lc (codes "y")
      || str_eq lc (codes "true")
      || str_eq lc (codes "1")
    then done true
    else if str_eq lc (codes "no")
        || str_eq lc (codes "n")
        || str_eq lc (codes "false")
        || str_eq lc (codes "0")
    then done false
    else fault exception
