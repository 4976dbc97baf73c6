-- ===== src/ConfigFile/Lines.antt =====
-- The lines of a configuration file: values between white space, comments, and what is meant by them.
use mathlib.Core.List.{append-nil}
use gpu_moses.Prelude.{
  ℕ, ◌≡◌, ◌≢◌, refl, ap, sym, ◌∙◌, Bool, true, false, List, [], ◌∷◌, ◌++◌, map, arith, All,
  Bool-cases, inl, inr, if◌then◌else◌, true≢false,
}
use gpu_moses.Text.{Str, codes, one_of, none_of, str_eq}
use gpu_moses.Text.Find.{None, find_start_at, find_start_none, take-append, str_eq_iff}
use gpu_moses.Util.{trim, white}
use gpu_moses.Util.Fields.{IsTrimmed}
use gpu_moses.ConfigFile.{Setting, push_value, strip_comment, read_line, read_config}

-- A line of a section: a value between white space, or white space alone, and a comment after it.
pub data FileLine : Type 0 where
  value_line : Str → Str → Str → Str → FileLine
  blank_line : Str → Str → FileLine

abbrev pub shown : FileLine → Str
shown (value_line front value back comment) = (front ++ (value ++ back)) ++ comment
shown (blank_line gap comment) = gap ++ comment

abbrev pub values_in : List FileLine → List Str
values_in [] = []
values_in (value_line front value back comment ∷ lines) = value ∷ values_in lines
values_in (blank_line gap comment ∷ lines) = values_in lines

-- Empty, or from a # on.
abbrev pub IsComment : Str → Type 0
IsComment [] = Unit
IsComment (c ∷ cs) = c ≡ b'#'

-- A value has nothing to trim, no comment, and is no section.
pub record IsValue (line : Str) : Type 0 where
  pub trimmed : IsTrimmed white line
  pub no_comment : None (one_of (codes "#")) line
  pub no_section : trimmed.first ≢ b'['

abbrev pub IsFileLine : FileLine → Type 0
IsFileLine (value_line front value back comment) =
    None (none_of white) front × IsValue value × None (none_of white) back × IsComment comment
IsFileLine (blank_line gap comment) = None (none_of white) gap × IsComment comment

abbrev pub header : Str → Str
header name = b'[' ∷ (name ++ b']' ∷ [])

-- The lines of a file with these sections.
abbrev pub file : List (Str × List FileLine) → List Str
file [] = []
file ((name, lines) ∷ sections) = header name ∷ (map shown lines ++ file sections)

abbrev pub IsSection : Str × List FileLine → Type 0
IsSection (name, lines) =
    None (one_of (codes "]")) name × None (one_of (codes "#")) name × All IsFileLine lines

-- The values of a name in the sections, and in the map.
abbrev pub section_values : Str → List (Str × List FileLine) → List Str
section_values key [] = []
section_values key ((name, lines) ∷ sections) =
    if str_eq name key
    then values_in lines ++ section_values key sections
    else section_values key sections

abbrev pub values_of : Str → Setting → List Str
values_of key [] = []
values_of key ((name, values) ∷ setting) = if str_eq name key then values else values_of key setting

-- A value that is pushed is the last of its name.
pub values_of-push_value :
    (key name value : Str) (setting : Setting)
    → values_of key (push_value name value setting)
      ≡ values_of key setting ++ (if str_eq name key then value ∷ [] else [])
values_of-push_value key name value [] = refl
values_of-push_value key name value ((k, values) ∷ setting) = elim (Bool-cases (str_eq k name)) [
  | inl same ↦
      let is : k ≡ name = (str_eq_iff k name).0 same in
      rw same (rw is (both values (str_eq name key) (values_of key setting)))
  | inr differ ↦ rw differ (elim (Bool-cases (str_eq k key)) [
    | inl there ↦
        let is : k ≡ key = (str_eq_iff k key).0 there in
        rw (there, other is differ) (sym (append-nil values))
    | inr elsewhere ↦ rw elsewhere (values_of-push_value key name value setting)
  ])
]
  where
    other : {k : Str} → k ≡ key → str_eq k name ≡ false → str_eq name key ≡ false
    other {k = k} is differ = elim (Bool-cases (str_eq name key)) [
      | inl same ↦
          absurd
            (true≢false ((str_eq_iff k name).1 (is ∙ sym ((str_eq_iff name key).0 same))) differ)
      | inr apart ↦ apart
    ]

    both :
        (values : List Str) (b : Bool) (rest : List Str)
        → (if b then values ++ value ∷ [] else rest)
          ≡ (if b then values else rest) ++ (if b then value ∷ [] else [])
    both values true rest = refl
    both values false rest = sym (append-nil rest)

white_is_no_comment : (c : ℕ) → none_of white c ≡ false → one_of (codes "#") c ≡ false
white_is_no_comment c h = ground arith

pub None-white : (gap : Str) → None (none_of white) gap → None (one_of (codes "#")) gap
None-white [] h = tt
None-white (c ∷ gap) h = (white_is_no_comment c h.0, None-white gap h.1)

pub strip_comment-append :
    (line comment : Str)
    → None (one_of (codes "#")) line
    → IsComment comment
    → strip_comment (line ++ comment) ≡ line
unfolding strip_comment
strip_comment-append line [] clean is =
    ap strip_comment (append-nil line)
    ∙ rw (strip_comment, find_start_none (one_of (codes "#")) line clean) refl
strip_comment-append line (c ∷ comment) clean is =
    rw (strip_comment, find_start_at (one_of (codes "#")) line c comment clean (hash c is))
      (take-append line (c ∷ comment))
  where
    hash : (c : ℕ) → c ≡ b'#' → one_of (codes "#") c ≡ true
    hash c is = rw is refl

pub read_config-line :
    (line core : Str) (lines : List Str) (name name' : Str) (setting setting' : Setting)
    → trim (strip_comment line) white ≡ core
    → read_line core name setting ≡ (name', setting')
    → read_config (line ∷ lines) name setting ≡ read_config lines name' setting'
unfolding read_config
read_config-line line core lines name name' setting setting' t e =
    ap (λ (r : Str × Setting). read_config lines r.0 r.1)
      (ap (λ (l : Str). read_line l name setting) t ∙ e)
