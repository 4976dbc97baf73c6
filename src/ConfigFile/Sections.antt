-- ===== src/ConfigFile/Sections.antt =====
-- A configuration file that is put together from sections, and what is read from it.
use mathlib.Core.List.{append_assoc, append-nil}
use gpu_moses.Prelude.{
  ℕ, ◌≡◌, refl, ap, sym, ◌∙◌, Bool, true, false, List, [], ◌∷◌, ◌++◌, map, arith, take, All,
  All-append, not-==, if◌then◌else◌,
}
use gpu_moses.Text.{Str, codes, one_of, str_eq}
use gpu_moses.Text.Find.{None, find_start_at, take-append}
use gpu_moses.Util.{trim, white}
use gpu_moses.Util.Fields.{IsTrimmed, trim_core, trim_gap}
use gpu_moses.ConfigFile.{Setting, push_value, strip_comment, section_name, read_line, read_config}
use gpu_moses.ConfigFile.Lines.{
  FileLine, value_line, blank_line, shown, values_in, IsValue, IsFileLine, header, file, IsSection,
  section_values, values_of, values_of-push_value, None-white, strip_comment-append,
  read_config-line,
}

read_line_value :
    (line name : Str) (setting : Setting)
    → IsValue line
    → read_line line name setting ≡ (name, push_value name line setting)
unfolding read_line
read_line_value line name setting v =
    rw (v.trimmed.starts) (rw (not-== v.trimmed.first b'[' v.no_section) refl)

-- The lines of a section add its values to what its name has, and to no other name.
read_config-lines :
    (lines : List FileLine) (rest : List Str) (key name : Str) (setting : Setting)
    → All IsFileLine lines
    → (setting' : Setting) × (read_config (map shown lines ++ rest) name setting
        ≡ read_config rest name setting')
      × (values_of key setting'
          ≡ values_of key setting ++ (if str_eq name key then values_in lines else []))
unfolding read_config read_line
read_config-lines [] rest key name setting h = (setting, refl, nothing (str_eq name key))
  where
    nothing : (b : Bool) → values_of key setting ≡ values_of key setting ++ (if b then [] else [])
    nothing true = sym (append-nil (values_of key setting))
    nothing false = sym (append-nil (values_of key setting))
read_config-lines (value_line front value back comment ∷ lines) rest key name setting h =
    let (white_front, is, white_back, is_comment) = h.0 in
    let (setting', e, values) =
      read_config-lines lines rest key name (push_value name value setting) h.1 in
    (
      setting',
      read_config-line (shown (value_line front value back comment)) value (map shown lines ++ rest)
            name name setting (push_value name value setting)
            (ap (λ (l : Str). trim l white)
                (strip_comment-append (front ++ (value ++ back)) comment
                  (All-append _ front (value ++ back) (None-white front white_front)
                    (All-append _ value back is.no_comment (None-white back white_back)))
                  is_comment)
              ∙ trim_core white front value back white_front white_back is.trimmed)
            (read_line_value value name setting is)
          ∙ e,
      values
          ∙ ap (λ (x : List Str). x ++ (if str_eq name key then values_in lines else []))
              (values_of-push_value key name value setting)
          ∙ append_assoc (values_of key setting) _ _
          ∙ ap (◌++◌ (values_of key setting)) (more (str_eq name key)),
    )
  where
    more :
        (b : Bool)
        → (if b then value ∷ [] else []) ++ (if b then values_in lines else [])
          ≡ (if b then value ∷ values_in lines else [])
    more true = refl
    more false = refl
read_config-lines (blank_line gap comment ∷ lines) rest key name setting h =
    let (setting', e, values) = read_config-lines lines rest key name setting h.1 in
    (
      setting',
      read_config-line (shown (blank_line gap comment)) [] (map shown lines ++ rest) name name
            setting setting
            (ap (λ (l : Str). trim l white)
                (strip_comment-append gap comment (None-white gap h.0.0) h.0.1)
              ∙ trim_gap white gap h.0.0)
            refl
          ∙ e,
      values,
    )

header-IsTrimmed : (name : Str) → IsTrimmed white (header name)
header-IsTrimmed name = record {
  first = b'[';
  rest = name ++ b']' ∷ [];
  starts = refl;
  first_stays = refl;
  init = b'[' ∷ name;
  last = b']';
  ends = refl;
  last_stays = refl;
}

section_name-header :
    (name old : Str) → None (one_of (codes "]")) name → section_name (header name) old ≡ name
unfolding section_name
section_name-header name old clean =
    rw (section_name, find_start_at (one_of (codes "]")) (b'[' ∷ name) b']' [] (refl, clean) refl)
      (ap (λ (n : ℕ). take n (name ++ b']' ∷ [])) (omega arith) ∙ take-append name (b']' ∷ []))

read_config-header :
    (name old : Str) (lines : List Str) (setting : Setting)
    → None (one_of (codes "]")) name
    → None (one_of (codes "#")) name
    → read_config (header name ∷ lines) old setting ≡ read_config lines name setting
unfolding read_line
read_config-header name old lines setting no_bracket no_comment =
    read_config-line (header name) (header name) lines old name setting setting
      (ap (λ (l : Str). trim (strip_comment l) white) (sym (append-nil (header name)))
        ∙ ap (λ (l : Str). trim l white)
            (strip_comment-append (header name) []
              (
                refl,
                All-append (λ c. one_of (codes "#") c ≡ false) name (b']' ∷ []) no_comment
                    (refl, tt),
              )
              tt)
        ∙ ap (λ (l : Str). trim l white) (sym (append-nil (header name)))
        ∙ trim_core white [] (header name) [] tt tt (header-IsTrimmed name))
      (ap (λ (n : Str). (n, setting)) (section_name-header name old no_bracket))

-- A file consists of sections, each with the header of a name without `]` and `#`. The lines of a section
-- hold a value between white space, or white space alone, and may end with a comment from a # on; a value
-- has no #, does not start with `[`, and has no white space at its ends. Then for every name, reading the
-- file adds to the values that the name has those of its sections, in order, and no others.
pub read_config-file :
    (sections : List (Str × List FileLine)) (key old : Str) (setting : Setting)
    → All IsSection sections
    → values_of key (read_config (file sections) old setting)
      ≡ values_of key setting ++ section_values key sections
unfolding read_config
read_config-file [] key old setting h = sym (append-nil (values_of key setting))
read_config-file ((name, lines) ∷ sections) key old setting h =
    let (no_bracket, no_comment, are) = h.0 in
    let (setting', e, values) = read_config-lines lines (file sections) key name setting are in
    ap (values_of key) (
      read_config-header name old (map shown lines ++ file sections) setting no_bracket no_comment
      ∙ e)
    ∙ read_config-file sections key name setting' h.1
    ∙ ap (λ (x : List Str). x ++ section_values key sections) values
    ∙ append_assoc (values_of key setting) _ _
    ∙ ap (◌++◌ (values_of key setting)) (joined (str_eq name key))
  where
    joined :
        (b : Bool)
        → (if b then values_in lines else []) ++ section_values key sections ≡ (
            if b
            then values_in lines ++ section_values key sections
            else section_values key sections)
    joined true = refl
    joined false = refl
