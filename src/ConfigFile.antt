-- ===== src/ConfigFile.antt =====
-- `Parameter::ReadConfigFile` of Parameter.cpp, over the lines of the file.
pub mod Lines
pub mod Sections
use gpu_moses.Prelude.{
  ℕ, ◌-◌, Option, none, some, List, [], ◌∷◌, ◌++◌, take, drop, ◌==◌, if◌then◌else◌,
}
use gpu_moses.Text.{Str, codes, str_eq, find_first_of}
use gpu_moses.Util.{trim, white}

-- `m_setting`, a map from names to values.
abbrev pub Setting : Type 0
Setting = List (Str × List Str)

-- `m_setting[key].push_back(value)`.
abbrev pub push_value : Str → Str → Setting → Setting
push_value key value [] = (key, value ∷ []) ∷ []
push_value key value ((k, values) ∷ rest) =
    if str_eq k key
    then (k, values ++ value ∷ []) ∷ rest
    else (k, values) ∷ push_value key value rest

-- `line.substr(0, comPos)`, where there is a comment.
unfoldable pub strip_comment : Str → Str
strip_comment line = elim (find_first_of (codes "#") line (some 0)) [
  | some pos ↦ take pos line
  | none ↦ line
]

-- The name between the brackets, or the old one where there is no `]`.
unfoldable pub section_name : Str → Str → Str
section_name line param_name = elim (find_first_of (codes "]") line (some 0)) [
  | some pos ↦ take (pos - 1) (drop 1 line)
  | none ↦ param_name
]

-- A line, once it is trimmed.
unfoldable pub read_line : Str → Str → Setting → Str × Setting
unfolding section_name
read_line [] param_name setting = (param_name, setting)
read_line (c ∷ line) param_name setting =
    if c == b'['
    then (section_name (c ∷ line) param_name, setting)
    else (param_name, push_value param_name (c ∷ line) setting)

unfoldable pub read_config : List Str → Str → Setting → Setting
unfolding strip_comment trim read_line
read_config [] param_name setting = setting
read_config (line ∷ lines) param_name setting =
    let (param_name', setting') = read_line (trim (strip_comment line) white) param_name setting in
    read_config lines param_name' setting'
