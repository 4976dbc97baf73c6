-- ===== src/Parameter/Table.antt =====
-- Parameter.cpp: AddParam and the maps it fills, GetParam, and the test for illegal switches.
use Prim.Native.String.{String, len, slice}
use text.Mathlib.Text.{◌==◌, starts_with}
use gpu_moses.Prelude.{
  Bool, true, false, Option, none, some, List, [], ◌∷◌, ◌++◌, ℕ, ◌+◌, ltb, length, set, ◌&&◌,
  if◌then◌else◌, leb,
}

-- The arguments of a call of `AddParam`.
pub record Param : Type 0 where
  pub name : String
  pub abbrev_name : Option String
  pub description : String

-- The members that `AddParam` writes; only their look-up is modelled, not the order of a map.
pub record Tables : Type 0 where
  pub valid : List (String × Bool)
  pub abbreviation : List (String × String)
  pub descriptions : List (String × String)
  pub fullname : List (String × String)

module _ {ℓ} {V : Type ℓ} where
  abbrev pub find : String → List (String × V) → Option V
  find key [] = none
  find key ((k, v) ∷ rest) = if key == k then some v else find key rest

  -- `m[key] = val`.
  abbrev pub assign : String → V → List (String × V) → List (String × V)
  assign key val [] = (key, val) ∷ []
  assign key val ((k, v) ∷ rest) =
      if key == k then (k, val) ∷ rest else (k, v) ∷ assign key val rest

abbrev pub no_tables : Tables
no_tables = record { valid = []; abbreviation = []; descriptions = []; fullname = [] }

unfoldable pub add_param : Param → Tables → Tables
add_param p t = elim p.abbrev_name [
  | none ↦ record t {
    valid = assign p.name true t.valid;
    descriptions = assign p.name p.description t.descriptions;
  }
  | some short ↦ record {
    valid = assign short true (assign p.name true t.valid);
    abbreviation = assign p.name short t.abbreviation;
    descriptions = assign p.name p.description t.descriptions;
    fullname = assign short p.name t.fullname;
  }
]

-- The constructor: one call after the other.
unfoldable pub add_params : List Param → Tables → Tables
add_params [] t = t
add_params (p ∷ ps) t = add_params ps (add_param p t)

-- `substr(1, 1).find_first_not_of("0123456789") == 0`, where the text has a second character.
abbrev pub not_digit : String → Bool
not_digit s =
    if starts_with s "0"
    then false
    else if starts_with s "1"
    then false
    else if starts_with s "2"
    then false
    else if starts_with s "3"
    then false
    else if starts_with s "4"
    then false
    else if starts_with s "5"
    then false
    else if starts_with s "6"
    then false
    else if starts_with s "7"
    then false
    else if starts_with s "8"
    then false
    else if starts_with s "9"
    then false
    else true

unfoldable pub is_option : String → Bool
is_option token =
    if leb (len token) 1
    then false
    else if starts_with token "-"
    then not_digit (slice token 1 (len token))
    else false

abbrev pub is_known : String → Tables → Bool
is_known key t = elim (find key t.valid) [ none ↦ false | some _ ↦ true ]

-- The loop of `LoadParam` over the arguments: whether no switch is illegal.
unfoldable pub switches_ok : List String → Tables → Bool
switches_ok [] t = true
switches_ok (token ∷ argv) t =
    (if is_option token then is_known (slice token 1 (len token)) t else true) && switches_ok argv t

unfoldable pub find_param : String → List String → String
find_param switch [] = ""
find_param switch (token ∷ argv) =
    if token == switch then elim argv [ [] ↦ "" | val ∷ rest ↦ val ] else find_param switch argv

-- The arguments from `startPos` on.
unfoldable pub after_switch : String → List String → Option (List String)
after_switch switch [] = none
after_switch switch (token ∷ argv) = if token == switch then some argv else after_switch switch argv

-- The loop of `OverwriteParam`, for the values of the parameter.
unfoldable pub write_values : List String → List String → ℕ → List String
write_values [] vals index = vals
write_values (token ∷ argv) vals index =
    if is_option token
    then vals
    else write_values argv
        (if ltb index (length vals) then set vals index token else vals ++ token ∷ []) (index + 1)

unfoldable pub overwrite_param :
    String → String → List String → List (String × List String) → List (String × List String)
overwrite_param switch name argv setting = elim (after_switch switch argv) [
  | none ↦ setting
  | some rest ↦
      assign name (write_values rest (elim (find name setting) [ none ↦ [] | some vals ↦ vals ]) 0)
        setting
]
