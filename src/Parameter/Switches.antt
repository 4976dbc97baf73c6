-- ===== src/Parameter/Switches.antt =====
-- Parameter.cpp: the switches that pass are the names and abbreviations that were added.
use Prim.Native.String.{String, len, slice}
use text.Mathlib.Text.{◌==◌}
use text.Mathlib.TextEquality.{eq_iff}
use gpu_moses.Prelude.{
  ◌≡◌, refl, Bool, true, false, Option, none, some, List, [], ◌∷◌, ◌&&◌, ◌||◌, arith, if◌then◌else◌,
}
use gpu_moses.Parameter.Table.{
  Param, Tables, no_tables, find, assign, is_known, add_param, add_params, is_option, switches_ok,
}

-- Whether the map has the key.
abbrev has {ℓ} : {V : Type ℓ} → String → List (String × V) → Bool
has key m = elim (find key m) [ none ↦ false | some _ ↦ true ]

has-assign {ℓ} :
    {V : Type ℓ} (q k : String) (v : V) (m : List (String × V))
    → has q (assign k v m) ≡ (q == k || has q m)
has-assign q k v [] = ground arith
has-assign q k v ((j, w) ∷ m) = ground (arith, (eq_iff k j).0, has-assign q k v m)

-- Whether a call declares the text, as the name or the abbreviation of the parameter.
unfoldable pub declares : String → List Param → Bool
declares key [] = false
declares key (p ∷ ps) =
    key == p.name
    || (elim p.abbrev_name [ none ↦ false | some short ↦ key == short ])
    || declares key ps

-- Every switch is declared.
unfoldable pub all_declared : List Param → List String → Bool
all_declared ps [] = true
all_declared ps (token ∷ argv) =
    (if is_option token then declares (slice token 1 (len token)) ps else true)
    && all_declared ps argv

known-add :
    (key n d : String) (a : Option String) (t : Tables)
    → is_known key (add_param (record { name = n; abbrev_name = a; description = d }) t)
      ≡ ((key == n || elim a [ none ↦ false | some short ↦ key == short ]) || is_known key t)
unfolding add_param
known-add key n d none t = ground (arith, has-assign key n true t.valid)
known-add key n d (some short) t =
    ground (arith, has-assign key n true t.valid, has-assign key short true (assign n true t.valid))

known-add_params :
    (key : String) (ps : List Param) (t : Tables)
    → is_known key (add_params ps t) ≡ (declares key ps || is_known key t)
unfolding add_params declares
known-add_params key [] t = refl
known-add_params key (p ∷ ps) t = ground (
  arith,
  known-add_params key ps (add_param p t),
  known-add key p.name p.description p.abbrev_name t,
)

-- After the options have been added to empty tables, the loop over the arguments finds no
-- illegal switch exactly if each switch is the name or the abbreviation of one of the options.
pub switches_ok-add_params :
    (ps : List Param) (argv : List String)
    → switches_ok argv (add_params ps no_tables) ≡ all_declared ps argv
unfolding switches_ok all_declared
switches_ok-add_params ps [] = refl
switches_ok-add_params ps (token ∷ argv) = ground (
  arith,
  switches_ok-add_params ps argv,
  known-add_params (slice token 1 (len token)) ps no_tables,
)
