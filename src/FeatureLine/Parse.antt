-- ===== src/FeatureLine/Parse.antt =====
-- A line that is put together from a name and settings, and what `ParseLine` reads in it.
use mathlib.Core.List.{append_assoc, append-nil}
use gpu_moses.Prelude.{
  ◌≡◌, refl, ap, sym, ◌∙◌, Bool, true, false, not, ◌&&◌, ◌||◌, Option, none, some, ℕ, List, [], ◌∷◌,
  ◌++◌, map, All, All-append, Bool-cases, inl, inr, if◌then◌else◌,
}
use gpu_moses.Outcome.{done, fault, exception}
use gpu_moses.Text.{Str, codes, one_of, str_eq}
use gpu_moses.Text.Find.{None, str_eq_iff}
use gpu_moses.Decimal.{signed_size, skip_spaces, scan_size}
use gpu_moses.Util.{blanks}
use gpu_moses.Util.Join.{IsToken, join, tokenize-join}
use gpu_moses.Util.Fields.{tokenize_first_only-pair}
use gpu_moses.FeatureLine.{Parsed, contains, put_arg, parse_loop, parse_line, unparsed}

abbrev pub setting : Str × Str → Str
setting (key, value) = key ++ (b'=' ∷ value)

-- A key has no blank and no `=`, a value no blank.
abbrev pub IsSetting : Str × Str → Type 0
IsSetting (key, value) =
    None (one_of blanks) key × None (one_of (codes "=")) key × None (one_of blanks) value

abbrev pub distinct : List Str → List (Str × Str) → Bool
distinct keys [] = true
distinct keys ((key, value) ∷ kvs) = not (contains keys key) && distinct (key ∷ keys) kvs

-- The last value that a key is given, if there is one.
abbrev pub last_value : Str → List (Str × Str) → Option Str
last_value key [] = none
last_value key ((k, value) ∷ kvs) = elim (last_value key kvs) [
  | some later ↦ some later
  | none ↦ if str_eq k key then some value else none
]

abbrev pub given {ℓ} : {A : Type ℓ} → (Str → A) → A → Option Str → A
given f default none = default
given f default (some value) = f value

-- The settings that the constructors of the classes are left to read.
abbrev pub others : List (Str × Str) → List (Str × Str)
others [] = []
others ((key, value) ∷ kvs) =
    if str_eq key (codes "num-features") || str_eq key (codes "name")
    then others kvs
    else (key, value) ∷ others kvs

-- The name is the value of `name`, the number of scores that of `num-features`, and the rest are arguments.
abbrev over : List (Str × Str) → Parsed → Parsed
over kvs ff = record {
  m_name = given (λ v. v) ff.m_name (last_value (codes "name") kvs);
  num_scores =
      given (λ v. signed_size (skip_spaces v)) ff.num_scores
        (last_value (codes "num-features") kvs);
  m_args = ff.m_args ++ others kvs;
}

-- As `over` on a feature without a name, with one score and without arguments.
abbrev pub settings_of : List (Str × Str) → Parsed
settings_of kvs = record {
  m_name = given (λ v. v) [] (last_value (codes "name") kvs);
  num_scores = given (λ v. signed_size (skip_spaces v)) 1 (last_value (codes "num-features") kvs);
  m_args = others kvs;
}

-- A value of `num-features` has something to read.
abbrev pub IsCount : Str × Str → Type 0
IsCount (key, value) =
    str_eq key (codes "num-features") ≡ true → (c : ℕ) × (cs : Str) × (skip_spaces value ≡ c ∷ cs)

given-last_value {ℓ} :
    {A : Type ℓ} (f : Str → A) (default : A) (key k value : Str) (kvs : List (Str × Str))
    → given f default (last_value key ((k, value) ∷ kvs))
      ≡ given f (if str_eq k key then f value else default) (last_value key kvs)
given-last_value f default key k value kvs = later (last_value key kvs) (str_eq k key)
  where
    later :
        (o : Option Str) (b : Bool)
        → given f default (elim o [ some w ↦ some w | none ↦ if b then some value else none ])
          ≡ given f (if b then f value else default) o
    later none true = refl
    later none false = refl
    later (some w) b = refl

same_parsed :
    (a b : Parsed) → a.m_name ≡ b.m_name → a.num_scores ≡ b.num_scores → a.m_args ≡ b.m_args → a ≡ b
same_parsed a b p q r = λ i. record { m_name = p i; num_scores = q i; m_args = r i }

given-at {ℓ} :
    {A : Type ℓ} (f : Str → A) (default : A) (key k value : Str) (kvs : List (Str × Str)) (b : Bool)
    → str_eq k key ≡ b
    → given f (if b then f value else default) (last_value key kvs)
      ≡ given f default (last_value key ((k, value) ∷ kvs))
given-at f default key k value kvs b e =
    ap (λ (b : Bool). given f (if b then f value else default) (last_value key kvs)) (sym e)
    ∙ sym (given-last_value f default key k value kvs)

count_is_no_name :
    (key : Str) → str_eq key (codes "num-features") ≡ true → str_eq key (codes "name") ≡ false
count_is_no_name key count =
    ap (λ (k : Str). str_eq k (codes "name")) ((str_eq_iff key (codes "num-features")).0 count)

put_arg-over :
    (key value : Str) (kvs : List (Str × Str)) (ff : Parsed)
    → IsCount (key, value)
    → (ff' : Parsed) × (put_arg key value ff ≡ done ff')
      × (over kvs ff' ≡ over ((key, value) ∷ kvs) ff)
unfolding put_arg scan_size
put_arg-over key value kvs ff is = elim (Bool-cases (str_eq key (codes "num-features"))) [
  | inl count ↦
      let (c, cs, e) = is count in
      let no_name = count_is_no_name key count in
      (
        record ff { num_scores = signed_size (skip_spaces value) },
        rw (count, scan_size, e) refl,
        same_parsed _ _ (given-at (λ v. v) ff.m_name (codes "name") key value kvs false no_name)
            (given-at (λ v. signed_size (skip_spaces v)) ff.num_scores (codes "num-features") key
              value kvs true count)
            (rw count refl),
      )
  | inr no_count ↦ elim (Bool-cases (str_eq key (codes "name"))) [
    | inl name ↦ (
      record ff { m_name = value },
      rw (no_count, name) refl,
      same_parsed _ _ (given-at (λ v. v) ff.m_name (codes "name") key value kvs true name)
          (given-at (λ v. signed_size (skip_spaces v)) ff.num_scores (codes "num-features") key
            value kvs false no_count)
          (rw (no_count, name) refl),
    )
    | inr no_name ↦ (
      record ff { m_args = ff.m_args ++ (key, value) ∷ [] },
      rw (no_count, no_name) refl,
      same_parsed _ _ (given-at (λ v. v) ff.m_name (codes "name") key value kvs false no_name)
          (given-at (λ v. signed_size (skip_spaces v)) ff.num_scores (codes "num-features") key
            value kvs false no_count)
          (rw (no_count, no_name) (append_assoc ff.m_args ((key, value) ∷ []) (others kvs))),
    )
  ]
]

parse_loop-settings :
    (kvs : List (Str × Str)) (keys : List Str) (ff : Parsed)
    → All IsSetting kvs
    → All IsCount kvs
    → parse_loop (map setting kvs) keys ff
      ≡ (if distinct keys kvs then done (over kvs ff) else fault exception)
unfolding parse_loop
parse_loop-settings [] keys ff h counts =
    ap done (same_parsed _ _ refl refl (sym (append-nil ff.m_args)))
parse_loop-settings ((key, value) ∷ kvs) keys ff h counts =
    let (ff', e, same) = put_arg-over key value kvs ff counts.0 in
    rw (tokenize_first_only-pair (codes "=") key b'=' value h.0.1 refl)
      (elim (Bool-cases (contains keys key)) [
        | inl twice ↦ rw twice refl
        | inr once ↦ rw (once, e, ← same) (parse_loop-settings kvs (key ∷ keys) ff' h.1 counts.1)
      ])

setting-IsToken : (key value : Str) → IsSetting (key, value) → IsToken blanks (setting (key, value))
setting-IsToken [] value h = (refl, h.2)
setting-IsToken (k ∷ key) value h =
    All-append (λ c. one_of blanks c ≡ false) (k ∷ key) (b'=' ∷ value) h.0 (refl, h.2)

pub settings-IsToken :
    (kvs : List (Str × Str)) → All IsSetting kvs → All (IsToken blanks) (map setting kvs)
settings-IsToken [] h = tt
settings-IsToken ((key, value) ∷ kvs) h = (setting-IsToken key value h.0, settings-IsToken kvs h.1)

-- `ParseLine` of a name and settings `key=value` that are joined with blanks, where no part has a blank, no
-- key has a `=`, the name is not empty, and the values of `num-features` are not white space: it throws if
-- two settings have one key. Otherwise the name of the feature is the value of `name`, or empty; it has as
-- many scores as the number in the value of `num-features`, or one; and all other settings are arguments, in
-- order.
pub parse_line-settings :
    (stub : Str) (kvs : List (Str × Str))
    → IsToken blanks stub
    → All IsSetting kvs
    → All IsCount kvs
    → parse_line (join b' ' (stub ∷ map setting kvs))
      ≡ (if distinct [] kvs then done (settings_of kvs) else fault exception)
unfolding parse_line
parse_line-settings stub kvs named h counts =
    rw (tokenize-join blanks b' ' (stub ∷ map setting kvs) refl (named, settings-IsToken kvs h))
      (parse_loop-settings kvs [] unparsed h counts)
