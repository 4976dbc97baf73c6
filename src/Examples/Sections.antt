-- ===== src/Examples/Sections.antt =====
-- ReadConfigFile: the section [stack] twice, with a comment and a blank line, and another one between.
use gpu_moses.Prelude.{◌≡◌, refl, arith, List, [], ◌∷◌, ◌++◌, All}
use gpu_moses.Text.{Str, codes}
use gpu_moses.ConfigFile.{read_config}
use gpu_moses.ConfigFile.Lines.{
  FileLine, value_line, blank_line, IsValue, IsSection, file, section_values, values_of,
}
use gpu_moses.ConfigFile.Sections.{read_config-file}

two_hundred-IsValue : IsValue (codes "200")
two_hundred-IsValue = record {
  trimmed = record {
    first = b'2';
    rest = codes "00";
    starts = refl;
    first_stays = refl;
    init = codes "20";
    last = b'0';
    ends = refl;
    last_stays = refl;
  };
  no_comment = (refl, (refl, (refl, tt)));
  no_section = λ e. absurd (omega (arith, e));
}

abbrev sections : List (Str × List FileLine)
sections =
    (
      codes "stack",
      value_line (codes " ") (codes "200") (codes " ") (codes "# size")
          ∷ blank_line (codes " ") []
          ∷ [],
    )
    ∷ (codes "limit", value_line [] (codes "200") [] [] ∷ [])
    ∷ (codes "stack", value_line [] (codes "200") [] [] ∷ [])
    ∷ []

sections-IsSection : All IsSection sections
sections-IsSection = (
  (
    (refl, (refl, (refl, (refl, (refl, tt))))),
    (refl, (refl, (refl, (refl, (refl, tt))))),
    (((refl, tt), two_hundred-IsValue, (refl, tt), refl), (((refl, tt), tt), tt)),
  ),
  (
    (
      (refl, (refl, (refl, (refl, (refl, tt))))),
      (refl, (refl, (refl, (refl, (refl, tt))))),
      ((tt, two_hundred-IsValue, tt, tt), tt),
    ),
    (
      (
        (refl, (refl, (refl, (refl, (refl, tt))))),
        (refl, (refl, (refl, (refl, (refl, tt))))),
        ((tt, two_hundred-IsValue, tt, tt), tt),
      ),
      tt,
    ),
  ),
)

two_values : section_values (codes "stack") sections ≡ codes "200" ∷ codes "200" ∷ []
two_values = refl

read_config-file_example :
    values_of (codes "stack") (read_config (file sections) [] [])
    ≡ values_of (codes "stack") [] ++ section_values (codes "stack") sections
read_config-file_example = read_config-file sections (codes "stack") [] [] sections-IsSection
