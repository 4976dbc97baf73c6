-- ===== src/Examples/Strings.antt =====
-- Util.h: strings with two words, and with two fields.
use gpu_moses.Prelude.{◌≡◌, refl, arith, List, [], ◌∷◌, ◌++◌, map}
use gpu_moses.Outcome.{done}
use gpu_moses.Text.{Str, codes}
use gpu_moses.Util.{tokenize, tokenize_multi_char_separator, trim, white, blanks}
use gpu_moses.Util.Words.{words, tokenize-words}
use gpu_moses.Util.Join.{tokenize-join}
use gpu_moses.Util.Fields.{IsTrimmed}
use gpu_moses.Util.Separate.{CleanFields, join_fields, tokenize_multi-fields}
use gpu_moses.Decimal.{print_size, scan_size}
use gpu_moses.Decimal.Roundtrip.{scan_size-print_size}

tokenize-words_example :
    tokenize (codes " das  haus") blanks ≡ done (words blanks (codes " das  haus"))
tokenize-words_example = tokenize-words blanks (codes " das  haus")

tokenize-join_example : tokenize (codes "das haus") blanks ≡ done (codes "das" ∷ codes "haus" ∷ [])
tokenize-join_example =
    tokenize-join blanks b' ' (codes "das" ∷ codes "haus" ∷ []) refl
      ((refl, (refl, (refl, tt))), ((refl, (refl, (refl, (refl, tt)))), tt))

tokenize_multi-fields_example :
    (f : Str) × (fs : List Str) × (codes "das ||| the" ≡ join_fields b'|' (codes "||") f fs)
    × CleanFields b'|' (codes "||") f fs
    × (tokenize_multi_char_separator [] (codes "das ||| the") (codes "|||")
        ≡ done ([] ++ map (λ (f : Str). trim f white) (f ∷ fs)))
tokenize_multi-fields_example = tokenize_multi-fields b'|' (codes "||") [] (codes "das ||| the")

haus-IsTrimmed : IsTrimmed white (codes "haus")
haus-IsTrimmed = record {
  first = b'h';
  rest = codes "aus";
  starts = refl;
  first_stays = refl;
  init = codes "hau";
  last = b's';
  ends = refl;
  last_stays = refl;
}

scan_size-print_size_example : scan_size (print_size 2016) ≡ done 2016
scan_size-print_size_example = scan_size-print_size 2016 (omega arith)
