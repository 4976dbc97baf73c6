-- ===== src/Examples/Options.antt =====
-- Parameter.cpp: command lines for the options that the constructor adds.
use gpu_moses.Prelude.{◌≡◌, refl, false, true, [], ◌∷◌}
use gpu_moses.Parameter.{no_tables, add_params, is_option, switches_ok}
use gpu_moses.Parameter.Allowed.{allowed}
use gpu_moses.Parameter.Switches.{declares, all_declared, switches_ok-add_params}

switches_ok-add_params_example :
    switches_ok ("decoder" ∷ "-f" ∷ "moses.ini" ∷ "-stak" ∷ "5" ∷ []) (add_params allowed no_tables)
    ≡ all_declared allowed ("decoder" ∷ "-f" ∷ "moses.ini" ∷ "-stak" ∷ "5" ∷ [])
switches_ok-add_params_example =
    switches_ok-add_params allowed ("decoder" ∷ "-f" ∷ "moses.ini" ∷ "-stak" ∷ "5" ∷ [])

misspelt : all_declared allowed ("decoder" ∷ "-f" ∷ "moses.ini" ∷ "-stak" ∷ "5" ∷ []) ≡ false
unfolding all_declared declares is_option
misspelt = refl

legal : all_declared allowed ("decoder" ∷ "-stack" ∷ "-5" ∷ []) ≡ true
unfolding all_declared declares is_option
legal = refl
