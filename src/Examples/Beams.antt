-- ===== src/Examples/Beams.antt =====
-- Stack.cu: a beam of two, with room for four hypotheses.
use mathlib.Core.List.{Permᴰ}
use gpu_moses.Prelude.{ℕ, ◌≡◌, refl, arith, some, List, [], ◌∷◌, ◌++◌}
use gpu_moses.Outcome.{Returns}
use gpu_moses.Cuda.Map.{key_lt}
use gpu_moses.Cuda.Map.Laws.{key_lt-order}
use gpu_moses.Stack.{Stack, prune, add}
use gpu_moses.Stack.Prune.{IsStack, Pruned, prune-Pruned}
use gpu_moses.Stack.Keep.{Added, add-Added, add-conserves}
use gpu_moses.Examples.Data.{better, better-order}

abbrev beam_list : List (ℕ × ℕ)
beam_list = (1, 5) ∷ (2, 7) ∷ (4, 1) ∷ []

abbrev beam : Stack (ℕ × ℕ)
beam = record {
  m_coll = record { max_size = 4; cells = some (1, 5) ∷ some (2, 7) ∷ some (4, 1) ∷ [] };
  m_tolerance = 4;
  freed = [];
}

beam-IsStack : IsStack key_lt better 2 beam beam_list
beam-IsStack = record {
  holds = record { contents = refl; fits = omega arith };
  sorted = ((refl, (refl, tt)), ((refl, tt), (tt, tt)));
  tolerance = refl;
  capacity = refl;
}

abbrev full_list : List (ℕ × ℕ)
full_list = (1, 5) ∷ (2, 7) ∷ (4, 1) ∷ (6, 9) ∷ []

abbrev full_beam : Stack (ℕ × ℕ)
full_beam = record {
  m_coll = record {
    max_size = 4;
    cells = some (1, 5) ∷ some (2, 7) ∷ some (4, 1) ∷ some (6, 9) ∷ [];
  };
  m_tolerance = 4;
  freed = [];
}

full_beam-IsStack : IsStack key_lt better 2 full_beam full_list
full_beam-IsStack = record {
  holds = record { contents = refl; fits = omega arith };
  sorted = ((refl, (refl, (refl, tt))), ((refl, (refl, tt)), ((refl, tt), (tt, tt))));
  tolerance = refl;
  capacity = refl;
}

prune-Pruned_example :
    Returns
      (λ s'.
        (kept : List (ℕ × ℕ)) × (dropped : List (ℕ × ℕ)) × Pruned key_lt better 2 beam beam_list s'
          kept dropped)
      (prune key_lt better 2 beam)
prune-Pruned_example =
    prune-Pruned key_lt better 2 key_lt-order better-order beam beam_list beam-IsStack

add-Added_example :
    Returns
      (λ s'.
        (ys : List (ℕ × ℕ)) × Added key_lt better 2 key_lt-order better-order
          (omega arith)
          (3, 8)
          full_beam
          full_list
          s'
          ys)
      (add key_lt better 2 (3, 8) full_beam)
add-Added_example =
    add-Added key_lt better 2 key_lt-order better-order (omega arith) (3, 8) full_beam full_list
      full_beam-IsStack

add-conserves_example :
    Returns
      (λ s'.
        (ys : List (ℕ × ℕ)) × IsStack key_lt better 2 s' ys
        × (lost : List (ℕ × ℕ)) × (s'.freed ≡ lost)
        × Permᴰ (ys ++ lost) ((3, 8) ∷ full_list))
      (add key_lt better 2 (3, 8) full_beam)
add-conserves_example =
    add-conserves key_lt better 2 key_lt-order better-order (omega arith) (3, 8) full_beam full_list
      full_beam-IsStack
