-- ===== src/Examples/Search.antt =====
-- `upperBound`, CUDA/Set.h and CUDA/Map.h on a sorted vector.
use gpu_moses.Prelude.{ℕ, ◌≡◌, refl, arith, some, List, [], ◌∷◌, inl, inr, ltb, ◌==◌, if◌then◌else◌}
use gpu_moses.Outcome.{Returns}
use gpu_moses.Cuda.Buffer.{Buffer}
use gpu_moses.Cuda.Holds.{Holds}
use gpu_moses.Cuda.Order.{IsStrictlySorted}
use gpu_moses.Cuda.Search.{upper_bound}
use gpu_moses.Cuda.Search.Finds.{Finds, upper_bound-Finds}
use gpu_moses.Cuda.Set
use gpu_moses.Cuda.Set.Laws.{PutIn, insert-PutIn}
use gpu_moses.Cuda.Map
use gpu_moses.Cuda.Map.Laws.{assoc, IsMap, insert_host-assoc}
use gpu_moses.Examples.Data.{ltb-order, numbers, number_buffer, number_buffer-Holds}

numbers-IsStrictlySorted : IsStrictlySorted ltb numbers
numbers-IsStrictlySorted = ((refl, (refl, tt)), ((refl, tt), (tt, tt)))

upper_bound-Finds_example : Returns (Finds ltb numbers 6) (upper_bound ltb 6 number_buffer)
upper_bound-Finds_example =
    upper_bound-Finds ltb ltb-order 6 numbers number_buffer-Holds
      ((refl, (refl, tt)), ((refl, tt), (tt, tt)))

insert-PutIn_example :
    Returns
      (λ b'. ((ys : List ℕ) × Holds b' ys × PutIn ltb ltb-order 6 numbers ys) × (b'.max_size ≡ 4))
      (Set.insert ltb 6 number_buffer)
insert-PutIn_example =
    insert-PutIn ltb ltb-order 6 numbers number_buffer number_buffer-Holds numbers-IsStrictlySorted
      (omega arith) (inr refl, (inr refl, (inl refl, tt)))

-- A map from words to numbers.
abbrev ages : List (ℕ × ℕ)
ages = (3, 30) ∷ (8, 80) ∷ []

abbrev age_buffer : Buffer (ℕ × ℕ)
age_buffer = record { max_size = 2; cells = some (3, 30) ∷ some (8, 80) ∷ [] }

insert_host-assoc_example :
    Returns
      (λ b'.
        (kvs' : List (ℕ × ℕ)) × Holds b' kvs'
        × IsMap kvs'
        × ((j : ℕ) → assoc j kvs' ≡ (if 5 == j then some 50 else assoc j ages)))
      (Map.insert_host 5 50 age_buffer)
insert_host-assoc_example =
    insert_host-assoc 5 50 ages age_buffer (record { contents = refl; fits = omega arith })
      ((refl, tt), (tt, tt)) refl
