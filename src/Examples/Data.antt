-- ===== src/Examples/Data.antt =====
-- The test data: orders on numbers and pairs, a few arrays, a bitmap of five words and a small beam.
use gpu_moses.Prelude.{ℕ, refl, arith, Bool, some, List, [], ◌∷◌, ltb}
use gpu_moses.Cuda.Buffer.{Buffer}
use gpu_moses.Cuda.Holds.{Holds}
use gpu_moses.Cuda.Order.{StrictWeakOrder}

pub ltb-order : StrictWeakOrder ltb
ltb-order = record {
  irrefl = λ a. ground arith;
  trans = λ a b c p q. ground arith;
  cotrans = λ a b c p q. ground arith;
}

-- A hypothesis in a test is a pair of its recombination class and its score.
abbrev pub better : ℕ × ℕ → ℕ × ℕ → Bool
better a b = ltb b.1 a.1

pub better-order : StrictWeakOrder better
better-order = record {
  irrefl = λ a. ground arith;
  trans = λ a b c p q. ground arith;
  cotrans = λ a b c p q. ground arith;
}

abbrev pub numbers : List ℕ
numbers = 2 ∷ 5 ∷ 9 ∷ []

abbrev pub number_buffer : Buffer ℕ
number_buffer = record { max_size = 4; cells = some 2 ∷ some 5 ∷ some 9 ∷ [] }

pub number_buffer-Holds : Holds number_buffer numbers
number_buffer-Holds = record { contents = refl; fits = omega arith }

abbrev pub full_buffer : Buffer ℕ
full_buffer = record { max_size = 3; cells = some 2 ∷ some 5 ∷ some 9 ∷ [] }

pub full_buffer-Holds : Holds full_buffer numbers
full_buffer-Holds = record { contents = refl; fits = omega arith }
