-- ===== src/Cuda/Map.antt =====
-- CUDA/Map.h: a set of pairs that are compared by their keys. Keys are vocabulary ids, and values the
-- pointers of the nodes of a trie, whose default value is the null pointer.
pub mod Laws
use gpu_moses.Prelude.{ℕ, Bool, ltb}
use gpu_moses.Outcome.{Outcome, done, ◌>>=◌}
use gpu_moses.Cuda.Buffer.{Buffer, read}
use gpu_moses.Cuda.Search
use gpu_moses.Cuda.Set

module _ {ℓ} {V : Type ℓ} where
  -- `CompareMap`.
  abbrev pub key_lt : ℕ × V → ℕ × V → Bool
  key_lt a b = ltb a.0 b.0

  unfoldable pub get_value : Buffer (ℕ × V) → ℕ → Outcome V
  unfolding read
  get_value m ind = do pair ← read m ind; done pair.1

  unfoldable pub insert_host : ℕ → V → Buffer (ℕ × V) → Outcome (Buffer (ℕ × V))
  unfolding Set.insert_host
  insert_host key value m = Set.insert_host key_lt (key, value) m

  -- `default` is `Value()`.
  unfoldable pub upper_bound : V → ℕ → Buffer (ℕ × V) → Outcome (Bool × ℕ)
  unfolding Search.upper_bound
  upper_bound default sought m = Search.upper_bound key_lt (sought, default) m
