-- ===== src/Cuda/Holds.antt =====
-- The list that a buffer stands for, once all its cells are written.
use gpu_moses.Prelude.{
  ℕ, zero, suc, ◌≤◌, ◌<◌, ◌≡◌, refl, sym, ap, ◌∙◌, some, List, [], ◌∷◌, map, set, length,
  length-set, arith, lt→ltb, get_elem?, length-map, get_elem?-map,
}
use gpu_moses.Outcome.{done, Returns, returns}
use gpu_moses.Cuda.Buffer.{Buffer, size, read, write}

pub record Holds {ℓ} {A : Type ℓ} (b : Buffer A) (xs : List A) : Type ℓ where
  pub contents : b.cells ≡ map some xs
  pub fits : length xs ≤ b.max_size

map-set {ℓ κ} :
    {A : Type ℓ} {B : Type κ} (f : A → B) (xs : List A) (i : ℕ) (v : A)
    → map f (set xs i v) ≡ set (map f xs) i (f v)
map-set f [] i v = refl
map-set f (x ∷ xs) zero v = refl
map-set f (x ∷ xs) (suc i) v = ap (◌∷◌ (f x)) (map-set f xs i v)

module _ {ℓ} {A : Type ℓ} {b : Buffer A} {xs : List A} (h : Holds b xs) where
  pub size-Holds : size b ≡ length xs
  size-Holds = ap length h.contents ∙ length-map some xs

  pub read-Holds : (i : ℕ) (x : A) → get_elem? xs i ≡ some x → read b i ≡ done x
  unfolding read
  read-Holds i x e = rw (h.contents, get_elem?-map some xs i, e)

  pub write-Holds :
      (i : ℕ) (v : A)
      → i < length xs
      → Returns (λ b'. Holds b' (set xs i v) × (b'.max_size ≡ b.max_size)) (write b i v)
  unfolding write
  write-Holds i v inside = rw (lt→ltb i (size b) (omega (arith, size-Holds))) (
      returns {a = record b { cells = set b.cells i (some v) }} (
        record {
          contents = rw (h.contents) (sym (map-set some xs i v));
          fits = omega (arith, h.fits, length-set xs i v);
        },
        refl,
      ))
