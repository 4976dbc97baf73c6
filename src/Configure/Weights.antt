-- ===== src/Configure/Weights.antt =====
-- `LoadWeights` writes the weights of every feature to its span, in any storage.
use gpu_moses.Prelude.{
  ℕ, ◌+◌, ◌≤◌, ◌<◌, ◌≡◌, ◌≢◌, refl, sym, ◌∙◌, ◌⊎◌, inl, inr, Option, some, List, [], ◌∷◌, map,
  arith, length, length-map, set, length-set, get_elem?, get_elem?_lt, get_elem?-map, none≢some,
  All, Ordered, Bool-cases, lt→ltb, ==_self,
}
use mathlib.Core.Option.{some-injective}
use mathlib.Core.Path.{subst}
use gpu_moses.Outcome.{done, Returns, returns, Returns-bind, Returns-map}
use gpu_moses.Text.{Str, str_eq}
use gpu_moses.Text.Find.{str_eq_iff}
use gpu_moses.Cuda.Buffer.{Buffer, size, read, write}
use gpu_moses.Features.{Feature, find_feature_function, weight_loop, set_weights}
use gpu_moses.Features.Layout.{IsPacked}
use gpu_moses.Features.Weights.{IsWritten, IsWritten-cons}
use gpu_moses.Configure.{names, load_weights}

abbrev pub FoundAs : List (Feature Str) → Str → Feature Str → Type 0
FoundAs ffs name ff = find_feature_function str_eq names name ffs ≡ some ff

All_found :
    (P : Feature Str → Type 0) (ffs : List (Feature Str)) (name : Str) (ff : Feature Str)
    → All P ffs
    → FoundAs ffs name ff
    → P ff
unfolding find_feature_function
All_found P [] name ff h e = absurd (none≢some ff e)
All_found P (f ∷ ffs) name ff h e = elim (Bool-cases (str_eq f.m_name name)) [
  | inl hit ↦ subst P (some-injective f ff (rw hit at e)) h.0
  | inr miss ↦ All_found P ffs name ff h.1 (rw miss at e)
]

-- Two names that differ are of features that share no score.
apart :
    (ffs : List (Feature Str)) (name name' : Str) (f g : Feature Str)
    → Ordered (λ (f g : Feature Str). f.start_ind + f.num_scores ≤ g.start_ind) ffs
    → name ≢ name'
    → FoundAs ffs name f
    → FoundAs ffs name' g
    → (f.start_ind + f.num_scores ≤ g.start_ind) ⊎ (g.start_ind + g.num_scores ≤ f.start_ind)
unfolding find_feature_function
apart [] name name' f g o differ ef eg = absurd (none≢some f ef)
apart (h ∷ ffs) name name' f g o differ ef eg = elim (Bool-cases (str_eq h.m_name name)) [
  | inl hit ↦ elim (Bool-cases (str_eq h.m_name name')) [
    | inl hit' ↦
        absurd
          (differ (sym ((str_eq_iff h.m_name name).0 hit) ∙ (str_eq_iff h.m_name name').0 hit'))
    | inr miss' ↦
        let is : h ≡ f = some-injective h f (rw hit at ef) in
        inl (
          rw (← is) (
            All_found (λ g. h.start_ind + h.num_scores ≤ g.start_ind) ffs name' g o.0
              (rw miss' at eg)))
  ]
  | inr miss ↦ elim (Bool-cases (str_eq h.m_name name')) [
    | inl hit' ↦
        let is : h ≡ g = some-injective h g (rw hit' at eg) in
        inr (
          rw (← is) (
            All_found (λ f. h.start_ind + h.num_scores ≤ f.start_ind) ffs name f o.0
              (rw miss at ef)))
    | inr miss' ↦ apart ffs name name' f g o.1 differ (rw miss at ef) (rw miss' at eg)
  ]
]

module _ {κ} {N : Type κ} where
  weight_loop-cells :
      (start i k : ℕ) (ws : List N) (b : Buffer N)
      → start + i ≡ k
      → k + length ws ≤ size b
      → Returns (λ b'. IsWritten k (map some ws) b.cells b'.cells) (weight_loop start i ws b)
  unfolding weight_loop write
  weight_loop-cells start i k [] b e fits = returns (record {
    same_length = refl;
    inside = λ j less. absurd (omega arith);
    outside = λ j out. refl;
  })
  weight_loop-cells start i k (w ∷ ws) b e fits =
      rw (e, lt→ltb k (size b) (omega arith))
        (Returns-map
          (weight_loop-cells start (i + 1) (k + 1) ws (record b { cells = set b.cells k (some w) })
            (omega arith) (omega (arith, length-set b.cells k (some w))))
          λ b' is. IsWritten-cons k (some w) (map some ws) b.cells b'.cells (omega arith) is)

  -- A feature that there is, and as many weights as it has scores.
  abbrev pub Fits : List (Feature Str) → Str × List N → Type 0
  Fits ffs (name, ws) = (ff : Feature Str) × FoundAs ffs name ff × (length ws ≡ ff.num_scores)

  -- The weights stand in the span of their feature.
  abbrev pub Stands : List (Feature Str) → Buffer N → Str × List N → Type κ
  Stands ffs b (name, ws) =
      (ff : Feature Str)
      → FoundAs ffs name ff
      → (j : ℕ) (w : N) → get_elem? ws j ≡ some w
      → read b (ff.start_ind + j) ≡ done w

  -- A cell that is no weight of these entries.
  abbrev pub Beside : List (Feature Str) → ℕ → Str × List N → Type 0
  Beside ffs k (name, ws) =
      (ff : Feature Str)
      → FoundAs ffs name ff
      → (k < ff.start_ind) ⊎ (ff.start_ind + ff.num_scores ≤ k)

  pub record Loaded (ffs : List (Feature Str)) (all : List (Str × List N)) (b b' : Buffer N)
      : Type κ where
    pub same_size : size b' ≡ size b
    pub stand : All (Stands ffs b') all
    pub beside : (k : ℕ) → All (Beside ffs k) all → get_elem? b'.cells k ≡ get_elem? b.cells k

  module _ (ffs : List (Feature Str)) (total : ℕ)
      (packed : IsPacked (λ (f : Feature Str). f.start_ind) (λ f. f.num_scores) ffs total) where
    read_written :
        (k : ℕ) (ws : List N) (cells : List (Option N)) (b : Buffer N) (j : ℕ) (w : N)
        → IsWritten k (map some ws) cells b.cells
        → get_elem? ws j ≡ some w
        → read b (k + j) ≡ done w
    unfolding read
    read_written k ws cells b j w is e =
        rw
          (
            is.inside j (omega (arith, get_elem?_lt ws j w e, length-map (λ (w : N). some w) ws)),
            get_elem?-map (λ (w : N). some w) ws j,
            e,
          )
          refl

    read_same :
        (b b' : Buffer N) (k : ℕ)
        → get_elem? b.cells k ≡ get_elem? b'.cells k
        → read b k ≡ read b' k
    unfolding read
    read_same b b' k e = rw e refl

    at_side :
        (k : ℕ) (ws : List N) {start count : ℕ}
        → (k < start) ⊎ (start + count ≤ k)
        → length ws ≡ count
        → (k < start) ⊎ (start + length (map (λ (w : N). some w) ws) ≤ k)
    at_side k ws (inl below) right = inl below
    at_side k ws (inr above) right = inr (omega (arith, right, length-map (λ (w : N). some w) ws))

    -- A cell of one feature is beside all others.
    other_cells :
        (name : Str) (ff : Feature Str)
        → FoundAs ffs name ff
        → (k : ℕ) → ff.start_ind ≤ k
        → k < ff.start_ind + ff.num_scores
        → (all : List (Str × List N)) → All (λ (b : Str × List N). name ≢ b.0) all
        → All (Beside ffs k) all
    other_cells name ff found k low high [] differ = tt
    other_cells name ff found k low high ((name', ws) ∷ all) differ = (
      (λ g found'. elim (apart ffs name name' ff g packed.0 differ.0 found found') [
        | inl before ↦ inl (omega arith)
        | inr after ↦ inr (omega arith)
      ]),
      other_cells name ff found k low high all differ.1,
    )

    set_weights-cells :
        (name : Str) (ws : List N) (b : Buffer N) (ff : Feature Str)
        → FoundAs ffs name ff
        → length ws ≡ ff.num_scores
        → ff.start_ind + ff.num_scores ≤ size b
        → Returns
            (λ b'. IsWritten ff.start_ind (map (λ (w : N). some w) ws) b.cells b'.cells)
            (set_weights str_eq names ffs name ws b)
    unfolding set_weights
    set_weights-cells name ws b ff found right room =
        rw (found, right, ==_self ff.num_scores)
          (weight_loop-cells ff.start_ind 0 ff.start_ind ws b (omega arith) (omega (arith, right)))

    -- The scores of the features lie one after the other, below a total. If `LoadWeights` is given a list of
    -- weights for some of the features, each once and with as many as the feature has scores, it ends without
    -- a fault on any storage for all scores. Afterwards the weights of each stand in its span, and no other
    -- cell has changed.
    pub load_weights-Loaded :
        (all : List (Str × List N)) (b : Buffer N)
        → All (Fits ffs) all
        → Ordered (λ (a b : Str × List N). a.0 ≢ b.0) all
        → total ≤ size b
        → Returns (Loaded ffs all b) (load_weights ffs all b)
    unfolding load_weights
    load_weights-Loaded [] b fits differ room =
        returns (record { same_size = refl; stand = tt; beside = λ k out. refl })
    load_weights-Loaded ((name, ws) ∷ all) b fits differ room =
        let (ff, found, right) = fits.0 in
        let inside : ff.start_ind + ff.num_scores ≤ total =
          All_found (λ f. f.start_ind + f.num_scores ≤ total) ffs name ff packed.1 found in
        Returns-bind (set_weights-cells name ws b ff found right (omega arith)) λ b₁ is.
          Returns-map (load_weights-Loaded all b₁ fits.1 differ.1 (omega (arith, is.same_length)))
            λ b₂ r. record {
              same_size = r.same_size ∙ is.same_length;
              stand = (
                (λ ff' found' j w at.
                    let same : ff ≡ ff' = some-injective ff ff' (sym found ∙ found') in
                    rw (← same) (
                      read_same b₂ b₁ (ff.start_ind + j) (
                        r.beside (ff.start_ind + j) (
                          other_cells name ff found (ff.start_ind + j) (omega arith)
                            (omega (arith, right, get_elem?_lt ws j w at)) all differ.0))
                      ∙ read_written ff.start_ind ws b.cells b₁ j w is at)),
                r.stand,
              );
              beside =
                  λ k out. r.beside k out.1 ∙ is.outside k (at_side k ws (out.0 ff found) right);
            }
