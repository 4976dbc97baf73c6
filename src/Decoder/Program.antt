-- ===== src/Decoder/Program.antt =====
-- The parts of the decoder as the program has them, for a configuration whose stateful features are of the
-- class Distortion.
use gpu_moses.Prelude.{
  ℕ, zero, suc, ◌+◌, ◌≤◌, ◌<◌, ◌≡◌, refl, sym, ap, ◌∙◌, Bool, Option, none, some, List, [], ◌∷◌,
  map, length, length-set, length-replicate, replicate, arith, All, set, get_elem?-some, lt→ltb,
}
use mathlib.Core.Path.{subst}
use gpu_moses.Outcome.{done, Returns, returns, Returns-bind, Returns-map}
use gpu_moses.Text.{Str}
use gpu_moses.Cuda.Buffer.{Buffer, size, write}
use gpu_moses.Cuda.Holds.{Holds, read-Holds, write-Holds}
use gpu_moses.Cuda.Order.{StrictWeakOrder}
use gpu_moses.Cuda.Sign.{is_minus, on-IsComparison, IsComparison-order}
use gpu_moses.Bitmap.Invariant.{IsLength, IsStorage, init-IsValid}
use gpu_moses.Node.{Node}
use gpu_moses.LanguageModel.{LmScores}
use gpu_moses.Scores.{Scores, plus_equal, plus_equal_feature}
use gpu_moses.Scores
use gpu_moses.Scores.Sums.{plus_equal-sums, sums}
use gpu_moses.Features.{Feature, distortion}
use gpu_moses.Hypothesis.{
  Hypothesis, extending, Fields, fields, recombination_orderer, init_first, init_extension,
}
use gpu_moses.Hypothesis.Recombine.{
  Key, key_sign, key_sign-IsComparison, HasKey, recombine_compare_key,
}
use gpu_moses.Applied.{evaluate_when_applied, apply_one, apply_distortion, apply_feature, set_state}
use gpu_moses.Process.{Parts}
use gpu_moses.Process.Laws.{IsParts}

-- The cells that were written.
abbrev pub written {ℓ} : {A : Type ℓ} → List (Option A) → List A
written [] = []
written (none ∷ cells) = written cells
written (some a ∷ cells) = a ∷ written cells

written-some {ℓ} : {A : Type ℓ} (xs : List A) → written (map some xs) ≡ xs
written-some [] = refl
written-some (x ∷ xs) = ap (◌∷◌ x) (written-some xs)

module _ {ℓ} {S : Type ℓ} where
  abbrev pub key_of : Hypothesis S → Key
  key_of h = (written (fields h).bitmap.bits.cells, written (fields h).state_data.cells)

  -- `HypothesisRecombinationOrderer`, on what was written.
  abbrev pub recombines : Hypothesis S → Hypothesis S → Bool
  recombines a b = is_minus (key_sign (key_of a) (key_of b))

  pub recombines-order : StrictWeakOrder recombines
  recombines-order = IsComparison-order (on-IsComparison key_of key_sign-IsComparison)

  HasKey-key_of : (h : Hypothesis S) (k : Key) → HasKey h k → key_of h ≡ k
  HasKey-key_of h k has = λ i. (
    (ap written has.covers.contents ∙ written-some k.0) i,
    (ap written has.state.contents ∙ written-some k.1) i,
  )

  -- On two hypotheses whose coverage and state are written, it is the source's comparison.
  pub recombination_orderer-recombines :
      (a b : Hypothesis S) (k l : Key)
      → HasKey a k
      → HasKey b l
      → recombination_orderer a b ≡ done (recombines a b)
  unfolding recombination_orderer
  recombination_orderer-recombines a b k l ha hb = rw (recombine_compare_key a b k l ha hb) (
      ap (λ (k : Key). done (is_minus (key_sign k l))) (sym (HasKey-key_of a k ha))
      ∙ ap (λ (l : Key). done (is_minus (key_sign (key_of a) l))) (sym (HasKey-key_of b l hb)))

-- `HypothesisFutureScoreOrderer`, where `greater` is `>` on scores.
abbrev pub future_score_orderer {ℓ} :
    {N : Type ℓ} → (N → N → Bool) → Hypothesis (Scores N) → Hypothesis (Scores N) → Bool
future_score_orderer greater a b = greater (fields a).scores.m_total (fields b).scores.m_total

module _ {ℓ} {N : Type ℓ} (null : N) (plus times : N → N → N) (greater : N → N → Bool)
    (weights : Buffer N) (of_distance : ℕ → N) (size_bytes : ℕ → List ℕ)
    (pointer_bytes : Option ℕ → List ℕ) (order eos : ℕ) (heap : List (Node (LmScores N)))
    (total : ℕ) (stateful_ffs : List (Feature Str)) (beam : ℕ) (f : Fields (Scores N)) where
  -- `f` is what the constructor of a hypothesis allocates, and `total` is `totalNumScores`.
  abbrev pub program_parts : Parts (Scores N) (Scores N)
  program_parts = record {
    add_phrase_scores = λ s other. plus_equal null plus times total other s;
    add_scores = λ s other. plus_equal null plus times total other s;
    evaluate_when_applied =
        evaluate_when_applied null plus times weights of_distance size_bytes pointer_bytes order eos
          heap stateful_ffs;
    recomb = recombines;
    better = future_score_orderer greater;
    stack_size = beam;
    allocated = record f { scores = Scores.new null plus times total };
  }

  -- All scores are there.
  abbrev pub IsScored : Scores N → Type ℓ
  IsScored s = (xs : List N) × Holds s.m_scores xs × (length xs ≡ total)

  -- All scores are there, and the state has its size.
  abbrev pub IsSound : Hypothesis (Scores N) → Type ℓ
  IsSound h = IsScored (fields h).scores × (size (fields h).state_data ≡ size f.state_data)

  -- A feature of the class Distortion with one score inside the scores, and a state inside the states.
  pub record IsDistortion (ff : Feature Str) : Type 0 where
    pub is_class : ff.class_id ≡ distortion
    pub one_score : ff.num_scores ≡ 1
    pub score_inside : ff.start_ind < total
    pub state_inside : (n : ℕ) → ff.state_offset + length (size_bytes n) ≤ size f.state_data

  module _ (ws : List N) (weights_hold : Holds weights ws) (weighted : length ws ≡ total) where
    set_state-size :
        (offset : ℕ) (src : List ℕ) (b : Buffer ℕ)
        → offset + length src ≤ size b
        → Returns (λ b'. size b' ≡ size b) (set_state offset src b)
    unfolding set_state write
    set_state-size offset [] b inside = returns refl
    set_state-size offset (byte ∷ src) b inside = rw (lt→ltb offset (size b) (omega arith)) (
        Returns-map
          (set_state-size (offset + 1) src (record b { cells = set b.cells offset (some byte) })
            (omega (arith, length-set b.cells offset (some byte))))
          λ b' same. same ∙ length-set b.cells offset (some byte))

    plus_equal_feature-IsScored :
        (ff : Feature Str) (value : N) (s : Scores N)
        → IsDistortion ff
        → IsScored s
        → Returns IsScored (
            plus_equal_feature null plus times weights
              (record { start_ind = ff.start_ind; num_scores = ff.num_scores })
              value
              s)
    unfolding plus_equal_feature
    plus_equal_feature-IsScored ff value s is (xs, h, sized) =
        let (old, at) = get_elem?-some xs ff.start_ind (omega (arith, is.score_inside)) in
        let (w, w_at) = get_elem?-some ws ff.start_ind (omega (arith, is.score_inside, weighted)) in
        rw (is.one_score, read-Holds h ff.start_ind old at)
          (Returns-bind
            (write-Holds h ff.start_ind (plus old value) (omega (arith, is.score_inside)))
            λ m (h', _). rw (read-Holds weights_hold ff.start_ind w w_at) (
              returns
                (set xs ff.start_ind (plus old value), h', length-set xs ff.start_ind _ ∙ sized)))

    -- The features keep what `IsSound` says, the coverage, the path, and the chain.
    abbrev KeptBy : Fields (Scores N) → Hypothesis (Scores N) → Hypothesis (Scores N) → Type ℓ
    KeptBy g prev h =
        (g' : Fields (Scores N)) × (h ≡ extending g' prev)
        × IsSound h
        × ((fields h).bitmap ≡ g.bitmap)
        × ((fields h).path ≡ g.path)

    apply_one-KeptBy :
        (ff : Feature Str) (g : Fields (Scores N)) (prev : Hypothesis (Scores N))
        → IsDistortion ff
        → IsSound (extending g prev)
        → Returns (KeptBy g prev) (
            apply_one null plus times weights of_distance size_bytes pointer_bytes order eos heap ff
              (extending g prev))
    unfolding apply_one apply_distortion apply_feature
    apply_one-KeptBy ff g prev is (scored, sized) = rw (is.is_class) (
        Returns-bind (plus_equal_feature-IsScored ff _ g.scores is scored) λ s scored'.
          Returns-bind
            (set_state-size ff.state_offset (size_bytes g.path.end_pos) g.state_data
              (omega (arith, is.state_inside g.path.end_pos, sized)))
            λ b same. returns (_, refl, (scored', same ∙ sized), refl, refl))

    evaluate_when_applied-KeptBy :
        (ffs : List (Feature Str)) (g : Fields (Scores N)) (prev : Hypothesis (Scores N))
        → All IsDistortion ffs
        → IsSound (extending g prev)
        → Returns (KeptBy g prev) (
            evaluate_when_applied null plus times weights of_distance size_bytes pointer_bytes order
              eos heap ffs
              (extending g prev))
    unfolding evaluate_when_applied
    evaluate_when_applied-KeptBy [] g prev is sound = returns (g, refl, sound, refl, refl)
    evaluate_when_applied-KeptBy (ff ∷ ffs) g prev is sound =
        Returns-bind (apply_one-KeptBy ff g prev is.0 sound) λ h (g', e, sound', bm, path). rw e (
          Returns-map (evaluate_when_applied-KeptBy ffs g' prev is.1 (subst IsSound e sound'))
            λ h' (g'', e', sound'', bm', path'). (
              g'',
              e',
              sound'',
              bm' ∙ ap (λ (h : Hypothesis (Scores N)). (fields h).bitmap) (sym e) ∙ bm,
              path' ∙ ap (λ (h : Hypothesis (Scores N)). (fields h).path) (sym e) ∙ path,
            ))

    plus_equal-IsScored :
        (other s : Scores N)
        → IsScored other
        → IsScored s
        → Returns IsScored (plus_equal null plus times total other s)
    plus_equal-IsScored other s (ys, ho, sized') (xs, hs, sized) =
        subst (λ t. Returns IsScored (plus_equal null plus times t other s)) sized
          (Returns-map (plus_equal-sums null plus times xs ys other s hs ho (sized' ∙ sym sized))
            λ r (h, _).
              (sums null plus times xs ys, h, length-sums xs ys (sized' ∙ sym sized) ∙ sized))
      where
        length-sums :
            (xs ys : List N)
            → length ys ≡ length xs
            → length (sums null plus times xs ys) ≡ length xs
        length-sums [] ys same = refl
        length-sums (x ∷ xs) [] same = refl
        length-sums (x ∷ xs) (y ∷ ys) same = ap suc (length-sums xs ys (omega (arith, same)))

    new-IsScored : IsScored (Scores.new null plus times total)
    unfolding Scores.new
    new-IsScored = (
      replicate total null,
      record { contents = some_replicate total; fits = omega (arith, length-replicate total null) },
      length-replicate total null,
    )
      where
        some_replicate : (n : ℕ) → replicate n (some null) ≡ map some (replicate n null)
        some_replicate zero = refl
        some_replicate (suc n) = ap (◌∷◌ (some null)) (some_replicate n)

    pub program_parts-IsParts :
        (n : ℕ)
        → StrictWeakOrder greater
        → 0 < beam
        → All IsDistortion stateful_ffs
        → IsLength n
        → IsStorage n f.bitmap.bits
        → IsParts program_parts IsSound IsScored n
    unfolding init_first init_extension
    program_parts-IsParts n total_order positive are len storage = record {
      recomb_order = recombines-order;
      better_order = record {
        irrefl = λ a. total_order.irrefl (fields a).scores.m_total;
        trans = λ a b c. total_order.trans _ _ _;
        cotrans = λ a b c. total_order.cotrans _ _ _;
      };
      positive = positive;
      first = λ init_phrase.
          Returns-bind (init-IsValid n f.bitmap.bits len storage)
            λ bm v. returns (new-IsScored, refl);
      extension = λ prev tp path bitmap sound fits e. rw e (
          Returns-bind (plus_equal-IsScored tp.tp_scores _ fits new-IsScored) λ s scored.
            Returns-bind (plus_equal-IsScored (fields prev).scores s sound.0 scored) λ s' scored'.
              Returns-map (evaluate_when_applied-KeptBy stateful_ffs _ prev are (scored', refl))
                λ h (g, _, sound', bm, at). (sound', bm, at));
      len = len;
      storage = storage;
    }
