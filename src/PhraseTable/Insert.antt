-- ===== src/PhraseTable/Insert.antt =====
-- A line of the phrase table adds its entry.
use gpu_moses.Prelude.{
  ℕ, ◌≡◌, ◌≢◌, refl, sym, ap, ◌∙◌, Option, none, some, List, [], ◌∷◌, ◌++◌, arith, length,
  length-set, get_elem?, get_elem?-some, get_elem?_lt, Bool-cases, Option-cases, inl, inr,
  none≢some, dec_lt, if◌then◌else◌,
}
use mathlib.Core.List.{append-nil}
use mathlib.Core.Option.{some-injective}
use mathlib.Core.Path.{subst}
use gpu_moses.Outcome.{Returns, returns, Returns-bind, Returns-map, Returns-both}
use gpu_moses.Text.{str_eq}
use gpu_moses.Text.Find.{str_eq_iff, str_eq_self}
use gpu_moses.Cuda.Buffer.{Buffer}
use gpu_moses.Cuda.Holds.{Holds}
use gpu_moses.Cuda.Insert.{host_push_back-Holds}
use gpu_moses.Node.{Node, add_or_create_node}
use gpu_moses.Node.Heap.{find, find-Extends}
use gpu_moses.Node.Find.{node_at-get}
use gpu_moses.Node.Grow.{Added}
use gpu_moses.Node.Add.{add_or_create_node-Added}
use gpu_moses.Node.Labels.{IsLabelled, find-label, find-injective, add_or_create_node-labels}
use gpu_moses.Node.Value.{valued, valued_cases, valued-IsHeap, find-valued, valued-IsLabelled}
use gpu_moses.PhraseTable.{Table, phrases_or_new, add_target}
use gpu_moses.PhraseTable.Spec.{targets, Held, IsTable}

module _ {ℓ} {P : Type ℓ} where
  -- The entry comes last.
  targets-snoc :
      (ws source : List ℕ) (tp : P) (entries : List (List ℕ × P))
      → targets ws (entries ++ (source, tp) ∷ [])
        ≡ targets ws entries ++ (if str_eq source ws then tp ∷ [] else [])
  targets-snoc ws source tp [] = refl
  targets-snoc ws source tp ((s, t) ∷ entries) = elim (Bool-cases (str_eq s ws)) [
    | inl hit ↦ rw hit (ap (◌∷◌ t) (targets-snoc ws source tp entries))
    | inr miss ↦ rw miss (targets-snoc ws source tp entries)
  ]

  Held-new :
      (value : Option (Buffer P)) (tps : List P) → Held value tps → Holds (phrases_or_new value) tps
  Held-new none tps h = rw h (record { contents = refl; fits = omega arith })
  Held-new (some b) tps h = h

  present_after :
      (entries : List (List ℕ × P)) (heap : Table P) (source : List ℕ) (p : ℕ) (heap' : Table P)
      (t : IsTable entries heap) (a : Added none heap 0 source (p, heap')) (labels' : List (List ℕ))
      → IsLabelled heap' labels'
      → ((q : ℕ) (l : List ℕ) → get_elem? t.labels q ≡ some l → get_elem? labels' q ≡ some l)
      → (ws : List ℕ) (q : ℕ) (node : Node (Option (Buffer P))) → find heap' 0 ws ≡ some q
      → get_elem? heap' q ≡ some node
      → Held node.value (targets ws entries)
  present_after entries heap source p heap' t a labels' is kept ws q node found at =
      elim (dec_lt q (length heap)) [
        | yes old ↦
            let (l, at_l) = get_elem?-some t.labels q (omega (arith, t.labelled.one_each)) in
            let path : l ≡ ws =
              some-injective l ws
                (sym (kept q l at_l) ∙ find-label heap' labels' 0 [] ws q is is.root found) in
            let (n, at_n) = get_elem?-some heap q old in
            let (n', at', value, _) = a.extends.keeps q n at_n in
            let same : n' ≡ node = some-injective n' node (sym at' ∙ at) in
            subst (λ (v : Option (Buffer P)). Held v (targets ws entries))
              (sym value ∙ ap (λ (m : Node (Option (Buffer P))). m.value) same)
              (t.present ws q n (rw (← path) (t.labelled.reached q l at_l)) at_n)
        | no more ↦
            subst (λ (v : Option (Buffer P)). Held v (targets ws entries))
              (sym (a.fresh q node (omega arith) at))
              (elim (Option-cases (find heap 0 ws)) [
                | inl missing ↦ t.absent ws missing
                | inr (q₀, before) ↦
                    let same : q₀ ≡ q =
                      some-injective q₀ q
                        (sym (find-Extends heap heap' 0 ws q₀ a.extends before) ∙ found) in
                    let there : get_elem? t.labels q₀ ≡ some ws =
                      find-label heap t.labels 0 [] ws q₀ t.labelled t.labelled.root before in
                    absurd (omega (arith, t.labelled.one_each, get_elem?_lt t.labels q₀ ws there))
              ])
      ]

  -- `AddOrCreateNode` adds no entry.
  pub grown-IsTable :
      (entries : List (List ℕ × P)) (heap : Table P) (source : List ℕ)
      → IsTable entries heap
      → Returns
          (λ r. IsTable entries r.1 × (find r.1 0 source ≡ some r.0))
          (add_or_create_node none source 0 heap)
  grown-IsTable entries heap source t =
      Returns-map
        (Returns-both (add_or_create_node-Added none heap 0 source t.well t.rooted)
          (add_or_create_node-labels none heap t.labels 0 source t.well t.labelled t.rooted))
        λ (p, heap') (a, (labels', is, kept)). (
          record {
            well = a.well;
            rooted = omega (arith, a.extends.longer, t.rooted);
            labels = labels';
            labelled = is;
            present = present_after entries heap source p heap' t a labels' is kept;
            absent = λ ws missing. elim (Option-cases (find heap 0 ws)) [
              | inl none_before ↦ t.absent ws none_before
              | inr (q, found) ↦
                  absurd
                    (none≢some q (sym missing ∙ find-Extends heap heap' 0 ws q a.extends found))
            ];
          },
          a.found,
        )

  targets_other :
      (ws source : List ℕ) (tp : P) (entries : List (List ℕ × P))
      → source ≢ ws
      → targets ws (entries ++ (source, tp) ∷ []) ≡ targets ws entries
  targets_other ws source tp entries differ =
      targets-snoc ws source tp entries ∙ elim (Bool-cases (str_eq source ws)) [
        | inl hit ↦ absurd (differ ((str_eq_iff source ws).0 hit))
        | inr miss ↦ rw miss (append-nil (targets ws entries))
      ]

  targets_self :
      (source : List ℕ) (tp : P) (entries : List (List ℕ × P))
      → targets source (entries ++ (source, tp) ∷ []) ≡ targets source entries ++ tp ∷ []
  targets_self source tp entries =
      targets-snoc source source tp entries ∙ rw (str_eq_self source) refl

  valued-IsTable :
      (entries : List (List ℕ × P)) (heap : Table P) (source : List ℕ) (tp : P) (p : ℕ)
      (node : Node (Option (Buffer P))) (at_p : get_elem? heap p ≡ some node)
      → IsTable entries heap
      → find heap 0 source ≡ some p
      → (tps : Buffer P) → Holds tps (targets source entries ++ tp ∷ [])
      → IsTable (entries ++ (source, tp) ∷ []) (valued heap p node at_p (some tps))
  valued-IsTable entries heap source tp p node at_p t found tps holds = record {
    well = valued-IsHeap heap p node at_p (some tps) t.well;
    rooted = omega (arith, t.rooted, length-set heap p (record node { value = some tps }));
    labels = t.labels;
    labelled = valued-IsLabelled heap p node at_p (some tps) t.labels t.labelled;
    present = λ ws q n found' at.
        let before : find heap 0 ws ≡ some q =
          sym (find-valued heap p node at_p (some tps) 0 ws) ∙ found' in
        elim (valued_cases heap p node at_p (some tps) q n at) [
          | inl (same, e) ↦
              let path : source ≡ ws =
                find-injective heap t.labels source ws q t.labelled (rw (← same) found) before in
              subst
                (λ (m : Node (Option (Buffer P))).
                  Held m.value (targets ws (entries ++ (source, tp) ∷ [])))
                e
                (subst (λ (ws : List ℕ). Holds tps (targets ws (entries ++ (source, tp) ∷ []))) path
                  (subst (Holds tps) (sym (targets_self source tp entries)) holds))
          | inr (differ, old) ↦
              rw
                (targets_other ws source tp entries
                  (λ e. differ (some-injective p q (sym found ∙ rw e before))))
                (t.present ws q n before old)
        ];
    absent = λ ws missing.
        let before : find heap 0 ws ≡ none =
          sym (find-valued heap p node at_p (some tps) 0 ws) ∙ missing in
        targets_other ws source tp entries (λ e. none≢some p (sym before ∙ rw (← e) found))
        ∙ t.absent ws before;
  }

  -- `Add` to the node of a source phrase puts the target phrase last.
  pub add_target-IsTable :
      (entries : List (List ℕ × P)) (heap : Table P) (source : List ℕ) (tp : P) (p : ℕ)
      → IsTable entries heap
      → find heap 0 source ≡ some p
      → Returns (IsTable (entries ++ (source, tp) ∷ [])) (add_target p tp heap)
  unfolding add_target
  add_target-IsTable entries heap source tp p t found =
      let there : get_elem? t.labels p ≡ some source =
        find-label heap t.labels 0 [] source p t.labelled t.labelled.root found in
      let (node, at_p) =
        get_elem?-some heap p
          (omega (arith, t.labelled.one_each, get_elem?_lt t.labels p source there)) in
      rw (node_at-get heap p node at_p) (
        Returns-bind
          (host_push_back-Holds tp (targets source entries) (phrases_or_new node.value)
            (Held-new node.value (targets source entries) (t.present source p node found at_p)))
          λ tps holds.
            returns (valued-IsTable entries heap source tp p node at_p t found tps holds))
