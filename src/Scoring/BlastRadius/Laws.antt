-- ===== src/Scoring/BlastRadius/Laws.antt =====
-- pkg/scoring/m_blast_radius.go: the affected keys, the bounds of the contribution and the choice of
-- the evidence.
use toposcope.Base.{
  ℕ, ◌≤◌, ◌≡◌, ◌≢◌, refl, sym, ap, ap₂, ◌∙◌, subst, ◌↔◌, ◌⊎◌, inl, inr, List, [], ◌∷◌, arith, Str,
  Dict, In, In-append, In-map, In-take, add, contains_iff, contains-add, str_eq_iff, get_or, length,
  length-take, length-map, take, drop, take-append-drop, min, map, if◌then◌else◌, Bool-cases,
  List-cases,
}
use toposcope.Base.Float.{Float, IsOrdered, ◌≼◌, ◌≺◌}
use toposcope.Base.Sort.{SortSlice, Sorts, IsWeakOrder, sorted-take-drop}
use toposcope.Graph.{Node, Edge, Snapshot, Delta}
use toposcope.Graph.Degrees.{compute_in_degrees}
use toposcope.Graph.Degrees.Laws.{compute_in_degrees_lem}
use toposcope.Scoring.{EvidenceItem}
use toposcope.Scoring.BlastRadius.{
  BlastRadiusMetric, add_ends, add_keys, affected_keys, counts_as_test, node_degs, higher_degree,
  blast_item, sum_degrees, blast_contribution, evaluate,
}
use toposcope.Scoring.Centrality.Laws.{in_degree}

In-add : (k j : Str) (s : List Str) → In k (add j s) ↔ (In k s ⊎ (k ≡ j))
In-add k j s =
    ground (arith, contains_iff k (add j s), contains_iff k s, contains-add k j s, str_eq_iff j k)

-- One of the ends of the edge.
abbrev pub IsEnd : Str → Edge → Type 0
IsEnd k e = (k ≡ e.from) ⊎ (k ≡ e.to)

In-add_ends :
    (k : Str) (es : List Edge) (s : List Str)
    → In k (add_ends es s) ↔ (In k s ⊎ ((e : Edge) × In e es × IsEnd k e))
unfolding add_ends
In-add_ends k [] s = (inl, λ h. elim h [ inl p ↦ p | inr (e, i, q) ↦ elim i [ ] ])
In-add_ends k (e ∷ es) s =
    let rest = In-add_ends k es (add e.to (add e.from s)) in
    let second = In-add k e.to (add e.from s) in
    let first = In-add k e.from s in
    (
      λ h. elim (rest.0 h) [
        | inl p ↦ elim (second.0 p) [
          | inl q ↦ elim (first.0 q) [ inl r ↦ inl r | inr r ↦ inr (e, inl refl, inl r) ]
          | inr q ↦ inr (e, inl refl, inr q)
        ]
        | inr (d, i, q) ↦ inr (d, inr i, q)
      ],
      λ h. rest.1 (elim h [
        | inl p ↦ inl (second.1 (inl (first.1 (inl p))))
        | inr (d, i, q) ↦ elim i [
          | inl same ↦ elim q [
            | inl r ↦ inl (second.1 (inl (first.1 (inr (r ∙ ap (λ x. x.from) same)))))
            | inr r ↦ inl (second.1 (inr (r ∙ ap (λ x. x.to) same)))
          ]
          | inr j ↦ inr (d, j, q)
        ]
      ]),
    )

In-add_keys :
    (k : Str) (ns : List Node) (s : List Str)
    → In k (add_keys ns s) ↔ (In k s ⊎ ((n : Node) × In n ns × (k ≡ n.key)))
unfolding add_keys
In-add_keys k [] s = (inl, λ h. elim h [ inl p ↦ p | inr (e, i, q) ↦ elim i [ ] ])
In-add_keys k (n ∷ ns) s =
    let rest = In-add_keys k ns (add n.key s) in
    let first = In-add k n.key s in
    (
      λ h. elim (rest.0 h) [
        | inl p ↦ elim (first.0 p) [ inl q ↦ inl q | inr q ↦ inr (n, inl refl, q) ]
        | inr (d, i, q) ↦ inr (d, inr i, q)
      ],
      λ h. rest.1 (elim h [
        | inl p ↦ inl (first.1 (inl p))
        | inr (d, i, q) ↦ elim i [
          | inl same ↦ inl (first.1 (inr (q ∙ ap (λ x. x.key) same)))
          | inr j ↦ inr (d, j, q)
        ]
      ]),
    )

-- A key that the delta touches: an end of an added or removed edge, or an added or removed node.
abbrev pub IsTouched : Delta → Str → Type 0
IsTouched delta k =
    (((e : Edge) × In e delta.added_edges × IsEnd k e)
      ⊎ ((e : Edge) × In e delta.removed_edges × IsEnd k e))
    ⊎ (((n : Node) × In n delta.added_nodes × (k ≡ n.key))
        ⊎ ((n : Node) × In n delta.removed_nodes × (k ≡ n.key)))

-- The affected keys are those that the delta touches.
pub In-affected_keys : (delta : Delta) (k : Str) → In k (affected_keys delta) ↔ IsTouched delta k
unfolding affected_keys
In-affected_keys delta k =
    let ends = add_ends delta.added_edges [] in
    let ends' = add_ends delta.removed_edges ends in
    ground (
      arith,
      In-add_ends k delta.added_edges [],
      In-add_ends k delta.removed_edges ends,
      In-add_keys k delta.added_nodes ends',
      In-add_keys k delta.removed_nodes (add_keys delta.added_nodes ends'),
    )

higher_degree-IsWeakOrder : IsWeakOrder higher_degree
unfolding higher_degree
higher_degree-IsWeakOrder = record {
  asym = λ (j, m) (k, n) h. ground arith;
  co_trans = λ (i, l) (j, m) (k, n) h h'. ground arith;
}

In-node_degs :
    (base : Snapshot) (ks : List Str) (k : Str) (n : ℕ)
    → In (k, n) (node_degs (compute_in_degrees base) ks) ↔ (In k ks × (n ≡ in_degree base k))
unfolding node_degs
In-node_degs base ks k n =
    let both = In-map (λ j. (j, get_or j (compute_in_degrees base) 0)) (k, n) ks in
    (
      λ h.
          let (j, i, e) = both.0 h in
          let same : k ≡ j = ap (λ x. x.0) e in
          (
            subst (λ x. In x ks) (sym same) i,
            ap (λ x. x.1) e ∙ (compute_in_degrees_lem base j).0 ∙ ap (in_degree base) (sym same),
          ),
      λ (i, e). both.1 (k, i, ap (λ x. (k, x)) (e ∙ sym ((compute_in_degrees_lem base k).0))),
    )

module _ (sort : SortSlice) (laws : Sorts sort) where
  abbrev ranked : Delta → Snapshot → List (Str × ℕ)
  ranked delta base =
      sort (Str × ℕ) higher_degree (node_degs (compute_in_degrees base) (affected_keys delta))

  In-ranked :
      (delta : Delta) (base : Snapshot) (k : Str) (n : ℕ)
      → In (k, n) (ranked delta base) ↔ (IsTouched delta k × (n ≡ in_degree base k))
  In-ranked delta base k n =
      let entries = node_degs (compute_in_degrees base) (affected_keys delta) in
      ground (
        arith,
        laws.members (Str × ℕ) higher_degree entries (k, n),
        In-node_degs base (affected_keys delta) k n,
        In-affected_keys delta k,
      )

  length-ranked :
      (delta : Delta) (base : Snapshot) → length (ranked delta base) ≡ length (affected_keys delta)
  unfolding node_degs
  length-ranked delta base =
      laws.size (Str × ℕ) higher_degree (node_degs (compute_in_degrees base) (affected_keys delta))
      ∙ length-map (λ j. (j, get_or j (compute_in_degrees base) 0)) (affected_keys delta)

  split_ranked :
      (delta : Delta) (base : Snapshot) (x : Str × ℕ)
      → In x (ranked delta base)
      → In x (take 3 (ranked delta base)) ⊎ In x (drop 3 (ranked delta base))
  split_ranked delta base x h =
      let l = ranked delta base in
      (In-append x (take 3 l) (drop 3 l)).0 (subst (In x) (sym (take-append-drop 3 l)) h)

  -- A touched key behind the cut has no higher in-degree than one before it.
  ranked_order :
      (delta : Delta) (base : Snapshot) (k j : Str) (m n : ℕ)
      → In (k, m) (take 3 (ranked delta base))
      → In (j, n) (drop 3 (ranked delta base))
      → n ≤ m
  unfolding higher_degree
  ranked_order delta base k j m n h i =
      let entries = node_degs (compute_in_degrees base) (affected_keys delta) in
      let later =
        sorted-take-drop higher_degree 3 (ranked delta base) (k, m) (j, n)
          (laws.sorted (Str × ℕ) higher_degree entries higher_degree-IsWeakOrder) h i in
      ground arith

module _ {W : Type 0} ⦃fl : Float W⦄ (sort : SortSlice) (laws : Sorts sort) where
  abbrev top_items : Delta → Snapshot → List (EvidenceItem W)
  top_items delta base = map blast_item (take 3 (ranked sort laws delta base))

  no_items :
      (l : List (Str × ℕ))
      → length l ≡ 0
      → ◌≡◌ {A = List (EvidenceItem W)} [] (map blast_item (take 3 l))
  no_items [] h = refl
  no_items (x ∷ xs) h = absurd (omega arith)

  evidence-ranked :
      (m : BlastRadiusMetric W) (delta : Delta) (base head : Snapshot)
      → (evaluate sort m delta base head).evidence ≡ top_items delta base
  unfolding evaluate
  evidence-ranked m delta base head = elim (List-cases (affected_keys delta)) [
    | inl e ↦
        rw (e, evaluate)
          (no_items (sort (Str × ℕ) higher_degree []) (laws.size (Str × ℕ) higher_degree []))
    | inr (k, ks, e) ↦
        rw (e, evaluate)
          (ap
            (λ a.
              map blast_item
                (take 3 (sort (Str × ℕ) higher_degree (node_degs (compute_in_degrees base) a))))
            e)
  ]

  named :
      (delta : Delta) (base : Snapshot) (i : EvidenceItem W)
      → In i (top_items delta base)
      → IsTouched delta i.from
        × (i.value ≡ fl.of_nat (in_degree base i.from))
        × In (i.from, in_degree base i.from) (take 3 (ranked sort laws delta base))
  unfolding blast_item
  named delta base i h =
      let ((k, n), entry, e) = (In-map blast_item i (take 3 (ranked sort laws delta base))).0 h in
      let (touched, degree) =
        (In-ranked sort laws delta base k n).0
          (In-take (k, n) 3 (ranked sort laws delta base) entry) in
      let from : k ≡ i.from = sym (ap (λ x. x.from) e) in
      let count : n ≡ in_degree base i.from = degree ∙ ap (in_degree base) from in
      (
        subst (IsTouched delta) from touched,
        ap (λ x. x.value) e ∙ ap fl.of_nat count,
        subst (λ x. In x (take 3 (ranked sort laws delta base))) (ap₂ (λ x y. (x, y)) from count)
            entry,
      )

  is_named :
      (delta : Delta) (base : Snapshot) (k : Str) (n : ℕ)
      → In (k, n) (take 3 (ranked sort laws delta base))
      → (j : EvidenceItem W) × In j (top_items delta base) × (j.from ≡ k)
  unfolding blast_item
  is_named delta base k n h = (
    blast_item (k, n),
    (In-map blast_item (blast_item (k, n)) (take 3 (ranked sort laws delta base))).1
        ((k, n), h, refl),
    refl,
  )

  -- The evidence has at most three items, and as many as there are affected keys if those are fewer.
  -- Each names a key that the delta touches, with its in-degree in the base, and no touched key that
  -- is not named has a higher in-degree than a named one.
  pub blast_evidence :
      (m : BlastRadiusMetric W) (delta : Delta) (base head : Snapshot)
      → (length (evaluate sort m delta base head).evidence ≡ min 3 (length (affected_keys delta)))
        × ((i : EvidenceItem W)
            → In i (evaluate sort m delta base head).evidence
            → IsTouched delta i.from × (i.value ≡ fl.of_nat (in_degree base i.from)))
        × ((i : EvidenceItem W) (k : Str)
            → In i (evaluate sort m delta base head).evidence
            → IsTouched delta k
            → ((j : EvidenceItem W) → In j (evaluate sort m delta base head).evidence → j.from ≢ k)
            → in_degree base k ≤ in_degree base i.from)
  blast_evidence m delta base head = rw (evidence-ranked m delta base head) (
    length-map blast_item (take 3 (ranked sort laws delta base))
        ∙ length-take 3 (ranked sort laws delta base)
        ∙ ap (min 3) (length-ranked sort laws delta base),
    λ i h. let (touched, value, entry) = named delta base i h in (touched, value),
    λ i k h t unnamed.
        let (touched, value, entry) = named delta base i h in
        elim (split_ranked sort laws delta base (k, in_degree base k)
          ((In-ranked sort laws delta base k (in_degree base k)).1 (t, refl))) [
            | inl early ↦
                let (j, listed, same) = is_named delta base k (in_degree base k) early in
                absurd (unnamed j listed same)
            | inr late ↦ ranked_order sort laws delta base i.from k _ _ entry late
          ],
  )

module _ {W : Type 0} ⦃fl : Float W⦄ (o : IsOrdered W) where
  sum_degrees_nonneg :
      (degrees : Dict ℕ) (base head : Snapshot) (ks : List Str) (w : W)
      → fl.of_nat 0 ≼ w
      → fl.of_nat 0 ≺ fl.of_nat 1
      → fl.of_nat 0 ≼ sum_degrees degrees base head ks w
  unfolding sum_degrees
  sum_degrees_nonneg degrees base head [] w h one = h
  sum_degrees_nonneg degrees base head (k ∷ ks) w h one =
      sum_degrees_nonneg degrees base head ks _
        (o.plus_nonneg _ _ h (elim (Bool-cases (counts_as_test base head k)) [
          | inl t ↦ rw t (
              o.times_nonneg' _ _ (o.of_nat_mono 0 _ (omega arith)) (o.tenths_pos 3 (omega arith))
                (o.tenths-IsFinite 3))
          | inr t ↦
              rw t (o.times_nonneg' _ _ (o.of_nat_mono 0 _ (omega arith)) one (o.of_nat-IsFinite 1))
        ]))
        one

  -- With a positive finite weight and a cap that is not negative, and in an arithmetic where 0 < 1,
  -- the contribution lies between 0 and the cap.
  pub blast_bounds :
      (sort : SortSlice) (m : BlastRadiusMetric W) (delta : Delta) (base head : Snapshot)
      → fl.of_nat 0 ≺ fl.of_nat 1
      → fl.of_nat 0 ≺ m.weight
      → o.IsFinite m.weight
      → fl.of_nat 0 ≼ m.max_contribution
      → (fl.of_nat 0 ≼ (evaluate sort m delta base head).contribution)
        × ((evaluate sort m delta base head).contribution ≼ m.max_contribution)
  unfolding evaluate blast_contribution
  blast_bounds sort m delta base head one a b c = elim (List-cases (affected_keys delta)) [
    | inl e ↦ rw (e, evaluate) (o.of_nat_mono 0 0 (omega arith), c)
    | inr (k, ks, e) ↦ rw (e, evaluate) (capped (positive (affected_keys delta)))
  ]
    where
      amount : List Str → W
      amount ks = fl.times m.weight (
          fl.log2 (
            fl.plus (fl.of_nat 1)
              (sum_degrees (compute_in_degrees base) base head ks (fl.of_nat 0))))

      positive : (ks : List Str) → fl.of_nat 0 ≼ amount ks
      positive ks = o.times_nonneg _ _ a b (
          o.log2_nonneg _ (
            sum_degrees_nonneg (compute_in_degrees base) base head ks _
              (o.of_nat_mono 0 0 (omega arith)) one))

      capped :
          {x : W}
          → fl.of_nat 0 ≼ x
          → (fl.of_nat 0 ≼ (if fl.lt m.max_contribution x then m.max_contribution else x))
            × ((if fl.lt m.max_contribution x then m.max_contribution else x) ≼ m.max_contribution)
      capped {x} h = elim (Bool-cases (fl.lt m.max_contribution x)) [
        | inl over ↦ rw over (c, o.le_refl_right _ _ c)
        | inr under ↦ rw under (
          h,
          ground (
            arith,
            o.lt-eq-not-le m.max_contribution x (o.le_refl_right (fl.of_nat 0) _ c)
                (o.le_refl_right (fl.of_nat 0) x h),
          ),
        )
      ]
