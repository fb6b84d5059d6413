-- ===== src/Scoring/Centrality/Laws.antt =====
-- pkg/scoring/m_centrality.go: which destinations CentralityMetric reports, and its cap.
use toposcope.Base.{
  ℕ, ◌+◌, ◌≤◌, ◌<◌, ◌≡◌, refl, sym, ap, ◌∙◌, subst, ◌↔◌, ◌⊎◌, inl, inr, Bool, true, false, not,
  ◌&&◌, List, [], ◌∷◌, some, arith, Str, Dict, keys, In, get_or, lookup, bump, count, str_eq,
  str_eq_iff, get_or-insert, In-keys, In-entry, ◌≢◌, has_key, has_key_iff, has_key-insert, NoDup,
  NoDup-keys-insert, Bool-cases, List-cases,
}
use toposcope.Base.Float.{Float, IsOrdered, ◌≼◌, ◌≺◌}
use toposcope.Graph.{Edge, Snapshot, Delta}
use toposcope.Graph.Degrees.{compute_in_degrees}
use toposcope.Graph.Degrees.Laws.{compute_in_degrees_lem}
use toposcope.Scoring.{EvidenceItem, EvidenceType}
use toposcope.Scoring.CrossPackage.{is_test_node}
use toposcope.Scoring.Centrality.{
  CentralityMetric, dest_map, centrality_summary, centrality_dest, cap_contribution, no_base,
  penalty, evaluate,
}
use toposcope.Scoring.Tally.{Finding}
use toposcope.Scoring.Tally.Laws.{In-run, run_keeps}

-- The added edge ends at the key and does not start at a test of the head.
abbrev pub counts_for : Snapshot → Str → Edge → Bool
counts_for head k e = str_eq e.to k && not (is_test_node (lookup e.from head.nodes))

abbrev pub in_degree : Snapshot → Str → ℕ
in_degree s k = count (λ e. str_eq e.to k) s.edges

get_or-dest_map :
    (head : Snapshot) (k : Str) (es : List Edge) (m : Dict ℕ)
    → get_or k (dest_map head es m) 0 ≡ get_or k m 0 + count (counts_for head k) es
unfolding dest_map bump
get_or-dest_map head k [] m = omega arith
get_or-dest_map head k (e ∷ es) m = elim (Bool-cases (is_test_node (lookup e.from head.nodes))) [
  | inl t ↦ rw (t, dest_map) (ground (arith, get_or-dest_map head k es m))
  | inr t ↦
      rw (t, dest_map)
        (ground (
          arith,
          get_or-dest_map head k es (bump e.to m),
          get_or-insert e.to k (get_or e.to m 0 + 1) 0 m,
          str_eq_iff e.to k,
        ))
]

NoDup-dest_map :
    (head : Snapshot) (es : List Edge) (m : Dict ℕ)
    → NoDup (keys m)
    → NoDup (keys (dest_map head es m))
unfolding dest_map bump
NoDup-dest_map head [] m d = d
NoDup-dest_map head (e ∷ es) m d = elim (Bool-cases (is_test_node (lookup e.from head.nodes))) [
  | inl t ↦ rw (t, dest_map) (NoDup-dest_map head es m d)
  | inr t ↦
      rw (t, dest_map)
        (NoDup-dest_map head es (bump e.to m) (NoDup-keys-insert e.to (get_or e.to m 0 + 1) m d))
]

has_key-dest_map :
    (head : Snapshot) (k : Str) (es : List Edge) (m : Dict ℕ)
    → (has_key k (dest_map head es m) ≡ true)
      ↔ ((has_key k m ≡ true) ⊎ (0 < count (counts_for head k) es))
unfolding dest_map bump
has_key-dest_map head k [] m = ground arith
has_key-dest_map head k (e ∷ es) m = elim (Bool-cases (is_test_node (lookup e.from head.nodes))) [
  | inl t ↦ rw (t, dest_map) (ground (arith, has_key-dest_map head k es m))
  | inr t ↦
      rw (t, dest_map)
        (ground (
          arith,
          has_key-dest_map head k es (bump e.to m),
          has_key-insert e.to k (get_or e.to m 0 + 1) m,
        ))
]

-- The destinations are the keys at which an added edge ends that does not start at a test.
dest_map-keys :
    (head : Snapshot) (k : Str) (es : List Edge)
    → In k (keys (dest_map head es [])) ↔ (0 < count (counts_for head k) es)
unfolding has_key
dest_map-keys head k es =
    ground (arith, has_key-dest_map head k es [], has_key_iff k (dest_map head es []))

-- The map of the destinations has each once, with the number of added edges that count for it.
pub dest_map_lem :
    (head : Snapshot) (es : List Edge) (k : Str)
    → NoDup (keys (dest_map head es []))
      × (get_or k (dest_map head es []) 0 ≡ count (counts_for head k) es)
unfolding get_or
dest_map_lem head es k = (NoDup-dest_map head es [] tt, omega (arith, get_or-dest_map head k es []))

module _ {W : Type 0} ⦃fl : Float W⦄ where
  finding_sound :
      (m : CentralityMetric W) (base : Snapshot) (dest : Str) (sources : ℕ) (g : Finding W)
      → centrality_dest m (compute_in_degrees base) (dest, sources) ≡ some g
      → (m.min_in_degree ≤ in_degree base dest)
        × (g.item.to ≡ dest)
        × (g.item.value ≡ fl.of_nat (in_degree base dest))
        × (g.amount
            ≡ fl.times m.weight (fl.log2 (fl.plus (fl.of_nat 1) (fl.of_nat (in_degree base dest)))))
  unfolding centrality_dest
  finding_sound m base dest sources g =
      rw ((compute_in_degrees_lem base dest).0)
        (λ h. (ground arith, ground arith, ground arith, ground arith))

  finding_complete :
      (m : CentralityMetric W) (base : Snapshot) (dest : Str) (sources : ℕ)
      → m.min_in_degree ≤ in_degree base dest
      → (g : Finding W) × (centrality_dest m (compute_in_degrees base) (dest, sources) ≡ some g)
  unfolding centrality_dest
  finding_complete m base dest sources h = rw ((compute_in_degrees_lem base dest).0) (
    record {
      amount =
          fl.times m.weight (fl.log2 (fl.plus (fl.of_nat 1) (fl.of_nat (in_degree base dest))));
      item = record {
        type = EvidenceType.centrality;
        summary = centrality_summary dest (in_degree base dest) sources;
        from = [];
        to = dest;
        value = fl.of_nat (in_degree base dest);
      };
    },
    ground arith,
  )

  penalty_nonneg :
      (o : IsOrdered W) (m : CentralityMetric W) (delta : Delta) (base head : Snapshot)
      → fl.of_nat 0 ≺ m.weight
      → o.IsFinite m.weight
      → fl.of_nat 0 ≼ (penalty m delta base head).contribution
  unfolding penalty
  penalty_nonneg o m delta base head a b =
      run_keeps (centrality_dest m (compute_in_degrees base)) (λ w. fl.of_nat 0 ≼ w)
        (dest_map head delta.added_edges []) (record { contribution = fl.of_nat 0; evidence = [] })
        (o.of_nat_mono 0 0 (omega arith))
        (λ (k, n) g w j p h.
          let found = finding_sound m base k n g p in
          o.plus_nonneg w g.amount h (
            subst (λ x. fl.of_nat 0 ≼ x) (sym found.3)
              (o.times_nonneg _ _ a b (o.log2_nonneg _ (o.of_nat_mono 0 _ (omega arith))))))

  cap_contribution_bounds :
      IsOrdered W
      → (limit c : W) → fl.of_nat 0 ≺ limit
      → fl.of_nat 0 ≼ limit
      → fl.of_nat 0 ≼ c
      → (fl.of_nat 0 ≼ cap_contribution limit c) × (cap_contribution limit c ≼ limit)
  unfolding cap_contribution
  cap_contribution_bounds o limit c pos nonneg h = elim (Bool-cases (fl.lt limit c)) [
    | inl over ↦ rw (pos, over) (nonneg, o.le_refl_right (fl.of_nat 0) limit nonneg)
    | inr under ↦ rw (pos, under) (h, within under)
  ]
    where
      within : fl.lt limit c ≡ false → c ≼ limit
      within u = ground (
        arith,
        o.lt-eq-not-le limit c (o.le_refl_right (fl.of_nat 0) limit nonneg)
            (o.le_refl_right (fl.of_nat 0) c h),
      )

  -- With a positive finite weight and a positive cap, the contribution lies between 0 and the cap.
  pub centrality_bounds :
      (o : IsOrdered W) (m : CentralityMetric W) (delta : Delta) (base head : Snapshot)
      → fl.of_nat 0 ≺ m.weight
      → o.IsFinite m.weight
      → fl.of_nat 0 ≺ m.max_contribution
      → fl.of_nat 0 ≼ m.max_contribution
      → (fl.of_nat 0 ≼ (evaluate m delta base head).contribution)
        × ((evaluate m delta base head).contribution ≼ m.max_contribution)
  unfolding evaluate no_base
  centrality_bounds o m delta base head a b c d = elim (List-cases base.nodes) [
    | inl e ↦ rw (e, evaluate) (o.of_nat_mono 0 0 (omega arith), d)
    | inr (n, ns, e) ↦
        rw (e, evaluate)
          (cap_contribution_bounds o m.max_contribution (penalty m delta base head).contribution c d
            (penalty_nonneg o m delta base head a b))
  ]

  -- Where the base has nodes, the evidence names a destination exactly if an added edge that does
  -- not start at a test ends there, and its in-degree in the base reaches the minimum.
  pub centrality_evidence :
      (m : CentralityMetric W) (delta : Delta) (base head : Snapshot) (k : Str)
      → base.nodes ≢ []
      → ((i : EvidenceItem W) × In i (evaluate m delta base head).evidence × (i.to ≡ k))
        ↔ ((0 < count (counts_for head k) delta.added_edges) × (m.min_in_degree ≤ in_degree base k))
  unfolding evaluate penalty
  centrality_evidence m delta base head k given = elim (List-cases base.nodes) [
    | inl e ↦ absurd (given e)
    | inr (n, ns, e) ↦
        rw (e, evaluate)
          (
            λ (i, h, q). elim ((both i).0 h) [
              | inl p ↦ elim p [ ]
              | inr ((d, c), g, j, p, r) ↦
                  let found = finding_sound m base d c g p in
                  let same : d ≡ k = sym found.1 ∙ ap (λ x. x.to) (sym r) ∙ q in
                  (
                    (dest_map-keys head k delta.added_edges).0
                        (subst (λ x. In x (keys dests)) same (In-keys d c dests j)),
                    subst (λ x. m.min_in_degree ≤ in_degree base x) same found.0,
                  )
            ],
            λ (j, h).
                let (c, entry) = In-entry k dests ((dest_map-keys head k delta.added_edges).1 j) in
                let (g, p) = finding_complete m base k c h in
                (
                  g.item,
                  (both g.item).1 (inr ((k, c), g, entry, p, refl)),
                  (finding_sound m base k c g p).1,
                ),
          )
  ]
    where
      dests : Dict ℕ
      dests = dest_map head delta.added_edges []

      both :
          (i : EvidenceItem W)
          → In i (penalty m delta base head).evidence ↔ (
              ⊥
              ⊎ ((x : Str × ℕ) × (g : Finding W) × In x dests
                  × (centrality_dest m (compute_in_degrees base) x ≡ some g)
                  × (i ≡ g.item)))
      both i =
          In-run (centrality_dest m (compute_in_degrees base)) i dests
            (record { contribution = fl.of_nat 0; evidence = [] })
