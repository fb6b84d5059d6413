-- ===== src/Scoring/Credits/Laws.antt =====
-- pkg/scoring/m_credits.go: what earns a credit, and how much credit there can be.
use toposcope.Base.{
  ◌-◌, ◌<◌, ◌≡◌, ◌≢◌, refl, sym, ap, ◌∙◌, subst, ◌↔◌, ◌⊎◌, inl, inr, true, false, List, [], ◌∷◌,
  some, arith, Str, In, lookup, str_eq_iff, contains, contains-add, add, is_empty, Option-cases,
  Bool-cases,
}
use toposcope.Base.Float.{Float, IsOrdered, ◌≼◌}
use toposcope.Graph.{Node, Edge, Snapshot, Delta, edge_key}
use toposcope.Graph.Degrees.{compute_out_degrees}
use toposcope.Graph.Degrees.Laws.{compute_out_degrees_lem}
use toposcope.Scoring.{EvidenceItem, EvidenceType}
use toposcope.Scoring.CrossPackage.{top_level_dir, package_of, same_package}
use toposcope.Scoring.Fanout
use toposcope.Scoring.Fanout.{FanoutMetric}
use toposcope.Scoring.Fanout.Laws.{out_degree, fanout_evidence}
use toposcope.Scoring.Credits.{
  CreditsMetric, fill_edge_keys, credit_edge, credit_node, at_least, edge_credits, fanout_credits,
  evaluate,
}
use toposcope.Scoring.Tally.{Finding, Tally}
use toposcope.Scoring.Tally.Laws.{In-run, run_keeps}

-- The packages of the ends of the edge, in the base, lie in different top-level directories.
pub record CrossesBoundary (base : Snapshot) (e : Edge) : Type 0 where
  pub source : Node
  pub target : Node
  pub source_here : lookup e.from base.nodes ≡ some source
  pub target_here : lookup e.to base.nodes ≡ some target
  pub source_packaged : is_empty source.pkg ≡ false
  pub target_packaged : is_empty target.pkg ≡ false
  pub apart : top_level_dir source.pkg ≢ top_level_dir target.pkg

contains-fill_edge_keys :
    (k : Str) (es : List Edge) (ks : List Str)
    → (contains k (fill_edge_keys es ks) ≡ true)
      ↔ ((contains k ks ≡ true) ⊎ ((e : Edge) × In e es × (edge_key e ≡ k)))
unfolding fill_edge_keys
contains-fill_edge_keys k [] ks = (inl, λ h. elim h [ inl p ↦ p | inr (e, i, q) ↦ elim i [ ] ])
contains-fill_edge_keys k (e ∷ es) ks =
    let rest = contains-fill_edge_keys k es (add (edge_key e) ks) in
    (
      λ h. elim (rest.0 h) [
        | inl p ↦ elim (Bool-cases (contains k ks)) [
          | inl old ↦ inl old
          | inr new ↦ inr (
            e,
            inl refl,
            ground (arith, contains-add k (edge_key e) ks, str_eq_iff (edge_key e) k),
          )
        ]
        | inr (d, i, q) ↦ inr (d, inr i, q)
      ],
      λ h. rest.1 (elim h [
        | inl p ↦ inl (ground (arith, contains-add k (edge_key e) ks))
        | inr (d, i, q) ↦ elim i [
          | inl same ↦
              let here : edge_key e ≡ k = sym (ap edge_key same) ∙ q in
              inl (ground (arith, contains-add k (edge_key e) ks, str_eq_iff (edge_key e) k))
          | inr j ↦ inr (d, j, q)
        ]
      ]),
    )

module _ {W : Type 0} ⦃fl : Float W⦄ where
  edge_sound :
      (m : CreditsMetric W) (base : Snapshot) (ks : List Str) (e : Edge) (g : Finding W)
      → credit_edge m base ks e ≡ some g
      → (contains (edge_key e) ks ≡ true)
        × CrossesBoundary base e
        × (g.item.from ≡ e.from)
        × (g.item.to ≡ e.to)
        × (g.item.type ≡ EvidenceType.edge_removed)
        × (g.amount ≡ m.per_removed_cross_boundary_edge)
  unfolding credit_edge package_of same_package is_empty
  edge_sound m base ks e g h = elim (Option-cases (lookup e.from base.nodes)) [
    | inl p ↦ absurd (ground arith)
    | inr (src, p) ↦ elim (Option-cases (lookup e.to base.nodes)) [
      | inl q ↦ absurd (ground arith)
      | inr (tgt, q) ↦ (
        ground arith,
        record {
          source = src;
          target = tgt;
          source_here = p;
          target_here = q;
          source_packaged = ground arith;
          target_packaged = ground arith;
          apart =
              λ same. ground (arith, str_eq_iff (top_level_dir src.pkg) (top_level_dir tgt.pkg));
        },
        ground arith,
        ground arith,
        ground arith,
        ground arith,
      )
    ]
  ]

  node_sound :
      (m : CreditsMetric W) (base head : Snapshot) (k : Str) (n : Node) (g : Finding W)
      → credit_node m (compute_out_degrees base) (compute_out_degrees head) (k, n) ≡ some g
      → (out_degree head k < out_degree base k)
        × (g.item.from ≡ k)
        × (g.item.type ≡ EvidenceType.fanout_change)
        × (g.amount
            ≡ fl.times m.per_fanout_reduction (fl.of_nat (out_degree base k - out_degree head k)))
  unfolding credit_node
  node_sound m base head k n g =
      rw (compute_out_degrees_lem base k, compute_out_degrees_lem head k)
        (λ h. (ground arith, ground arith, ground arith, ground arith))

  -- Each piece of evidence is either for a removed edge that crosses top-level directories and whose
  -- key is that of an edge of the base, or for a node of the base that has fewer outgoing edges in
  -- the head.
  pub credits_evidence :
      (m : CreditsMetric W) (delta : Delta) (base head : Snapshot) (i : EvidenceItem W)
      → In i (evaluate m delta base head).evidence
      → ((e : Edge) × In e delta.removed_edges
          × CrossesBoundary base e
          × ((d : Edge) × In d base.edges × (edge_key d ≡ edge_key e))
          × (i.from ≡ e.from)
          × (i.to ≡ e.to)
          × (i.type ≡ EvidenceType.edge_removed))
        ⊎ ((k : Str) × (n : Node) × In (k, n) base.nodes
            × (out_degree head k < out_degree base k)
            × (i.from ≡ k)
            × (i.type ≡ EvidenceType.fanout_change))
  unfolding evaluate fanout_credits edge_credits contains
  credits_evidence m delta base head i h =
      let keys = fill_edge_keys base.edges [] in
      let nodes = credit_node m (compute_out_degrees base) (compute_out_degrees head) in
      let start : Tally W = record { contribution = fl.of_nat 0; evidence = [] } in
      elim ((In-run nodes i base.nodes (record {
        contribution = fl.of_nat 0;
        evidence = (edge_credits m delta base).evidence;
      })).0
        h) [
          | inr ((k, n), g, j, p, q) ↦
              let (less, from, type, amount) = node_sound m base head k n g p in
              inr (k, n, j, less, ap (λ x. x.from) q ∙ from, ap (λ x. x.type) q ∙ type)
          | inl early ↦
              elim ((In-run (credit_edge m base keys) i delta.removed_edges start).0 early) [
                | inl p ↦ elim p [ ]
                | inr (e, g, j, p, q) ↦
                    let (known, crosses, from, to, type, amount) = edge_sound m base keys e g p in
                    inl (
                      e,
                      j,
                      crosses,
                      elim ((contains-fill_edge_keys (edge_key e) base.edges []).0 known) [
                        | inl z ↦ absurd (cc)
                        | inr found ↦ found
                      ],
                      ap (λ x. x.from) q ∙ from,
                      ap (λ x. x.to) q ∙ to,
                      ap (λ x. x.type) q ∙ type,
                    )
              ]
        ]

  -- No node is charged for a growth of its fanout and credited for a reduction of it.
  pub fanout-credits_exclusive :
      (f : FanoutMetric W) (m : CreditsMetric W) (delta : Delta) (base head : Snapshot)
      (i j : EvidenceItem W)
      → In i (Fanout.evaluate f delta base head).evidence
      → In j (evaluate m delta base head).evidence
      → j.type ≡ EvidenceType.fanout_change
      → i.from ≢ j.from
  fanout-credits_exclusive f m delta base head i j h h' t same =
      let (k, n, grown, item) = (fanout_evidence f delta base head i).0 h in
      elim (credits_evidence m delta base head j h') [
        | inl (e, a, b, c, from, to, type) ↦ let z = sym t ∙ type in cc
        | inr (k', n', here, less, from, type) ↦
            let keys : k ≡ k' = sym (ap (λ x. x.from) item) ∙ same ∙ from in
            let more = grown.grown in
            let less' = subst (λ x. out_degree head x < out_degree base x) (sym keys) less in
            omega arith
      ]

  module _ (o : IsOrdered W) where
    at_least_bounds :
        (limit c : W)
        → limit ≼ fl.of_nat 0
        → c ≼ fl.of_nat 0
        → (limit ≼ at_least limit c) × (at_least limit c ≼ fl.of_nat 0)
    unfolding at_least
    at_least_bounds limit c a b = elim (Bool-cases (fl.lt c limit)) [
      | inl below ↦ rw below (o.le_refl_left _ _ a, a)
      | inr above ↦
          rw above (
            ground (arith, o.lt-eq-not-le c limit (o.le_refl_left _ _ b) (o.le_refl_left _ _ a)),
            b,
          )
    ]

    -- With weights and limits that are not positive and a finite price of a reduction, the
    -- contribution is a credit: it is not positive, and not below the sum of the two limits.
    pub credits_bounds :
        (m : CreditsMetric W) (delta : Delta) (base head : Snapshot)
        → m.per_removed_cross_boundary_edge ≼ fl.of_nat 0
        → m.per_fanout_reduction ≼ fl.of_nat 0
        → o.IsFinite m.per_fanout_reduction
        → m.max_credit_total ≼ fl.of_nat 0
        → m.fanout_max_credit ≼ fl.of_nat 0
        → (fl.plus m.max_credit_total m.fanout_max_credit
            ≼ (evaluate m delta base head).contribution)
          × ((evaluate m delta base head).contribution ≼ fl.of_nat 0)
    unfolding evaluate fanout_credits edge_credits
    credits_bounds m delta base head a b c d e =
        let zero_le = o.of_nat_mono 0 0 (omega arith) in
        let edges =
          run_keeps (credit_edge m base (fill_edge_keys base.edges [])) (λ w. w ≼ fl.of_nat 0)
            delta.removed_edges (record { contribution = fl.of_nat 0; evidence = [] }) zero_le
            (λ x g w j p h. o.plus_nonpos w g.amount h (
              subst (λ y. y ≼ fl.of_nat 0)
                (sym ((edge_sound m base (fill_edge_keys base.edges []) x g p).5)) a)) in
        let nodes =
          run_keeps (credit_node m (compute_out_degrees base) (compute_out_degrees head))
            (λ w. w ≼ fl.of_nat 0) base.nodes
            (record { contribution = fl.of_nat 0; evidence = (edge_credits m delta base).evidence })
            zero_le
            (λ (k, n) g w j p h. o.plus_nonpos w g.amount h (
              subst (λ y. y ≼ fl.of_nat 0) (sym ((node_sound m base head k n g p).3))
                (o.times_nonpos _ _ b c))) in
        at_least_bounds _ _ (o.plus_nonpos _ _ d e)
          (o.plus_nonpos _ _ (at_least_bounds _ _ d edges).1 (at_least_bounds _ _ e nodes).1)
