-- ===== src/Scoring/CrossPackage/Laws.antt =====
-- pkg/scoring/m_cross_package.go: which added edges CrossPackageMetric reports, and at what price.
use toposcope.Base.{
  ◌≡◌, ◌≢◌, refl, sym, subst, inl, inr, false, List, [], some, arith, Str, In, lookup, is_empty,
  str_eq, str_eq_iff, has_substring, codes, if◌then◌else◌, Option-cases, Bool-cases,
}
use toposcope.Base.Float.{Float, IsOrdered, ◌≼◌}
use toposcope.Graph.{Node, Edge, Snapshot, Delta}
use toposcope.Scoring.{EvidenceItem}
use toposcope.Scoring.CrossPackage.{
  top_level_dir, is_test_node, is_external_node, is_proto_node, package_of, same_package,
  CrossPackageMetric, edge_finding, cross_package_edge, evaluate, intra_summary, cross_summary,
}
use toposcope.Scoring.Tally.{Finding, Tally}
use toposcope.Scoring.Tally.Laws.{In-run, run_keeps}

-- The edge leads from one package of the head to another, does not start at a test, and does not
-- end at an external target or a proto rule.
pub record IsCrossing (head : Snapshot) (e : Edge) : Type 0 where
  pub source : Node
  pub target : Node
  pub source_here : lookup e.from head.nodes ≡ some source
  pub target_here : lookup e.to head.nodes ≡ some target
  pub source_plain : source.is_test ≡ false
  pub target_internal : target.is_external ≡ false
  pub target_plain : has_substring target.kind (codes "proto") ≡ false
  pub source_packaged : is_empty source.pkg ≡ false
  pub target_packaged : is_empty target.pkg ≡ false
  pub apart : source.pkg ≢ target.pkg

module _ {W : Type 0} where
  -- The price of such an edge: by whether the first components of the packages agree.
  abbrev pub price : CrossPackageMetric W → {head : Snapshot} {e : Edge} → IsCrossing head e → W
  price m c =
      if str_eq (top_level_dir c.source.pkg) (top_level_dir c.target.pkg)
      then m.intra_boundary_weight
      else m.cross_boundary_weight

  module _ (m : CrossPackageMetric W) (head : Snapshot) (e : Edge) where
    finding_sound :
        (g : Finding W)
        → cross_package_edge m head e ≡ some g
        → (c : IsCrossing head e) × (g.item.from ≡ e.from)
          × (g.item.to ≡ e.to)
          × (g.item.value ≡ price m c)
          × (g.amount ≡ price m c)
    unfolding cross_package_edge is_test_node is_external_node is_proto_node package_of same_package
        edge_finding is_empty
    finding_sound g h = elim (Option-cases (lookup e.from head.nodes)) [
      | inl p ↦ absurd (ground arith)
      | inr (src, p) ↦ elim (Option-cases (lookup e.to head.nodes)) [
        | inl q ↦ absurd (ground arith)
        | inr (tgt, q) ↦ (
          record {
            source = src;
            target = tgt;
            source_here = p;
            target_here = q;
            source_plain = ground arith;
            target_internal = ground arith;
            target_plain = ground arith;
            source_packaged = ground arith;
            target_packaged = ground arith;
            apart = λ same. ground (arith, str_eq_iff src.pkg tgt.pkg);
          },
          ground arith,
          ground arith,
          ground arith,
          ground arith,
        )
      ]
    ]

    finding_complete :
        (c : IsCrossing head e) → (g : Finding W) × (cross_package_edge m head e ≡ some g)
    unfolding cross_package_edge is_test_node is_external_node is_proto_node package_of same_package
        edge_finding
    finding_complete c = elim (Bool-cases (str_eq c.source.pkg c.target.pkg)) [
      | inl same ↦ absurd (c.apart ((str_eq_iff c.source.pkg c.target.pkg).0 same))
      | inr other ↦
          elim (Bool-cases (str_eq (top_level_dir c.source.pkg) (top_level_dir c.target.pkg))) [
            | inl t ↦ (edge_finding m.intra_boundary_weight e (intra_summary e), ground arith)
            | inr t ↦ (
              edge_finding m.cross_boundary_weight e
                  (cross_summary e (top_level_dir c.source.pkg) (top_level_dir c.target.pkg)),
              ground arith,
            )
          ]
    ]

module _ {W : Type 0} ⦃fl : Float W⦄ where
  -- Every piece of evidence is for an added edge that crosses packages, at the price of that edge,
  -- and every such added edge has a piece of evidence.
  pub evidence-evaluate :
      (m : CrossPackageMetric W) (delta : Delta) (base head : Snapshot)
      → ((i : EvidenceItem W)
          → In i (evaluate m delta base head).evidence
          → (e : Edge) × In e delta.added_edges
            × ((c : IsCrossing head e) × (i.from ≡ e.from) × (i.to ≡ e.to) × (i.value ≡ price m c)))
        × ((e : Edge)
            → In e delta.added_edges
            → IsCrossing head e
            → (i : EvidenceItem W) × In i (evaluate m delta base head).evidence
              × (i.from ≡ e.from)
              × (i.to ≡ e.to))
  unfolding evaluate
  evidence-evaluate m delta base head =
      let start : Tally W = record { contribution = fl.of_nat 0; evidence = [] } in
      let run_iff =
        λ (i : EvidenceItem W). In-run (cross_package_edge m head) i delta.added_edges start in
      (
        λ i h. elim ((run_iff i).0 h) [
          | inl p ↦ elim p [ ]
          | inr (e, g, j, p, q) ↦
              let (c, from, to, value, amount) = finding_sound m head e g p in
              (
                e,
                j,
                (
                  c,
                  subst (λ x. x.from ≡ e.from) (sym q) from,
                  subst (λ x. x.to ≡ e.to) (sym q) to,
                  subst (λ x. x.value ≡ price m c) (sym q) value,
                ),
              )
        ],
        λ e j c.
            let (g, p) = finding_complete m head e c in
            let (c', from, to, value, amount) = finding_sound m head e g p in
            (g.item, (run_iff g.item).1 (inr (e, g, j, p, refl)), from, to),
      )

  -- With weights that are not negative the contribution is not negative.
  pub contribution-evaluate_nonneg :
      IsOrdered W
      → (m : CrossPackageMetric W) (delta : Delta) (base head : Snapshot)
      → fl.of_nat 0 ≼ m.intra_boundary_weight
      → fl.of_nat 0 ≼ m.cross_boundary_weight
      → fl.of_nat 0 ≼ (evaluate m delta base head).contribution
  unfolding evaluate
  contribution-evaluate_nonneg o m delta base head a b =
      run_keeps (cross_package_edge m head) (λ w. fl.of_nat 0 ≼ w) delta.added_edges _
        (o.of_nat_mono 0 0 (omega arith))
        (λ e g w j p h.
          let (c, from, to, value, amount) = finding_sound m head e g p in
          o.plus_nonneg w g.amount h (subst (λ x. fl.of_nat 0 ≼ x) (sym amount) (price_nonneg c)))
    where
      price_nonneg : {e : Edge} (c : IsCrossing head e) → fl.of_nat 0 ≼ price m c
      price_nonneg c =
          elim (Bool-cases (str_eq (top_level_dir c.source.pkg) (top_level_dir c.target.pkg))) [
            | inl t ↦ rw t a
            | inr t ↦ rw t b
          ]

  -- The boundaries given to the metric have no influence on its result.
  pub evaluate-boundaries :
      (m : CrossPackageMetric W) (bs : List Str) (delta : Delta) (base head : Snapshot)
      → evaluate (record m { boundaries = bs }) delta base head ≡ evaluate m delta base head
  unfolding evaluate
  evaluate-boundaries m bs delta base head = refl
