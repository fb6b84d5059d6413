-- ===== src/Scoring/CrossPackage.antt =====
-- pkg/scoring/m_cross_package.go: CrossPackageMetric (M1).
pub mod Laws
use toposcope.Base.{
  ℕ, Bool, true, false, not, ◌||◌, ◌&&◌, List, [], ◌∷◌, ◌++◌, Option, none, some, Str, Dict, codes,
  lookup, before, trim_prefix, is_empty, str_eq, has_substring, add, if◌then◌else◌,
}
use toposcope.Base.Float.{Float}
use toposcope.Graph.{Node, Edge, Snapshot, Delta}
use toposcope.Scoring.{MetricResult, Severity, EvidenceType, severity_of, Metric}
use toposcope.Scoring.Tally.{Finding, Tally, run}

-- topLevelDir
unfoldable pub top_level_dir : Str → Str
unfolding before trim_prefix
top_level_dir pkg = before b'/' (trim_prefix pkg (codes "//"))

-- detectBoundaries: the loop over the nodes. The order of the result is that of the map `seen`.
unfoldable pub fill_boundaries : Dict Node → List Str → List Str
unfolding add is_empty top_level_dir
fill_boundaries [] seen = seen
fill_boundaries ((k, n) ∷ ns) seen =
    fill_boundaries ns (if is_empty n.pkg then seen else add (top_level_dir n.pkg) seen)

unfoldable pub detect_boundaries : Snapshot → List Str
unfolding fill_boundaries
detect_boundaries s = fill_boundaries s.nodes []

-- srcNode != nil && srcNode.IsTest, and the like
unfoldable pub is_test_node : Option Node → Bool
is_test_node none = false
is_test_node (some n) = n.is_test

unfoldable pub is_external_node : Option Node → Bool
is_external_node none = false
is_external_node (some n) = n.is_external

unfoldable pub is_proto_node : Option Node → Bool
unfolding has_substring
is_proto_node none = false
is_proto_node (some n) = has_substring n.kind (codes "proto")

-- srcPkg and tgtPkg: the package of a node, or the empty text
unfoldable pub package_of : Option Node → Str
package_of none = []
package_of (some n) = n.pkg

-- srcPkg == "" || tgtPkg == "" || srcPkg == tgtPkg
unfoldable pub same_package : Str → Str → Bool
unfolding is_empty str_eq
same_package src tgt = is_empty src || is_empty tgt || str_eq src tgt

pub record CrossPackageMetric (W : Type 0) : Type 0 where
  pub intra_boundary_weight : W
  pub cross_boundary_weight : W
  pub boundaries : List Str

unfoldable pub cross_package_key : Str
cross_package_key = codes "cross_package_deps"

unfoldable pub cross_package_name : Str
cross_package_name = codes "Cross-package dependencies"

unfoldable pub intra_summary : Edge → Str
intra_summary e = codes "Intra-boundary cross-package edge: " ++ (e.from ++ (codes " -> " ++ e.to))

unfoldable pub cross_summary : Edge → Str → Str → Str
cross_summary e src tgt =
    codes "Cross-boundary edge: "
    ++ (e.from
        ++ (codes " -> "
            ++ (e.to ++ (codes " (" ++ (src ++ (codes " -> " ++ (tgt ++ codes ")")))))))

module _ {W : Type 0} where
  unfoldable pub edge_finding : W → Edge → Str → Finding W
  edge_finding weight e summary = record {
    amount = weight;
    item = record {
      type = EvidenceType.edge_added;
      summary = summary;
      from = e.from;
      to = e.to;
      value = weight;
    };
  }

  -- The body of the loop over the added edges.
  unfoldable pub cross_package_edge : CrossPackageMetric W → Snapshot → Edge → Option (Finding W)
  unfolding lookup is_test_node is_external_node is_proto_node package_of same_package top_level_dir
      str_eq edge_finding intra_summary cross_summary
  cross_package_edge m head e =
      let src = lookup e.from head.nodes in
      let tgt = lookup e.to head.nodes in
      let src_boundary = top_level_dir (package_of src) in
      let tgt_boundary = top_level_dir (package_of tgt) in
      if is_test_node src
      then none
      else if is_external_node tgt
      then none
      else if is_proto_node tgt
      then none
      else if same_package (package_of src) (package_of tgt)
      then none
      else if str_eq src_boundary tgt_boundary
      then some (edge_finding m.intra_boundary_weight e (intra_summary e))
      else some (edge_finding m.cross_boundary_weight e (cross_summary e src_boundary tgt_boundary))

-- The boundaries of the metric, or those of the head where it has none.
unfoldable pub boundaries_or : List Str → Snapshot → List Str
unfolding detect_boundaries
boundaries_or [] head = detect_boundaries head
boundaries_or (b ∷ bs) head = b ∷ bs

module _ {W : Type 0} ⦃fl : Float W⦄ where
  -- CrossPackageMetric.Evaluate. The boundaries are detected and not read.
  unfoldable pub evaluate : CrossPackageMetric W → Delta → Snapshot → Snapshot → MetricResult W
  unfolding cross_package_edge run severity_of cross_package_key cross_package_name boundaries_or
  evaluate m delta base head =
      let boundaries = boundaries_or m.boundaries head in
      let t =
        run (cross_package_edge m head) delta.added_edges
          (record { contribution = fl.of_nat 0; evidence = [] }) in
      record {
        key = cross_package_key;
        name = cross_package_name;
        contribution = t.contribution;
        severity = severity_of Severity.info t.contribution;
        evidence = t.evidence;
      }

  abbrev pub metric : CrossPackageMetric W → Metric W
  metric m = record { key = cross_package_key; name = cross_package_name; evaluate = evaluate m }
