-- ===== src/Scoring/BlastRadius.antt =====
-- pkg/scoring/m_blast_radius.go: BlastRadiusMetric (M5).
pub mod Laws
use toposcope.Base.{
  ℕ, ltb, Bool, true, false, List, [], ◌∷◌, ◌++◌, Option, none, some, Str, Dict, codes, decimal,
  get_or, lookup, add, take, map, if◌then◌else◌,
}
use toposcope.Base.Float.{Float}
use toposcope.Base.Sort.{SortSlice}
use toposcope.Graph.{Node, Edge, Snapshot, Delta}
use toposcope.Graph.Degrees.{compute_in_degrees}
use toposcope.Scoring.{MetricResult, Severity, EvidenceType, EvidenceItem, severity_of, Metric}
use toposcope.Scoring.CrossPackage.{is_test_node}

pub record BlastRadiusMetric (W : Type 0) : Type 0 where
  pub weight : W
  pub max_contribution : W

unfoldable pub blast_radius_key : Str
blast_radius_key = codes "blast_radius"

unfoldable pub blast_radius_name : Str
blast_radius_name = codes "Blast radius"

-- The loops that fill `affected`.
unfoldable pub add_ends : List Edge → List Str → List Str
unfolding add
add_ends [] affected = affected
add_ends (e ∷ es) affected = add_ends es (add e.to (add e.from affected))

unfoldable pub add_keys : List Node → List Str → List Str
unfolding add
add_keys [] affected = affected
add_keys (n ∷ ns) affected = add_keys ns (add n.key affected)

unfoldable pub affected_keys : Delta → List Str
unfolding add_ends add_keys
affected_keys delta =
    add_keys delta.removed_nodes
      (add_keys delta.added_nodes (add_ends delta.removed_edges (add_ends delta.added_edges [])))

-- Whether the node counts at the rate of a test: by the base, or by the head if the base lacks it.
unfoldable pub counts_as_test : Snapshot → Snapshot → Str → Bool
unfolding lookup is_test_node
counts_as_test base head key = elim (lookup key base.nodes) [
  | some n ↦ n.is_test
  | none ↦ is_test_node (lookup key head.nodes)
]

unfoldable pub node_degs : Dict ℕ → List Str → List (Str × ℕ)
unfolding get_or
node_degs base_in_deg keys = map (λ k. (k, get_or k base_in_deg 0)) keys

-- nodeDegs[i].degree > nodeDegs[j].degree
unfoldable pub higher_degree : Str × ℕ → Str × ℕ → Bool
higher_degree (k, m) (j, n) = ltb n m

unfoldable pub blast_summary : Str → ℕ → Str
unfolding decimal
blast_summary key degree =
    codes "Affected node "
    ++ (key ++ (codes " has " ++ (decimal degree ++ codes " reverse deps in base")))

module _ {W : Type 0} ⦃fl : Float W⦄ where
  unfoldable pub blast_item : Str × ℕ → EvidenceItem W
  unfolding blast_summary
  blast_item (key, degree) = record {
    type = EvidenceType.blast_radius;
    summary = blast_summary key degree;
    from = key;
    to = [];
    value = fl.of_nat degree;
  }

  -- The loop that sums the weighted degrees.
  unfoldable pub sum_degrees : Dict ℕ → Snapshot → Snapshot → List Str → W → W
  unfolding get_or counts_as_test
  sum_degrees base_in_deg base head [] radius = radius
  sum_degrees base_in_deg base head (k ∷ ks) radius =
      let weight = if counts_as_test base head k then fl.tenths 3 else fl.of_nat 1 in
      sum_degrees base_in_deg base head ks
        (fl.plus radius (fl.times (fl.of_nat (get_or k base_in_deg 0)) weight))

  unfoldable pub blast_contribution : BlastRadiusMetric W → W → W
  blast_contribution m radius =
      let contribution = fl.times m.weight (fl.log2 (fl.plus (fl.of_nat 1) radius)) in
      if fl.lt m.max_contribution contribution then m.max_contribution else contribution

  module _ (sort : SortSlice) where
    -- BlastRadiusMetric.Evaluate
    unfoldable pub evaluate : BlastRadiusMetric W → Delta → Snapshot → Snapshot → MetricResult W
    unfolding affected_keys sum_degrees blast_contribution node_degs higher_degree blast_item
        compute_in_degrees severity_of blast_radius_key blast_radius_name
    evaluate m delta base head =
        let affected = affected_keys delta in
        let base_in_deg = compute_in_degrees base in
        let contribution =
          blast_contribution m (sum_degrees base_in_deg base head affected (fl.of_nat 0)) in
        let top = take 3 (sort (Str × ℕ) higher_degree (node_degs base_in_deg affected)) in
        elim affected [
          | [] ↦ record {
            key = blast_radius_key;
            name = blast_radius_name;
            contribution = fl.of_nat 0;
            severity = Severity.info;
            evidence = [];
          }
          | _ ∷ _ ↦ record {
            key = blast_radius_key;
            name = blast_radius_name;
            contribution = contribution;
            severity = severity_of Severity.low contribution;
            evidence = map blast_item top;
          }
        ]

    abbrev pub metric : BlastRadiusMetric W → Metric W
    metric m = record { key = blast_radius_key; name = blast_radius_name; evaluate = evaluate m }
