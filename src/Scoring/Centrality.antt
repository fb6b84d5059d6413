-- ===== src/Scoring/Centrality.antt =====
-- pkg/scoring/m_centrality.go: CentralityMetric (M3).
pub mod Laws
use toposcope.Base.{
  ℕ, ltb, Bool, ◌&&◌, List, [], ◌∷◌, ◌++◌, Option, none, some, Str, Dict, codes, decimal, get_or,
  lookup, bump, if◌then◌else◌,
}
use toposcope.Base.Float.{Float}
use toposcope.Graph.{Node, Edge, Snapshot, Delta}
use toposcope.Graph.Degrees.{compute_in_degrees}
use toposcope.Scoring.{MetricResult, Severity, EvidenceType, EvidenceItem, severity_of, Metric}
use toposcope.Scoring.CrossPackage.{is_test_node}
use toposcope.Scoring.Tally.{Finding, Tally, run}

pub record CentralityMetric (W : Type 0) : Type 0 where
  pub weight : W
  pub min_in_degree : ℕ
  pub max_contribution : W

unfoldable pub centrality_key : Str
centrality_key = codes "centrality_penalty"

unfoldable pub centrality_name : Str
centrality_name = codes "Centrality penalty"

-- The loop that fills `destMap`: how many added edges that do not start at a test end at each key.
unfoldable pub dest_map : Snapshot → List Edge → Dict ℕ → Dict ℕ
unfolding lookup is_test_node bump
dest_map head [] m = m
dest_map head (e ∷ es) m =
    dest_map head es (if is_test_node (lookup e.from head.nodes) then m else bump e.to m)

unfoldable pub centrality_summary : Str → ℕ → ℕ → Str
unfolding decimal
centrality_summary dest degree sources =
    let head = codes "New dep on " ++ (dest ++ (codes " (in-degree " ++ decimal degree)) in
    if ltb 1 sources
    then head ++ (codes " in base, " ++ (decimal sources ++ codes " sources)"))
    else head ++ codes " in base)"

unfoldable pub no_base_summary : Str
no_base_summary = codes "No base snapshot nodes available; skipping centrality penalty"

module _ {W : Type 0} ⦃fl : Float W⦄ where
  -- The body of the loop over `destMap`.
  unfoldable pub centrality_dest : CentralityMetric W → Dict ℕ → Str × ℕ → Option (Finding W)
  unfolding get_or centrality_summary
  centrality_dest m base_in_deg (dest, source_count) =
      let degree = get_or dest base_in_deg 0 in
      if ltb degree m.min_in_degree
      then none
      else some (record {
        amount = fl.times m.weight (fl.log2 (fl.plus (fl.of_nat 1) (fl.of_nat degree)));
        item = record {
          type = EvidenceType.centrality;
          summary = centrality_summary dest degree source_count;
          from = [];
          to = dest;
          value = fl.of_nat degree;
        };
      })

  -- m.MaxContribution > 0 && contribution > m.MaxContribution
  unfoldable pub cap_contribution : W → W → W
  cap_contribution limit contribution =
      if fl.lt (fl.of_nat 0) limit && fl.lt limit contribution then limit else contribution

  unfoldable pub no_base : MetricResult W
  unfolding centrality_key centrality_name no_base_summary
  no_base = record {
    key = centrality_key;
    name = centrality_name;
    contribution = fl.of_nat 0;
    severity = Severity.info;
    evidence =
        record {
          type = EvidenceType.centrality;
          summary = no_base_summary;
          from = [];
          to = [];
          value = fl.of_nat 0;
        }
        ∷ [];
  }

  unfoldable pub penalty : CentralityMetric W → Delta → Snapshot → Snapshot → Tally W
  unfolding centrality_dest run compute_in_degrees dest_map
  penalty m delta base head =
      run (centrality_dest m (compute_in_degrees base)) (dest_map head delta.added_edges [])
        (record { contribution = fl.of_nat 0; evidence = [] })

  -- CentralityMetric.Evaluate
  unfoldable pub evaluate : CentralityMetric W → Delta → Snapshot → Snapshot → MetricResult W
  unfolding penalty cap_contribution no_base severity_of centrality_key centrality_name
  evaluate m delta base head = elim base.nodes [
    | [] ↦ no_base
    | _ ∷ _ ↦
        let t = penalty m delta base head in
        let contribution = cap_contribution m.max_contribution t.contribution in
        record {
          key = centrality_key;
          name = centrality_name;
          contribution = contribution;
          severity = severity_of Severity.low contribution;
          evidence = t.evidence;
        }
  ]

  abbrev pub metric : CentralityMetric W → Metric W
  metric m = record { key = centrality_key; name = centrality_name; evaluate = evaluate m }
