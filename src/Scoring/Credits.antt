-- ===== src/Scoring/Credits.antt =====
-- pkg/scoring/m_credits.go: CreditsMetric (M6).
pub mod Laws
use toposcope.Base.{
  ℕ, ◌-◌, leb, Bool, not, List, [], ◌∷◌, ◌++◌, Option, none, some, Str, Dict, codes, decimal,
  get_or, lookup, contains, add, str_eq, if◌then◌else◌,
}
use toposcope.Base.Float.{Float}
use toposcope.Graph.{Node, Edge, Snapshot, Delta, edge_key}
use toposcope.Graph.Degrees.{compute_out_degrees}
use toposcope.Scoring.{MetricResult, Severity, EvidenceType, Metric}
use toposcope.Scoring.CrossPackage.{package_of, same_package, top_level_dir}
use toposcope.Scoring.Tally.{Finding, Tally, run}

pub record CreditsMetric (W : Type 0) : Type 0 where
  pub per_removed_cross_boundary_edge : W
  pub max_credit_total : W
  pub per_fanout_reduction : W
  pub fanout_max_credit : W

unfoldable pub credits_key : Str
credits_key = codes "cleanup_credits"

unfoldable pub credits_name : Str
credits_name = codes "Cleanup credits"

-- The loop that fills `baseEdgeSet`.
unfoldable pub fill_edge_keys : List Edge → List Str → List Str
unfolding add edge_key
fill_edge_keys [] keys = keys
fill_edge_keys (e ∷ es) keys = fill_edge_keys es (add (edge_key e) keys)

unfoldable pub removed_summary : Edge → Str
removed_summary e = codes "Removed cross-boundary edge: " ++ (e.from ++ (codes " -> " ++ e.to))

unfoldable pub reduced_summary : Str → ℕ → ℕ → Str
unfolding decimal
reduced_summary key base head =
    codes "Fanout reduced: "
    ++ (key
        ++ (codes " "
            ++ (decimal base
                ++ (codes " -> "
                    ++ (decimal head ++ (codes " (-" ++ (decimal (base - head) ++ codes ")")))))))

module _ {W : Type 0} ⦃fl : Float W⦄ where
  -- The body of the loop over the removed edges.
  unfoldable pub credit_edge : CreditsMetric W → Snapshot → List Str → Edge → Option (Finding W)
  unfolding contains edge_key lookup package_of same_package top_level_dir str_eq removed_summary
  credit_edge m base base_edge_set e =
      let src_pkg = package_of (lookup e.from base.nodes) in
      let tgt_pkg = package_of (lookup e.to base.nodes) in
      if not (contains (edge_key e) base_edge_set)
      then none
      else if same_package src_pkg tgt_pkg
      then none
      else if str_eq (top_level_dir src_pkg) (top_level_dir tgt_pkg)
      then none
      else some (record {
        amount = m.per_removed_cross_boundary_edge;
        item = record {
          type = EvidenceType.edge_removed;
          summary = removed_summary e;
          from = e.from;
          to = e.to;
          value = m.per_removed_cross_boundary_edge;
        };
      })

  -- The body of the loop over the nodes of the base.
  unfoldable pub credit_node : CreditsMetric W → Dict ℕ → Dict ℕ → Str × Node → Option (Finding W)
  unfolding get_or reduced_summary
  credit_node m base_out_deg head_out_deg (key, node) =
      let base_deg = get_or key base_out_deg 0 in
      let head_deg = get_or key head_out_deg 0 in
      if leb base_deg head_deg
      then none
      else some (record {
        amount = fl.times m.per_fanout_reduction (fl.of_nat (base_deg - head_deg));
        item = record {
          type = EvidenceType.fanout_change;
          summary = reduced_summary key base_deg head_deg;
          from = key;
          to = [];
          value = fl.neg (fl.of_nat (base_deg - head_deg));
        };
      })

  -- if credit < limit { credit = limit }
  unfoldable pub at_least : W → W → W
  at_least limit credit = if fl.lt credit limit then limit else credit

  -- The two loops; the second goes on with the evidence of the first and a sum of its own.
  unfoldable pub edge_credits : CreditsMetric W → Delta → Snapshot → Tally W
  unfolding credit_edge run fill_edge_keys
  edge_credits m delta base =
      run (credit_edge m base (fill_edge_keys base.edges [])) delta.removed_edges
        (record { contribution = fl.of_nat 0; evidence = [] })

  unfoldable pub fanout_credits : CreditsMetric W → Delta → Snapshot → Snapshot → Tally W
  unfolding credit_node run edge_credits compute_out_degrees
  fanout_credits m delta base head =
      run (credit_node m (compute_out_degrees base) (compute_out_degrees head)) base.nodes
        (record { contribution = fl.of_nat 0; evidence = (edge_credits m delta base).evidence })

  -- CreditsMetric.Evaluate
  unfoldable pub evaluate : CreditsMetric W → Delta → Snapshot → Snapshot → MetricResult W
  unfolding edge_credits fanout_credits at_least credits_key credits_name
  evaluate m delta base head =
      let edge_credit = at_least m.max_credit_total (edge_credits m delta base).contribution in
      let t = fanout_credits m delta base head in
      let fanout_credit = at_least m.fanout_max_credit t.contribution in
      let min_credit = fl.plus m.max_credit_total m.fanout_max_credit in
      record {
        key = credits_key;
        name = credits_name;
        contribution = at_least min_credit (fl.plus edge_credit fanout_credit);
        severity = Severity.info;
        evidence = t.evidence;
      }

  abbrev pub metric : CreditsMetric W → Metric W
  metric m = record { key = credits_key; name = credits_name; evaluate = evaluate m }
