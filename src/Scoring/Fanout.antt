-- ===== src/Scoring/Fanout.antt =====
-- pkg/scoring/m_fanout.go: FanoutMetric (M2). The difference of two degrees is an int in the code;
-- here it is taken only where it is positive.
pub mod Laws
use toposcope.Base.{
  ℕ, ◌-◌, leb, Bool, ◌||◌, List, [], ◌++◌, Option, none, some, Str, Dict, codes, decimal, get_or,
  if◌then◌else◌,
}
use toposcope.Base.Float.{Float}
use toposcope.Graph.{Node, Snapshot, Delta}
use toposcope.Graph.Degrees.{compute_out_degrees}
use toposcope.Scoring.{MetricResult, Severity, EvidenceType, severity_of, Metric}
use toposcope.Scoring.Tally.{Finding, Tally, run}

pub record FanoutMetric (W : Type 0) : Type 0 where
  pub weight : W
  pub cap_per_node : W
  pub min_threshold : ℕ

unfoldable pub fanout_key : Str
fanout_key = codes "fanout_increase"

unfoldable pub fanout_name : Str
fanout_name = codes "Fanout increase"

unfoldable pub fanout_summary : Str → ℕ → ℕ → Str
unfolding decimal
fanout_summary key base head =
    key
    ++ (codes " fanout "
        ++ (decimal base
            ++ (codes " -> "
                ++ (decimal head ++ (codes " (+" ++ (decimal (head - base) ++ codes ")"))))))

module _ {W : Type 0} ⦃fl : Float W⦄ where
  -- The body of the loop over the nodes of the head.
  unfoldable pub fanout_node : FanoutMetric W → Dict ℕ → Dict ℕ → Str × Node → Option (Finding W)
  unfolding get_or fanout_summary
  fanout_node m base_out_deg head_out_deg (key, node) =
      let head_deg = get_or key head_out_deg 0 in
      let base_deg = get_or key base_out_deg 0 in
      if node.is_test || node.is_external
      then none
      else if leb head_deg m.min_threshold
      then none
      else if leb head_deg base_deg
      then none
      else some (record {
        amount = fl.times m.weight (fl.minimum (fl.of_nat (head_deg - base_deg)) m.cap_per_node);
        item = record {
          type = EvidenceType.fanout_change;
          summary = fanout_summary key base_deg head_deg;
          from = key;
          to = [];
          value = fl.of_nat head_deg;
        };
      })

  -- FanoutMetric.Evaluate
  unfoldable pub evaluate : FanoutMetric W → Delta → Snapshot → Snapshot → MetricResult W
  unfolding fanout_node run severity_of compute_out_degrees fanout_key fanout_name
  evaluate m delta base head =
      let t =
        run (fanout_node m (compute_out_degrees base) (compute_out_degrees head)) head.nodes
          (record { contribution = fl.of_nat 0; evidence = [] }) in
      record {
        key = fanout_key;
        name = fanout_name;
        contribution = t.contribution;
        severity = severity_of Severity.low t.contribution;
        evidence = t.evidence;
      }

  abbrev pub metric : FanoutMetric W → Metric W
  metric m = record { key = fanout_key; name = fanout_name; evaluate = evaluate m }
