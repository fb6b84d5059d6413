-- ===== src/Scoring.antt =====
-- pkg/scoring/types.go: what the metrics and the engine return, and the interface Metric of engine.go.
-- Numbers of type float64 are of a type W with the operations of `Float`.
pub mod Weights
pub mod Tally
pub mod CrossPackage
pub mod Fanout
pub mod Centrality
pub mod BlastRadius
pub mod Credits
pub mod Hotspots
pub mod Suggestions
pub mod Engine
use toposcope.Base.{ℕ, Bool, List, Option, Str, if◌then◌else◌}
use toposcope.Base.Float.{Float}
use toposcope.Graph.{Delta, Snapshot}

pub data Severity : Type 0 where
  high medium low info : Severity

pub data EvidenceType : Type 0 where
  edge_added edge_removed fanout_change centrality blast_radius : EvidenceType

pub record EvidenceItem (W : Type 0) : Type 0 where
  pub type : EvidenceType
  pub summary : Str
  pub from : Str
  pub to : Str
  pub value : W

pub record MetricResult (W : Type 0) : Type 0 where
  pub key : Str
  pub name : Str
  pub contribution : W
  pub severity : Severity
  pub evidence : List (EvidenceItem W)

pub record Hotspot (W : Type 0) : Type 0 where
  pub node_key : Str
  pub reason : Str
  pub score_contribution : W
  pub metric_keys : List Str

pub record SuggestedAction (W : Type 0) : Type 0 where
  pub title : Str
  pub description : Str
  pub targets : List Str
  pub confidence : W
  pub addresses : List Str

pub record DeltaStatsView : Type 0 where
  pub impacted_targets : ℕ
  pub added_nodes : ℕ
  pub removed_nodes : ℕ
  pub added_edges : ℕ
  pub removed_edges : ℕ

-- The letters that GradeFromScore returns.
pub data Grade : Type 0 where
  a b c d f : Grade

pub record ScoreResult (W : Type 0) : Type 0 where
  pub total_score : W
  pub grade : Grade
  pub breakdown : List (MetricResult W)
  pub hotspots : List (Hotspot W)
  pub suggested_actions : List (SuggestedAction W)
  pub delta_stats : DeltaStatsView
  pub base_commit : Str
  pub head_commit : Str

-- engine.go: Metric
pub record Metric (W : Type 0) : Type 0 where
  pub key : Str
  pub name : Str
  pub evaluate : Delta → Snapshot → Snapshot → MetricResult W

module _ {W : Type 0} ⦃fl : Float W⦄ where
  -- GradeFromScore
  unfoldable pub grade_from_score : W → Grade
  grade_from_score score =
      if fl.le score (fl.of_nat 3)
      then Grade.a
      else if fl.le score (fl.of_nat 7)
      then Grade.b
      else if fl.le score (fl.of_nat 14)
      then Grade.c
      else if fl.le score (fl.of_nat 24)
      then Grade.d
      else Grade.f

  -- The tests on the contribution at the end of a metric, over the severity that it began with.
  unfoldable pub severity_of : Severity → W → Severity
  severity_of initial contribution =
      if fl.lt (fl.of_nat 5) contribution
      then Severity.high
      else if fl.lt (fl.of_nat 0) contribution
      then Severity.medium
      else initial
