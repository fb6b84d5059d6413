-- ===== src/Scoring/Engine.antt =====
-- pkg/scoring/engine.go: Engine.Score; pkg/scoring/defaults.go: DefaultMetrics.
pub mod Laws
use toposcope.Base.{ℕ, Bool, List, [], ◌∷◌, ◌++◌, Option, none, some, if◌then◌else◌}
use toposcope.Base.Float.{Float}
use toposcope.Base.Sort.{SortSlice}
use toposcope.Graph.{Delta, Snapshot}
use toposcope.Scoring.{MetricResult, DeltaStatsView, ScoreResult, Metric, grade_from_score}
use toposcope.Scoring.Weights.{defaults}
use toposcope.Scoring.CrossPackage
use toposcope.Scoring.Fanout
use toposcope.Scoring.Centrality
use toposcope.Scoring.BlastRadius
use toposcope.Scoring.Credits
use toposcope.Scoring.Hotspots.{compute_hotspots}
use toposcope.Scoring.Suggestions.{generate_suggestions}

-- The two errors of Score.
pub data ScoreError : Type 0 where
  delta_is_nil snapshots_required : ScoreError

pub data Result (A : Type 0) : Type 0 where
  ok : A → Result A
  err : ScoreError → Result A

unfoldable pub stats_view : Delta → DeltaStatsView
stats_view delta = record {
  impacted_targets = delta.stats.impacted_target_count;
  added_nodes = delta.stats.added_node_count;
  removed_nodes = delta.stats.removed_node_count;
  added_edges = delta.stats.added_edge_count;
  removed_edges = delta.stats.removed_edge_count;
}

module _ {W : Type 0} ⦃fl : Float W⦄ where
  -- The loop over the metrics: the breakdown and the total.
  unfoldable pub run_metrics :
      List (Metric W)
      → Delta
      → Snapshot
      → Snapshot
      → List (MetricResult W) × W
      → List (MetricResult W) × W
  run_metrics [] delta base head st = st
  run_metrics (m ∷ ms) delta base head (breakdown, total) =
      let mr = m.evaluate delta base head in
      run_metrics ms delta base head (breakdown ++ mr ∷ [], fl.plus total mr.contribution)

  unfoldable pub clamp_score : W → W
  clamp_score total = if fl.lt total (fl.of_nat 0) then fl.of_nat 0 else total

  unfoldable pub score_all :
      SortSlice → List (Metric W) → Delta → Snapshot → Snapshot → ScoreResult W
  unfolding run_metrics clamp_score grade_from_score compute_hotspots generate_suggestions
      stats_view
  score_all sort metrics delta base head =
      let st = run_metrics metrics delta base head ([], fl.of_nat 0) in
      let total = clamp_score st.1 in
      record {
        total_score = total;
        grade = grade_from_score total;
        breakdown = st.0;
        hotspots = compute_hotspots sort st.0;
        suggested_actions = generate_suggestions st.0;
        delta_stats = stats_view delta;
        base_commit = base.commit_sha;
        head_commit = head.commit_sha;
      }

  -- Engine.Score; a nil pointer is `none`.
  unfoldable pub score :
      SortSlice
      → List (Metric W)
      → Option Delta
      → Option Snapshot
      → Option Snapshot
      → Result (ScoreResult W)
  unfolding score_all
  score sort metrics none base head = err delta_is_nil
  score sort metrics (some delta) none head = err snapshots_required
  score sort metrics (some delta) (some base) none = err snapshots_required
  score sort metrics (some delta) (some base) (some head) =
      ok (score_all sort metrics delta base head)

  -- DefaultMetrics
  unfoldable pub default_metrics : SortSlice → List (Metric W)
  unfolding defaults
  default_metrics sort =
      let w = defaults in
      CrossPackage.metric (record {
        intra_boundary_weight = w.cross_package_intra_boundary;
        cross_boundary_weight = w.cross_package_cross_boundary;
        boundaries = [];
      })
      ∷ Fanout.metric (record {
        weight = w.fanout_weight;
        cap_per_node = w.fanout_cap_per_node;
        min_threshold = w.fanout_min_threshold;
      })
      ∷ Centrality.metric (record {
        weight = w.centrality_weight;
        min_in_degree = w.centrality_min_in_degree;
        max_contribution = w.centrality_max_contribution;
      })
      ∷ BlastRadius.metric sort (record {
        weight = w.blast_radius_weight;
        max_contribution = w.blast_radius_max_contribution;
      })
      ∷ Credits.metric (record {
        per_removed_cross_boundary_edge = w.credit_per_removed_cross_boundary_edge;
        max_credit_total = w.credit_max_total;
        per_fanout_reduction = w.credit_per_fanout_reduction;
        fanout_max_credit = w.credit_fanout_max_total;
      })
      ∷ []
