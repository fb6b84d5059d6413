-- ===== src/Scoring/Weights.antt =====
-- pkg/scoring/config.go: the default weights.
use toposcope.Base.{ℕ}
use toposcope.Base.Float.{Float}

pub record DefaultWeights (W : Type 0) : Type 0 where
  pub cross_package_intra_boundary : W
  pub cross_package_cross_boundary : W
  pub fanout_weight : W
  pub fanout_cap_per_node : W
  pub fanout_min_threshold : ℕ
  pub centrality_weight : W
  pub centrality_min_in_degree : ℕ
  pub centrality_max_contribution : W
  pub blast_radius_weight : W
  pub blast_radius_max_contribution : W
  pub credit_per_removed_cross_boundary_edge : W
  pub credit_max_total : W
  pub credit_per_fanout_reduction : W
  pub credit_fanout_max_total : W

unfoldable pub defaults : {W : Type 0} ⦃fl : Float W⦄ → DefaultWeights W
defaults ⦃fl⦄ = record {
  cross_package_intra_boundary = fl.tenths 5;
  cross_package_cross_boundary = fl.tenths 15;
  fanout_weight = fl.tenths 5;
  fanout_cap_per_node = fl.of_nat 10;
  fanout_min_threshold = 10;
  centrality_weight = fl.tenths 7;
  centrality_min_in_degree = 50;
  centrality_max_contribution = fl.of_nat 40;
  blast_radius_weight = fl.of_nat 2;
  blast_radius_max_contribution = fl.of_nat 15;
  credit_per_removed_cross_boundary_edge = fl.neg (fl.tenths 5);
  credit_max_total = fl.neg (fl.of_nat 15);
  credit_per_fanout_reduction = fl.neg (fl.tenths 3);
  credit_fanout_max_total = fl.neg (fl.of_nat 10);
}
