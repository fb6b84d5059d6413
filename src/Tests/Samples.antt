-- ===== src/Tests/Samples.antt =====
-- Small snapshots and deltas for the tests.
use toposcope.Base.{false, [], ◌∷◌, Str, codes}
use toposcope.Base.Int.{ℤ, pos, negsuc}
use toposcope.Graph.{Node, Edge, Snapshot, SnapshotStats, Delta}
use toposcope.Scoring.{MetricResult, EvidenceItem, EvidenceType, Severity}
use toposcope.Scoring.CrossPackage.{CrossPackageMetric}
use toposcope.Scoring.Fanout.{FanoutMetric}
use toposcope.Scoring.Centrality.{CentralityMetric}
use toposcope.Scoring.BlastRadius.{BlastRadiusMetric}
use toposcope.Scoring.Credits.{CreditsMetric}

abbrev pub app : Str
app = codes "//app/a:a"

abbrev pub lib : Str
lib = codes "//lib/b:b"

abbrev pub web : Str
web = codes "//web/c:c"

abbrev pub node : Str → Str → Node
node key pkg = record {
  key = key;
  kind = codes "go_library";
  pkg = pkg;
  tags = [];
  visibility = [];
  is_test = false;
  is_external = false;
}

abbrev pub edge : Str → Str → Edge
edge from to = record { from = from; to = to; type = codes "COMPILE" }

abbrev pub no_stats : SnapshotStats
no_stats = record { node_count = 0; edge_count = 0; package_count = 0; extraction_ms = 0 }

abbrev pub base : Snapshot
base = record {
  id = codes "base";
  commit_sha = codes "b1";
  branch = [];
  partial = false;
  scope = [];
  nodes = (app, node app (codes "//app/a")) ∷ (lib, node lib (codes "//lib/b")) ∷ [];
  edges = edge app lib ∷ [];
  stats = no_stats;
  extracted_at = 0;
}

-- The head adds //web/c, which depends on both, and drops the edge of the base.
abbrev pub head : Snapshot
head = record base {
  id = codes "head";
  commit_sha = codes "h1";
  nodes =
      (app, node app (codes "//app/a"))
      ∷ (lib, node lib (codes "//lib/b"))
      ∷ (web, node web (codes "//web/c"))
      ∷ [];
  edges = edge web app ∷ edge web lib ∷ [];
}

abbrev pub change : Delta
change = record {
  id = codes "d";
  base_snapshot_id = codes "base";
  head_snapshot_id = codes "head";
  impacted_targets = [];
  added_nodes = node web (codes "//web/c") ∷ [];
  removed_nodes = [];
  added_edges = edge web app ∷ edge web lib ∷ [];
  removed_edges = edge app lib ∷ [];
  stats = record {
    impacted_target_count = 0;
    added_node_count = 1;
    removed_node_count = 0;
    added_edge_count = 2;
    removed_edge_count = 1;
  };
}

abbrev pub cross_metric : CrossPackageMetric ℤ
cross_metric = record {
  intra_boundary_weight = pos 5;
  cross_boundary_weight = pos 15;
  boundaries = [];
}

abbrev pub fanout_metric : FanoutMetric ℤ
fanout_metric = record { weight = pos 5; cap_per_node = pos 100; min_threshold = 1 }

abbrev pub centrality_metric : CentralityMetric ℤ
centrality_metric = record { weight = pos 7; min_in_degree = 1; max_contribution = pos 400 }

abbrev pub blast_metric : BlastRadiusMetric ℤ
blast_metric = record { weight = pos 20; max_contribution = pos 150 }

abbrev pub credits_metric : CreditsMetric ℤ
credits_metric = record {
  per_removed_cross_boundary_edge = negsuc 4;
  max_credit_total = negsuc 149;
  per_fanout_reduction = negsuc 2;
  fanout_max_credit = negsuc 99;
}

abbrev pub evidence_item : EvidenceItem ℤ
evidence_item = record {
  type = EvidenceType.edge_added;
  summary = [];
  from = web;
  to = lib;
  value = pos 15;
}

abbrev pub result_of : Str → MetricResult ℤ
result_of key = record {
  key = key;
  name = [];
  contribution = pos 15;
  severity = Severity.medium;
  evidence = evidence_item ∷ [];
}
