-- ===== src/Ingestion/Store.antt =====
-- internal/ingestion/service.go: the methods that write blobs and rows, and ensureBaseline.
use toposcope.Base.{Str, inl, ◌++◌, [], codes, length}
use toposcope.Graph.{Snapshot, Delta}
use toposcope.Graph.Diff.{absent, edge_map}
use toposcope.Scoring.{ScoreResult}
use toposcope.Ingestion.{
  IngestionRequest, SnapshotRow, BaselineQuery, Backend, IngestError, M, ◌>>=◌, ◌>>◌, done, or_fail,
  expect, call, exec, nil_if_empty,
}

-- Sprintf("snapshots/%s/%s.json", …) and Sprintf("deltas/%s/%s.json", …)
unfoldable pub snapshot_ref : Str → Str → Str
snapshot_ref tenant_id id =
    codes "snapshots/" ++ (tenant_id ++ (codes "/" ++ (id ++ codes ".json")))

unfoldable pub delta_ref : Str → Str → Str
delta_ref tenant_id id = codes "deltas/" ++ (tenant_id ++ (codes "/" ++ (id ++ codes ".json")))

-- The copy of ComputeDelta, which sets no identifiers.
unfoldable pub compute_changes : Snapshot → Snapshot → Delta
unfolding absent edge_map
compute_changes base head =
    let base_edges = edge_map base.edges in
    let head_edges = edge_map head.edges in
    let added_nodes = absent head.nodes base.nodes in
    let removed_nodes = absent base.nodes head.nodes in
    let added_edges = absent head_edges base_edges in
    let removed_edges = absent base_edges head_edges in
    record {
      id = [];
      base_snapshot_id = [];
      head_snapshot_id = [];
      impacted_targets = [];
      added_nodes = added_nodes;
      removed_nodes = removed_nodes;
      added_edges = added_edges;
      removed_edges = removed_edges;
      stats = record {
        impacted_target_count = 0;
        added_node_count = length added_nodes;
        removed_node_count = length removed_nodes;
        added_edge_count = length added_edges;
        removed_edge_count = length removed_edges;
      };
    }

module _ {D W : Type 0} (b : Backend D W) where
  unfoldable pub snapshot_row : IngestionRequest → Snapshot → SnapshotRow
  unfolding nil_if_empty snapshot_ref
  snapshot_row req snap = record {
    tenant_id = req.tenant_id;
    repo_id = req.repo_id;
    commit_sha = snap.commit_sha;
    branch = nil_if_empty snap.branch;
    stats = snap.stats;
    storage_ref = snapshot_ref req.tenant_id snap.id;
    created_at = req.committed_at;
  }

  unfoldable pub store_snapshot : IngestionRequest → Snapshot → Str → M D Str
  unfolding snapshot_row
  store_snapshot req snap bytes = do
    exec IngestError.put_blob (b.put_snapshot req.tenant_id snap.id bytes)
    call IngestError.insert_row (b.insert_snapshot (snapshot_row req snap))

  unfoldable pub store_delta : IngestionRequest → Delta → Str → M D Str
  unfolding delta_ref
  store_delta req delta bytes = do
    exec IngestError.put_blob (b.put_delta req.tenant_id delta.id bytes)
    call IngestError.insert_row (
        b.insert_delta (record {
          tenant_id = req.tenant_id;
          repo_id = req.repo_id;
          base_snapshot_id = delta.base_snapshot_id;
          head_snapshot_id = delta.head_snapshot_id;
          stats = delta.stats;
          storage_ref = delta_ref req.tenant_id delta.id;
        }))

  unfoldable pub store_score : IngestionRequest → Str → Str → Str → ScoreResult W → M D Str
  store_score req base_id head_id delta_id result = do
    breakdown ← expect IngestError.marshal_score (b.marshal_breakdown result.breakdown)
    hotspots ← expect IngestError.marshal_score (b.marshal_hotspots result.hotspots)
    actions ← expect IngestError.marshal_score (b.marshal_actions result.suggested_actions)
    call IngestError.insert_row (
        b.insert_score (record {
          tenant_id = req.tenant_id;
          repo_id = req.repo_id;
          pr_number = req.pr_number;
          commit_sha = req.commit_sha;
          base_snapshot_id = base_id;
          head_snapshot_id = head_id;
          delta_id = delta_id;
          total_score = result.total_score;
          grade = result.grade;
          breakdown = breakdown;
          hotspots = hotspots;
          suggested_actions = actions;
          created_at = req.committed_at;
        }))

  unfoldable pub update_score : Str → ScoreResult W → M D (Unit {0})
  update_score score_id result = do
    breakdown ← expect IngestError.marshal_score (b.marshal_breakdown result.breakdown)
    hotspots ← expect IngestError.marshal_score (b.marshal_hotspots result.hotspots)
    actions ← expect IngestError.marshal_score (b.marshal_actions result.suggested_actions)
    exec IngestError.update_score
        (b.update_score score_id result.total_score result.grade breakdown hotspots actions)

  -- The branch is set after the snapshot has been marshalled.
  unfoldable pub extract_baseline : IngestionRequest → M D Str
  unfolding store_snapshot
  extract_baseline req = do
    snap ← (λ d. (or_fail IngestError.extract_baseline (b.extract [] d), d))
    bytes ← expect IngestError.marshal_baseline (b.marshal_snapshot snap)
    id ← store_snapshot req (record snap { branch = req.base_branch }) bytes
    exec IngestError.set_baseline (b.set_baseline req.repo_id id)
    done id

  unfoldable pub baseline_of : IngestionRequest → BaselineQuery → M D Str
  unfolding extract_baseline
  baseline_of req (BaselineQuery.found id) = done id
  baseline_of req BaselineQuery.no_rows = extract_baseline req
  baseline_of req BaselineQuery.query_failed = λ d. (inl IngestError.query_baseline, d)

  unfoldable pub ensure_baseline : IngestionRequest → M D Str
  unfolding baseline_of
  ensure_baseline req d = baseline_of req (b.find_baseline req.repo_id d) d
