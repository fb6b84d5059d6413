-- ===== src/Graph.antt =====
-- pkg/graph: the snapshot, node, edge and delta types. Node pointers in a map are never nil here: a
-- missing key is what the code compares with nil. Times are numbers of nanoseconds.
pub mod Degrees
pub mod Diff
use toposcope.Base.{ℕ, Bool, List, [], ◌∷◌, ◌++◌, Str, Dict}

-- types.go: Node
pub record Node : Type 0 where
  pub key : Str
  pub kind : Str
  pub pkg : Str
  pub tags : List Str
  pub visibility : List Str
  pub is_test : Bool
  pub is_external : Bool

-- types.go: Edge
pub record Edge : Type 0 where
  pub from : Str
  pub to : Str
  pub type : Str

-- types.go: Edge.EdgeKey
unfoldable pub edge_key : Edge → Str
edge_key e = e.from ++ (b'|' ∷ (e.to ++ (b'|' ∷ e.type)))

-- types.go: SnapshotStats
pub record SnapshotStats : Type 0 where
  pub node_count : ℕ
  pub edge_count : ℕ
  pub package_count : ℕ
  pub extraction_ms : ℕ

-- types.go: Snapshot
pub record Snapshot : Type 0 where
  pub id : Str
  pub commit_sha : Str
  pub branch : Str
  pub partial : Bool
  pub scope : List Str
  pub nodes : Dict Node
  pub edges : List Edge
  pub stats : SnapshotStats
  pub extracted_at : ℕ

-- types.go: DeltaStats
pub record DeltaStats : Type 0 where
  pub impacted_target_count : ℕ
  pub added_node_count : ℕ
  pub removed_node_count : ℕ
  pub added_edge_count : ℕ
  pub removed_edge_count : ℕ

-- types.go: Delta
pub record Delta : Type 0 where
  pub id : Str
  pub base_snapshot_id : Str
  pub head_snapshot_id : Str
  pub impacted_targets : List Str
  pub added_nodes : List Node
  pub removed_nodes : List Node
  pub added_edges : List Edge
  pub removed_edges : List Edge
  pub stats : DeltaStats
