-- ===== src/Graph/Diff.antt =====
-- pkg/graph/delta.go: ComputeDelta. The identifier that uuid.New() draws is an argument.
pub mod Keys
pub mod Edges
pub mod Changes
use toposcope.Base.{ℕ, Bool, List, [], ◌∷◌, ◌++◌, Str, Dict, has_key, insert, length, if◌then◌else◌}
use toposcope.Graph.{Node, Edge, Snapshot, Delta, DeltaStats, edge_key}

-- The loops `for key, v := range m { if _, exists := other[key]; !exists { append } }`.
unfoldable pub absent {ℓ κ} : {V : Type ℓ} {U : Type κ} → Dict V → Dict U → List V
unfolding has_key
absent [] other = []
absent ((k, v) ∷ m) other = let rest = absent m other in if has_key k other then rest else v ∷ rest

-- The loops that fill `baseEdges` and `headEdges`.
unfoldable pub fill_edges : List Edge → Dict Edge → Dict Edge
unfolding insert edge_key
fill_edges [] m = m
fill_edges (e ∷ es) m = fill_edges es (insert (edge_key e) e m)

unfoldable pub edge_map : List Edge → Dict Edge
unfolding fill_edges
edge_map es = fill_edges es []

unfoldable pub compute_delta : Str → Snapshot → Snapshot → Delta
unfolding absent edge_map
compute_delta new_id base head =
    let base_edges = edge_map base.edges in
    let head_edges = edge_map head.edges in
    let added_nodes = absent head.nodes base.nodes in
    let removed_nodes = absent base.nodes head.nodes in
    let added_edges = absent head_edges base_edges in
    let removed_edges = absent base_edges head_edges in
    record {
      id = new_id;
      base_snapshot_id = base.id;
      head_snapshot_id = head.id;
      impacted_targets = [];
      added_nodes = added_nodes;
      removed_nodes = removed_nodes;
      added_edges = added_edges;
      removed_edges = removed_edges;
      stats = record {
        impacted_target_count = 0;
        added_node_count = length added_nodes;
        removed_node_count = length removed_nodes;
        added_edge_count = length added_edges;
        removed_edge_count = length removed_edges;
      };
    }
