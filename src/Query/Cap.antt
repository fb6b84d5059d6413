-- ===== src/Query/Cap.antt =====
-- pkg/graphquery/query.go: CapGraph. A negative cap is not modelled; it acts like 0.
pub mod Laws
use toposcope.Base.{ℕ, leb, false, List, [], ◌∷◌, Str, Dict, bump, keys, length, if◌then◌else◌}
use toposcope.Base.Sort.{SortSlice}
use toposcope.Graph.{Edge, Snapshot}
use toposcope.Query.{SubgraphResult, nodes_of, edges_between}
use toposcope.Query.Rank.{keep}

-- degree[e.From]++ and degree[e.To]++
unfoldable pub fill_degrees : List Edge → Dict ℕ → Dict ℕ
unfolding bump
fill_degrees [] m = m
fill_degrees (e ∷ es) m = fill_degrees es (bump e.to (bump e.from m))

unfoldable pub cap_graph : SortSlice → Snapshot → ℕ → SubgraphResult
unfolding keep fill_degrees nodes_of edges_between
cap_graph sort s max_nodes =
    let kept = keep sort max_nodes (fill_degrees s.edges []) (keys s.nodes) in
    if leb (length s.nodes) max_nodes
    then record { nodes = s.nodes; edges = s.edges; truncated = false }
    else record {
      nodes = nodes_of s.nodes kept;
      edges = edges_between kept s.edges;
      truncated = false;
    }
