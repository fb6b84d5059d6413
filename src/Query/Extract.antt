-- ===== src/Query/Extract.antt =====
-- pkg/graphquery/query.go: ExtractSubgraph. A depth below zero acts like 0.
pub mod Correct
use toposcope.Base.{
  ℕ, zero, suc, Bool, true, false, ◌||◌, List, [], ◌∷◌, Str, keys, has_prefix, str_eq,
  if◌then◌else◌,
}
use toposcope.Graph.{Snapshot}
use toposcope.Query.{SubgraphResult, fwd, rev, nodes_of, edges_between}
use toposcope.Query.Search.{Frontier, offer, level}

-- key == r || HasPrefix(key, r)
unfoldable pub is_match : Str → Str → Bool
unfolding str_eq has_prefix
is_match r key = str_eq key r || has_prefix key r

-- The loop over the node keys for one root.
unfoldable pub match_root : Str → List Str → Frontier → Frontier
unfolding offer is_match
match_root r [] f = f
match_root r (key ∷ ks) f = match_root r ks (if is_match r key then offer key f else f)

unfoldable pub match_roots : List Str → List Str → Frontier → Frontier
unfolding match_root
match_roots [] ks f = f
match_roots (r ∷ roots) ks f = match_roots roots ks (match_root r ks f)

-- The loop over the depth, with the queue and the visited keys.
unfoldable pub search : Snapshot → ℕ → List Str → List Str → List Str
unfolding level fwd rev
search s zero queue visited = visited
search s (suc d) [] visited = visited
search s (suc d) (node ∷ queue) visited =
    let f =
      level true true (fwd s) (rev s) (node ∷ queue) (record { visited = visited; next = [] }) in
    search s d f.next f.visited

unfoldable pub extract_subgraph : Snapshot → List Str → ℕ → SubgraphResult
unfolding match_roots search nodes_of edges_between
extract_subgraph s roots depth =
    let f = match_roots roots (keys s.nodes) (record { visited = []; next = [] }) in
    let visited = search s depth f.next f.visited in
    record {
      nodes = nodes_of s.nodes visited;
      edges = edges_between visited s.edges;
      truncated = false;
    }
