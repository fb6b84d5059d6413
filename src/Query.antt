-- ===== src/Query.antt =====
-- pkg/graphquery/query.go: the adjacency maps and the part of a snapshot that a set of keys spans,
-- which ExtractSubgraph and EgoGraph share. The search is in `Search`, and each query in a
-- child of its own.
pub mod Search
pub mod Extract
pub mod Ego
pub mod Paths
pub mod Rank
pub mod Cap
pub mod Packages
use toposcope.Base.{
  Bool, ◌&&◌, List, [], ◌∷◌, ◌++◌, Option, none, some, Str, Dict, get_or, insert, lookup, contains,
  filter,
}
use toposcope.Graph.{Node, Edge, Snapshot}

-- SubgraphResult
pub record SubgraphResult : Type 0 where
  pub nodes : Dict Node
  pub edges : List Edge
  pub truncated : Bool

-- The loop that fills `fwd` and `rev`: `m[k] = append(m[k], e)` for the end `k` of each edge.
unfoldable pub fill_index : (Edge → Str) → List Edge → Dict (List Edge) → Dict (List Edge)
unfolding get_or insert
fill_index end_of [] m = m
fill_index end_of (e ∷ es) m =
    let k = end_of e in fill_index end_of es (insert k (get_or k m [] ++ e ∷ []) m)

unfoldable pub fwd : Snapshot → Dict (List Edge)
unfolding fill_index
fwd s = fill_index (λ e. e.from) s.edges []

unfoldable pub rev : Snapshot → Dict (List Edge)
unfolding fill_index
rev s = fill_index (λ e. e.to) s.edges []

-- The nodes of the visited keys; a visited key that is no node is dropped.
unfoldable pub nodes_of : Dict Node → List Str → Dict Node
unfolding lookup
nodes_of nodes [] = []
nodes_of nodes (k ∷ ks) =
    let rest = nodes_of nodes ks in elim (lookup k nodes) [ none ↦ rest | some n ↦ (k, n) ∷ rest ]

-- The edges with both ends among the visited keys.
unfoldable pub edges_between : List Str → List Edge → List Edge
unfolding contains
edges_between visited es = filter (λ e. contains e.from visited && contains e.to visited) es
