-- ===== src/Query/Paths.antt =====
-- pkg/graphquery/query.go: FindPaths. A negative cap is not modelled; it acts like 0.
pub mod Walks
pub mod Labels
pub mod Rounds
pub mod Fuel
pub mod Correct
pub mod Found
use toposcope.Base.{
  ℕ, zero, suc, ◌+◌, ◌-◌, ◌==◌, ltb, leb, Bool, true, false, List, [], ◌∷◌, ◌++◌, Option, none,
  some, Str, Dict, keys, lookup, insert, get_or, has_key, contains, add, str_eq, codes, length,
  filter, if◌then◌else◌,
}
use toposcope.Graph.{Node, Edge, Snapshot}
use toposcope.Query.{nodes_of}
use toposcope.Query.Ego.{matches}

pub record PathResult : Type 0 where
  pub paths : List (List Str)
  pub nodes : Dict Node
  pub edges : List Edge
  pub from : Str
  pub to : Str
  pub path_length : ℕ

unfoldable pub path_cap : ℕ → ℕ
path_cap max_paths = if max_paths == 0 then 10 else max_paths

-- fwd[e.From] = append(fwd[e.From], e.To)
unfoldable pub fill_targets : List Edge → Dict (List Str) → Dict (List Str)
unfolding get_or insert
fill_targets [] m = m
fill_targets (e ∷ es) m = fill_targets es (insert e.from (get_or e.from m [] ++ e.to ∷ []) m)

-- resolveNodes
unfoldable pub resolve_nodes : Snapshot → Str → List Str
unfolding matches str_eq
resolve_nodes s query = elim (filter (matches query) (keys s.nodes)) [
  | [] ↦ keys (filter (λ x. str_eq x.1.pkg query) s.nodes)
  | key ∷ rest ↦ key ∷ rest
]

-- The variables of the search.
pub record Bfs : Type 0 where
  pub dist : Dict ℕ
  pub parents : Dict (List Str)
  pub queue : List (Str × ℕ)

unfoldable pub start : List Str → Bfs → Bfs
unfolding insert
start [] b = b
start (n ∷ ns) b = start ns (record b { dist = insert n 0 b.dist; queue = b.queue ++ (n, 0) ∷ [] })

-- The body of the loop over the neighbours of `curr`.
unfoldable pub visit : Str → ℕ → Str → Bfs → Bfs
unfolding lookup insert get_or
visit curr next_depth neighbor b = elim (lookup neighbor b.dist) [
  | none ↦ record {
    dist = insert neighbor next_depth b.dist;
    parents = insert neighbor (curr ∷ []) b.parents;
    queue = b.queue ++ (neighbor, next_depth) ∷ [];
  }
  | some depth ↦
      if depth == next_depth
      then record b {
        parents = insert neighbor (get_or neighbor b.parents [] ++ curr ∷ []) b.parents;
      }
      else b
]

unfoldable pub visit_all : Str → ℕ → List Str → Bfs → Bfs
unfolding visit
visit_all curr next_depth [] b = b
visit_all curr next_depth (n ∷ ns) b = visit_all curr next_depth ns (visit curr next_depth n b)

-- foundDepth >= 0 && depth > foundDepth
unfoldable pub is_past : Option ℕ → ℕ → Bool
is_past none depth = false
is_past (some found_depth) depth = ltb found_depth depth

-- The loop over the queue, on fuel.
unfoldable pub bfs : Dict (List Str) → List Str → ℕ → Option ℕ → Bfs → Option Bfs
unfolding is_past visit_all get_or contains
bfs fwd to_set zero found b = elim b.queue [ [] ↦ some b | curr ∷ rest ↦ none ]
bfs fwd to_set (suc fuel) found b = elim b.queue [
  | [] ↦ some b
  | (node, depth) ∷ rest ↦
      let after =
        bfs fwd to_set fuel (if contains node to_set then some depth else found)
          (visit_all node (depth + 1) (get_or node fwd []) (record b { queue = rest })) in
      if is_past found depth then some b else after
]

-- A loop that carries `allPaths`; `none` is the end of the fuel.
unfoldable pub each :
    (Str → List (List Str) → Option (List (List Str)))
    → List Str
    → List (List Str)
    → Option (List (List Str))
each f [] all_paths = some all_paths
each f (x ∷ xs) all_paths = elim (f x all_paths) [ none ↦ none | some more ↦ each f xs more ]

module _ (cap : ℕ) (from_set : List Str) (parents : Dict (List Str)) where
  unfoldable pub backtrack : ℕ → Str → List Str → List (List Str) → Option (List (List Str))
  unfolding contains each get_or
  backtrack zero node path all_paths =
      if leb cap (length all_paths)
      then some all_paths
      else if contains node from_set
      then some (all_paths ++ (node ∷ path) ∷ [])
      else none
  backtrack (suc fuel) node path all_paths =
      let deeper =
        each (λ p more. backtrack fuel p (node ∷ path) more) (get_or node parents []) all_paths in
      if leb cap (length all_paths)
      then some all_paths
      else if contains node from_set
      then some (all_paths ++ (node ∷ path) ∷ [])
      else deeper

  -- The loop over reachedTargets; the fuel for each target is its distance.
  unfoldable pub collect : Dict ℕ → List Str → Option (List (List Str))
  unfolding each backtrack get_or
  collect dist reached =
      each
        (λ t all_paths.
          let more = backtrack (get_or t dist 0) t [] all_paths in
          if leb cap (length all_paths) then some all_paths else more)
        reached []

-- pathNodes
unfoldable pub path_nodes : List (List Str) → List Str → List Str
unfolding add
path_nodes [] seen = seen
path_nodes ([] ∷ ps) seen = path_nodes ps seen
path_nodes ((n ∷ p) ∷ ps) seen = path_nodes (p ∷ ps) (add n seen)

-- pathEdgeSet
unfoldable pub path_edges : List (List Str) → List Str → List Str
unfolding add
path_edges [] seen = seen
path_edges ([] ∷ ps) seen = path_edges ps seen
path_edges ((n ∷ []) ∷ ps) seen = path_edges ps seen
path_edges ((n ∷ m ∷ p) ∷ ps) seen = path_edges ((m ∷ p) ∷ ps) (add (n ++ (codes "->" ++ m)) seen)

unfoldable pub first_length : List (List Str) → ℕ
first_length [] = 0
first_length (p ∷ ps) = length p - 1

module _ (s : Snapshot) (from_query to_query : Str) where
  unfoldable pub empty_result : PathResult
  empty_result = record {
    paths = [];
    nodes = [];
    edges = [];
    from = from_query;
    to = to_query;
    path_length = 0;
  }

  unfoldable pub path_result : List (List Str) → PathResult
  unfolding path_nodes path_edges first_length nodes_of contains
  path_result all_paths = record {
    paths = all_paths;
    nodes = nodes_of s.nodes (path_nodes all_paths []);
    edges =
        filter (λ e. contains (e.from ++ (codes "->" ++ e.to)) (path_edges all_paths [])) s.edges;
    from = from_query;
    to = to_query;
    path_length = first_length all_paths;
  }

  -- What follows the search: an early return where no target was reached.
  unfoldable pub gather : ℕ → List Str → Bfs → List Str → Option PathResult
  unfolding empty_result collect path_result
  gather cap from_nodes b [] = some empty_result
  gather cap from_nodes b (t ∷ ts) = elim (collect cap from_nodes b.parents b.dist (t ∷ ts)) [
    | none ↦ none
    | some all_paths ↦ some (path_result all_paths)
  ]

  unfoldable pub search_paths : ℕ → List Str → List Str → Option PathResult
  unfolding fill_targets start bfs gather has_key
  search_paths cap from_nodes to_nodes =
      elim (bfs (fill_targets s.edges []) to_nodes (length from_nodes + length s.edges) none
        (start from_nodes (record { dist = []; parents = []; queue = [] }))) [
          | none ↦ none
          | some b ↦ gather cap from_nodes b (filter (λ t. has_key t b.dist) to_nodes)
        ]

  -- The early return where a query resolves to nothing.
  unfoldable pub between : ℕ → List Str → List Str → Option PathResult
  unfolding empty_result search_paths
  between cap [] to_nodes = some empty_result
  between cap (f ∷ fs) [] = some empty_result
  between cap (f ∷ fs) (t ∷ ts) = search_paths cap (f ∷ fs) (t ∷ ts)

-- FindPaths
unfoldable pub find_paths : Snapshot → Str → Str → ℕ → Option PathResult
unfolding between resolve_nodes path_cap
find_paths s from_query to_query max_paths =
    between s from_query to_query (path_cap max_paths) (resolve_nodes s from_query)
      (resolve_nodes s to_query)
