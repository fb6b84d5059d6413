-- ===== src/Query/Ego.antt =====
-- pkg/graphquery/query.go: EgoGraph. Depths and node caps below zero are not modelled: a negative
-- depth acts like 0, and a negative cap like 1.
pub mod Correct
use toposcope.Base.{
  ℕ, zero, suc, ◌==◌, leb, Bool, true, false, ◌||◌, List, [], ◌∷◌, ◌++◌, Str, Dict, keys, codes,
  has_prefix, str_eq, is_empty, length, if◌then◌else◌,
}
use toposcope.Graph.{Node, Snapshot}
use toposcope.Query.{SubgraphResult, fwd, rev, nodes_of, edges_between}
use toposcope.Query.Search.{Frontier, offer, level}

-- key == target || HasPrefix(key, target+":") || HasPrefix(key, target+"/")
unfoldable pub matches : Str → Str → Bool
unfolding str_eq has_prefix
matches target key =
    str_eq key target
    || has_prefix key (target ++ b':' ∷ [])
    || has_prefix key (target ++ b'/' ∷ [])

unfoldable pub match_keys : Str → List Str → Frontier → Frontier
unfolding matches offer
match_keys target [] f = f
match_keys target (key ∷ ks) f =
    match_keys target ks (if matches target key then offer key f else f)

-- The second attempt, by package.
unfoldable pub match_package : Str → Dict Node → Frontier → Frontier
unfolding offer str_eq
match_package target [] f = f
match_package target ((key, node) ∷ ns) f =
    match_package target ns (if str_eq node.pkg target then offer key f else f)

unfoldable pub ego_roots : Snapshot → Str → Frontier
unfolding match_keys match_package
ego_roots s target =
    let f = match_keys target (keys s.nodes) (record { visited = []; next = [] }) in
    elim f.next [ [] ↦ match_package target s.nodes f | _ ∷ _ ↦ f ]

-- The loop over the depth: the visited keys, and whether the cap ended it.
unfoldable pub ego_search : Bool → Bool → ℕ → Snapshot → ℕ → List Str → List Str → List Str × Bool
unfolding level fwd rev
ego_search deps rdeps cap s zero queue visited = (visited, false)
ego_search deps rdeps cap s (suc d) [] visited = (visited, false)
ego_search deps rdeps cap s (suc d) (node ∷ queue) visited =
    let f =
      level deps rdeps (fwd s) (rev s) (node ∷ queue) (record { visited = visited; next = [] }) in
    let rest = ego_search deps rdeps cap s d f.next f.visited in
    if leb cap (length f.visited) then (f.visited, true) else rest

unfoldable pub wants_deps : Str → Bool
unfolding is_empty str_eq
wants_deps direction =
    let d = if is_empty direction then codes "both" else direction in
    str_eq d (codes "deps") || str_eq d (codes "both")

unfoldable pub wants_rdeps : Str → Bool
unfolding is_empty str_eq
wants_rdeps direction =
    let d = if is_empty direction then codes "both" else direction in
    str_eq d (codes "rdeps") || str_eq d (codes "both")

unfoldable pub node_cap : ℕ → ℕ
node_cap max_nodes = if max_nodes == 0 then 500 else max_nodes

-- The early return where nothing matched, and the result of the search.
unfoldable pub ego_result : Snapshot → List Str → List Str × Bool → SubgraphResult
unfolding nodes_of edges_between
ego_result s [] found = record { nodes = []; edges = []; truncated = false }
ego_result s (_ ∷ _) found = record {
  nodes = nodes_of s.nodes found.0;
  edges = edges_between found.0 s.edges;
  truncated = found.1;
}

unfoldable pub ego_graph : Snapshot → Str → ℕ → Str → ℕ → SubgraphResult
unfolding ego_roots ego_search wants_deps wants_rdeps node_cap ego_result
ego_graph s target depth direction max_nodes =
    let f = ego_roots s target in
    let deps = wants_deps direction in
    let rdeps = wants_rdeps direction in
    ego_result s f.next (ego_search deps rdeps (node_cap max_nodes) s depth f.next f.visited)
