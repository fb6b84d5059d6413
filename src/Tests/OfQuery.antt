-- ===== src/Tests/OfQuery.antt =====
-- pkg/graphquery: the queries on the samples.
use toposcope.Base.{
  ◌≡◌, ◌≤◌, ◌<◌, sym, ◌∙◌, ap, NoDup, arith, length, refl, ◌↔◌, true, false, [], ◌∷◌, some, Str, In,
  codes, keys, values, inl, inr, lookup, str_eq,
}
use toposcope.Graph.{Node, Edge}
use toposcope.Query.Search.Spec.{Within}
use toposcope.Query.Extract.{extract_subgraph}
use toposcope.Query.Extract.Correct.{start_keys, extract_subgraph_lem}
use toposcope.Query.Ego.{wants_deps, wants_rdeps, ego_graph}
use toposcope.Query.Ego.Correct.{InEgo, Follows, ego_graph_lem}
use toposcope.Base.Sort.{by_insertion, by_insertion-Sorts}
use toposcope.Query.Cap.{cap_graph}
use toposcope.Query.Cap.Laws.{IsCapped, cap_graph_lem}
use toposcope.Query.Packages.Links.{IsCounted, aggregate_edges_lem}
use toposcope.Query.Packages.{PackageEdge, aggregate_packages, min_weight, package_cap}
use toposcope.Query.Packages.Correct.{IsSummary, aggregate_packages_lem}
use toposcope.Query.Paths.{PathResult, find_paths, resolve_nodes, path_cap}
use toposcope.Query.Paths.Found.{Answers, find_paths_lem}
use toposcope.Tests.Samples.{app, lib, web, head, node, edge}

extract_runs :
    (keys (extract_subgraph head (codes "//app" ∷ []) 1).nodes ≡ app ∷ web ∷ [])
    × (keys (extract_subgraph head (codes "//app" ∷ []) 2).nodes ≡ app ∷ web ∷ lib ∷ [])
unfolding extract_subgraph str_eq
extract_runs = (refl, refl)

ego_runs :
    (keys (ego_graph head web 1 (codes "rdeps") 0).nodes ≡ web ∷ [])
    × (keys (ego_graph head web 1 [] 0).nodes ≡ web ∷ app ∷ lib ∷ [])
    × ((ego_graph head web 1 [] 2).truncated ≡ true)
unfolding ego_graph str_eq
ego_runs = (refl, refl, refl)

extract_subgraph_example :
    ((k : Str) (n : Node)
      → (lookup k (extract_subgraph head (codes "//app" ∷ []) 1).nodes ≡ some n) ↔ (
          (lookup k head.nodes ≡ some n)
          × Within true true head (start_keys head (codes "//app" ∷ [])) 1 k))
    × ((e : Edge)
        → In e (extract_subgraph head (codes "//app" ∷ []) 1).edges ↔ (
            In e head.edges
            × Within true true head (start_keys head (codes "//app" ∷ [])) 1 e.from
            × Within true true head (start_keys head (codes "//app" ∷ [])) 1 e.to))
extract_subgraph_example = extract_subgraph_lem head (codes "//app" ∷ []) 1

ego_graph_example :
    ((k : Str) (n : Node)
      → lookup k (ego_graph head web 1 [] 0).nodes ≡ some n
      → (lookup k head.nodes ≡ some n) × InEgo head web 1 [] k)
    × ((e : Edge)
        → In e (ego_graph head web 1 [] 0).edges
        → In e head.edges × InEgo head web 1 [] e.from × InEgo head web 1 [] e.to)
    × ((ego_graph head web 1 [] 0).truncated ≡ false
        → (k : Str) (n : Node) → lookup k head.nodes ≡ some n
        → InEgo head web 1 [] k
        → lookup k (ego_graph head web 1 [] 0).nodes ≡ some n)
    × ((ego_graph head web 1 [] 0).truncated ≡ false
        → (e : Edge) → In e head.edges
        → InEgo head web 1 [] e.from
        → InEgo head web 1 [] e.to
        → In e (ego_graph head web 1 [] 0).edges)
    × ((wants_deps [] ≡ true) ↔ Follows (codes "deps") [])
    × ((wants_rdeps [] ≡ true) ↔ Follows (codes "rdeps") [])
ego_graph_example = ego_graph_lem head web 1 [] 0

find_paths_runs :
    find_paths head (codes "//web") lib 0
    ≡ some (record {
      paths = (web ∷ lib ∷ []) ∷ [];
      nodes = (web, node web (codes "//web/c")) ∷ (lib, node lib (codes "//lib/b")) ∷ [];
      edges = edge web lib ∷ [];
      from = codes "//web";
      to = lib;
      path_length = 1;
    })
unfolding find_paths str_eq
find_paths_runs = refl

find_paths_example :
    (r : PathResult) × (find_paths head (codes "//web") lib 0 ≡ some r)
    × Answers head.edges
        (resolve_nodes head (codes "//web"))
        (resolve_nodes head lib)
        (path_cap 0)
        r
find_paths_example = find_paths_lem head (codes "//web") lib 0

cap_graph_example :
    ((length head.nodes ≤ 2)
      → cap_graph by_insertion head 2
        ≡ record { nodes = head.nodes; edges = head.edges; truncated = false })
    × ((2 < length head.nodes) → IsCapped head 2 (cap_graph by_insertion head 2))
cap_graph_example = cap_graph_lem by_insertion by_insertion-Sorts head 2 (ground arith)

aggregate_packages_runs :
    (aggregate_packages by_insertion head false false 0 0).edges
    ≡ record { from = codes "//web/c"; to = codes "//app/a"; weight = 1 }
      ∷ record { from = codes "//web/c"; to = codes "//lib/b"; weight = 1 }
      ∷ []
unfolding aggregate_packages str_eq
aggregate_packages_runs = refl

aggregate_packages_example :
    IsSummary head false false
      (min_weight 0)
      (package_cap 2)
      (aggregate_packages by_insertion head false false 0 2)
aggregate_packages_example =
    aggregate_packages_lem by_insertion by_insertion-Sorts head false false 0 2

abbrev web_to_lib : PackageEdge
web_to_lib = record { from = codes "//web/c"; to = codes "//lib/b"; weight = 1 }

no_bars : (n : Node) → In n (values head.nodes) → ¬ In b'|' n.pkg
no_bars n h = elim h [
  | inl e ↦ rw e (λ i. ground arith)
  | inr (inl e) ↦ rw e (λ i. ground arith)
  | inr (inr (inl e)) ↦ rw e (λ i. ground arith)
  | inr (inr (inr e)) ↦ elim e [ ]
]

keys_once : NoDup (keys head.nodes)
keys_once = ground arith

own_keys : (k : Str) (n : Node) → In (k, n) head.nodes → n.key ≡ k
own_keys k n h = elim h [
  | inl e ↦ ap (λ x. x.1.key) e ∙ sym (ap (λ x. x.0) e)
  | inr (inl e) ↦ ap (λ x. x.1.key) e ∙ sym (ap (λ x. x.0) e)
  | inr (inr (inl e)) ↦ ap (λ x. x.1.key) e ∙ sym (ap (λ x. x.0) e)
  | inr (inr (inr e)) ↦ elim e [ ]
]

aggregate_edges_example :
    (In web_to_lib (aggregate_packages by_insertion head false false 0 0).edges
      → IsCounted head false false 0 web_to_lib)
    × ((aggregate_packages by_insertion head false false 0 0).truncated ≡ false
        → IsCounted head false false 0 web_to_lib
        → In web_to_lib (aggregate_packages by_insertion head false false 0 0).edges)
aggregate_edges_example =
    aggregate_edges_lem by_insertion head false false 0 0 web_to_lib no_bars keys_once own_keys
