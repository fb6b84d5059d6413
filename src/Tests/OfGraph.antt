-- ===== src/Tests/OfGraph.antt =====
-- pkg/graph: the degree maps and ComputeDelta on the samples.
use toposcope.Base.{
  ◌≡◌, refl, ◌↔◌, inl, inr, [], ◌∷◌, none, some, arith, Str, In, NoDup, codes, keys, lookup, get_or,
  str_eq,
}
use toposcope.Graph.{Node, Snapshot}
use toposcope.Graph.Degrees.{compute_in_degrees}
use toposcope.Graph.Diff.{compute_delta}
use toposcope.Graph.Diff.Keys.{IsPlain}
use toposcope.Graph.Diff.Edges.{AllPlain}
use toposcope.Graph.Diff.Changes.{nodes-compute_delta, edges-compute_delta}
use toposcope.Tests.Samples.{app, lib, web, node, edge, base, head, change}

delta_runs :
    ((compute_delta (codes "d") base head).added_edges ≡ change.added_edges)
    × ((compute_delta (codes "d") base head).removed_edges ≡ change.removed_edges)
    × ((compute_delta (codes "d") base head).stats ≡ change.stats)
unfolding compute_delta str_eq
delta_runs = (refl, refl, refl)

in_degree_runs : get_or lib (compute_in_degrees head) 0 ≡ 1
unfolding compute_in_degrees get_or str_eq
in_degree_runs = refl

abbrev web_node : Node
web_node = node web (codes "//web/c")

distinct_base : NoDup (keys base.nodes)
distinct_base = ground arith

distinct_head : NoDup (keys head.nodes)
distinct_head = ground arith

IsPlain-app-lib : IsPlain (edge app lib)
IsPlain-app-lib = ground arith

IsPlain-web-app : IsPlain (edge web app)
IsPlain-web-app = ground arith

IsPlain-web-lib : IsPlain (edge web lib)
IsPlain-web-lib = ground arith

plain_base : AllPlain base.edges
plain_base e i = elim i [ inl p ↦ rw p IsPlain-app-lib | inr r ↦ elim r [ ] ]

plain_head : AllPlain head.edges
plain_head e i = elim i [
  | inl p ↦ rw p IsPlain-web-app
  | inr r ↦ elim r [ inl p ↦ rw p IsPlain-web-lib | inr z ↦ elim z [ ] ]
]

nodes-compute_delta_example :
    (In web_node (compute_delta (codes "d") base head).added_nodes
      ↔ ((k : Str) × (lookup k head.nodes ≡ some web_node) × (lookup k base.nodes ≡ none)))
    × (In web_node (compute_delta (codes "d") base head).removed_nodes
        ↔ ((k : Str) × (lookup k base.nodes ≡ some web_node) × (lookup k head.nodes ≡ none)))
nodes-compute_delta_example =
    nodes-compute_delta (codes "d") base head web_node distinct_base distinct_head

edges-compute_delta_example :
    (In (edge web app) (compute_delta (codes "d") base head).added_edges
      ↔ (In (edge web app) head.edges × (¬ In (edge web app) base.edges)))
    × (In (edge web app) (compute_delta (codes "d") base head).removed_edges
        ↔ (In (edge web app) base.edges × (¬ In (edge web app) head.edges)))
edges-compute_delta_example =
    edges-compute_delta (codes "d") base head (edge web app) plain_base plain_head

-- The label "x|y" against the labels "x" and "y|z".
abbrev before_rename : Snapshot
before_rename = record base {
  edges = record { from = codes "x|y"; to = codes "z"; type = codes "DATA" } ∷ [];
}

abbrev after_rename : Snapshot
after_rename = record base {
  edges = record { from = codes "x"; to = codes "y|z"; type = codes "DATA" } ∷ [];
}
