-- ===== src/Query/Packages/Links.antt =====
-- pkg/graphquery/query.go: the edges of the result of AggregatePackages.
use toposcope.Base.{
  ℕ, ◌≤◌, ◌<◌, ltb, ◌≡◌, ◌≢◌, ◌↔◌, sym, ◌∙◌, inl, inr, Bool, false, ◌&&◌, arith, Str, Dict, In,
  In-filter, values, keys, NoDup, count, contains, length, Bool-cases, List, [],
}
use toposcope.Base.Sort.{SortSlice}
use toposcope.Graph.{Node, Snapshot}
use toposcope.Query.Rank.{keep}
use toposcope.Query.Packages.{
  PackageNode, PackageEdge, edge_weights, package_edges, package_degrees, package_result,
  aggregate_packages, package_nodes, included_targets, min_weight, package_cap,
}
use toposcope.Query.Packages.Weights.{package_edges_iff}
use toposcope.Query.Packages.Included.{joins, link_total-eq}

result-edges :
    (sort : SortSlice) (s : Snapshot) (cap : ℕ) (nodes : Dict PackageNode)
    (edges : List PackageEdge) (x : PackageEdge)
    → (In x (package_result sort s cap nodes edges).edges → In x edges)
      × ((package_result sort s cap nodes edges).truncated ≡ false
          → In x edges
          → In x (package_result sort s cap nodes edges).edges)
unfolding package_result
result-edges sort s cap nodes edges x = elim (Bool-cases (ltb cap (length nodes))) [
  | inl over ↦
      rw (package_result, over)
        (
          λ i.
              let kept = keep sort cap (package_degrees edges []) (keys nodes) in
              ((In-filter x (λ e. contains e.from kept && contains e.to kept) edges).0 i).0,
          λ h. absurd (cc),
        )
  | inr within ↦ rw (package_result, within) (λ i. i, λ h i. i)
]

min_weight_iff : (w n : ℕ) → (min_weight w ≤ n) ↔ ((w ≤ n) × (0 < n))
unfolding min_weight
min_weight_iff w n = ground arith

-- The targets that AggregatePackages includes.
abbrev included_of : Snapshot → Bool → Bool → List Str
included_of s hide_tests hide_external =
    included_targets hide_tests hide_external (package_nodes hide_tests hide_external s.nodes [])
      s.nodes []

-- The edge joins two packages, its weight is the number of edges from targets of the one to targets of the other that
-- are not hidden, and it is neither 0 nor below the least.
abbrev pub IsCounted : Snapshot → Bool → Bool → ℕ → PackageEdge → Type 0
IsCounted s hide_tests hide_external least x =
    (x.from ≢ x.to)
    × (x.weight ≡ count (joins hide_tests hide_external s.nodes x.from x.to) s.edges)
    × (least ≤ x.weight)
    × (0 < x.weight)

-- Where no package name has a '|' and every node stands under its own key, each key once, an edge of the result joins
-- two different packages, its weight is the number of edges that lead from a target of the one to a target of the other,
-- both neither hidden nor without a package, and it is not 0 and at least the weight asked for. Where the result is not
-- marked as truncated, it has every such edge.
pub aggregate_edges_lem :
    (sort : SortSlice) (s : Snapshot) (hide_tests hide_external : Bool)
    (min_edge_weight max_pkgs : ℕ) (x : PackageEdge)
    → ((n : Node) → In n (values s.nodes) → ¬ In b'|' n.pkg)
    → NoDup (keys s.nodes)
    → ((k : Str) (n : Node) → In (k, n) s.nodes → n.key ≡ k)
    → let r = aggregate_packages sort s hide_tests hide_external min_edge_weight max_pkgs in
      (In x r.edges → IsCounted s hide_tests hide_external min_edge_weight x)
      × (r.truncated ≡ false
          → IsCounted s hide_tests hide_external min_edge_weight x
          → In x r.edges)
unfolding aggregate_packages
aggregate_edges_lem sort s ht he w cap x free once own_key =
    let nodes = package_nodes ht he s.nodes [] in
    let included = included_of s ht he in
    let edges = package_edges (min_weight w) (edge_weights s.nodes included s.edges []) in
    let (out, back) = result-edges sort s (package_cap cap) nodes edges x in
    let pos : 0 < min_weight w = ((min_weight_iff w (min_weight w)).0 (omega arith)).1 in
    let both = package_edges_iff s.nodes included free (min_weight w) s.edges x pos in
    let counted = link_total-eq ht he s.nodes once own_key x.from x.to s.edges in
    (
      λ i.
          let (apart, weight, heavy) = both.0 (out i) in
          let (a, b) = (min_weight_iff w x.weight).0 heavy in (apart, weight ∙ counted apart, a, b),
      λ h (apart, weight, a, b).
          back h
            (both.1 (apart, weight ∙ sym (counted apart), (min_weight_iff w x.weight).1 (a, b))),
    )
