-- ===== src/Query/Packages.antt =====
-- pkg/graphquery/query.go: AggregatePackages. A negative weight or cap is not modelled; it acts like 0.
pub mod Nodes
pub mod Edges
pub mod Weights
pub mod Included
pub mod Links
pub mod Correct
use toposcope.Base.{
  ℕ, ◌+◌, ◌==◌, ltb, Bool, true, false, not, ◌&&◌, ◌||◌, List, [], ◌∷◌, ◌++◌, Option, none, some,
  Str, Dict, keys, lookup, insert, has_key, contains, add, bump, filter, str_eq, is_empty, before,
  after, length, if◌then◌else◌,
}
use toposcope.Base.Sort.{SortSlice}
use toposcope.Graph.{Node, Edge, Snapshot}
use toposcope.Graph.Degrees.{packages}
use toposcope.Query.Rank.{keep}

pub record PackageNode : Type 0 where
  pub pkg : Str
  pub target_count : ℕ
  pub kinds : List Str
  pub has_tests : Bool
  pub is_external : Bool

pub record PackageEdge : Type 0 where
  pub from : Str
  pub to : Str
  pub weight : ℕ

pub record PackageGraphResult : Type 0 where
  pub nodes : Dict PackageNode
  pub edges : List PackageEdge
  pub truncated : Bool

unfoldable pub min_weight : ℕ → ℕ
min_weight w = if ltb w 1 then 1 else w

unfoldable pub package_cap : ℕ → ℕ
package_cap max_pkgs = if max_pkgs == 0 then 500 else max_pkgs

-- The node is not hidden and has a package.
unfoldable pub is_shown : Bool → Bool → Node → Bool
unfolding is_empty
is_shown hide_tests hide_external n =
    not (hide_tests && n.is_test) && not (hide_external && n.is_external) && not (is_empty n.pkg)

-- The entry of the package, new where it has none.
unfoldable pub entry : Node → Option PackageNode → PackageNode
entry n none = record {
  pkg = n.pkg;
  target_count = 0;
  kinds = [];
  has_tests = false;
  is_external = n.is_external;
}
entry n (some pn) = pn

unfoldable pub count_target : Node → PackageNode → PackageNode
unfolding add
count_target n pn = record pn {
  target_count = pn.target_count + 1;
  has_tests = if n.is_test then true else pn.has_tests;
  kinds = add n.kind pn.kinds;
}

module _ (hide_tests hide_external : Bool) where
  unfoldable pub package_nodes : Dict Node → Dict PackageNode → Dict PackageNode
  unfolding is_shown insert lookup entry count_target
  package_nodes [] m = m
  package_nodes ((k, n) ∷ ns) m = package_nodes ns (
      if is_shown hide_tests hide_external n
      then insert n.pkg (count_target n (entry n (lookup n.pkg m))) m
      else m)

  unfoldable pub included_targets : Dict PackageNode → Dict Node → List Str → List Str
  unfolding is_shown has_key add
  included_targets pkgs [] included = included
  included_targets pkgs ((k, n) ∷ ns) included = included_targets pkgs ns (
      if is_shown hide_tests hide_external n && has_key n.pkg pkgs
      then add n.key included
      else included)

-- The packages of the ends of an edge that counts.
unfoldable pub ends_of : Option Node → Option Node → Option (Str × Str)
unfolding str_eq is_empty
ends_of (some f) (some t) =
    if str_eq f.pkg t.pkg || is_empty f.pkg || is_empty t.pkg then none else some (f.pkg, t.pkg)
ends_of _ _ = none

unfoldable pub crossing : Dict Node → List Str → Edge → Option (Str × Str)
unfolding contains ends_of lookup
crossing nodes included e =
    if not (contains e.from included) || not (contains e.to included)
    then none
    else ends_of (lookup e.from nodes) (lookup e.to nodes)

-- fromPkg + "|" + toPkg
unfoldable pub weight_key : Str × Str → Str
weight_key (f, t) = f ++ b'|' ∷ t

unfoldable pub edge_weights : Dict Node → List Str → List Edge → Dict ℕ → Dict ℕ
unfolding crossing bump weight_key
edge_weights nodes included [] m = m
edge_weights nodes included (e ∷ es) m = elim (crossing nodes included e) [
  | none ↦ edge_weights nodes included es m
  | some ends ↦ edge_weights nodes included es (bump (weight_key ends) m)
]

-- parts[1]; every key has a '|'.
unfoldable pub second_part : Option Str → Str
second_part none = []
second_part (some t) = t

-- The key is split at its first '|'.
unfoldable pub package_edges : ℕ → Dict ℕ → List PackageEdge
unfolding before after second_part
package_edges least [] = []
package_edges least ((key, w) ∷ m) =
    let rest = package_edges least m in
    if ltb w least
    then rest
    else record { from = before b'|' key; to = second_part (after b'|' key); weight = w } ∷ rest

unfoldable pub package_degrees : List PackageEdge → Dict ℕ → Dict ℕ
unfolding bump
package_degrees [] m = m
package_degrees (e ∷ es) m = package_degrees es (bump e.to (bump e.from m))

-- What is returned, cut down to the cap where there are too many packages.
unfoldable pub package_result :
    SortSlice → Snapshot → ℕ → Dict PackageNode → List PackageEdge → PackageGraphResult
unfolding keep package_degrees contains packages
package_result sort s cap nodes edges =
    let kept = keep sort cap (package_degrees edges []) (keys nodes) in
    if ltb cap (length nodes)
    then record {
      nodes = filter (λ x. contains x.0 kept) nodes;
      edges = filter (λ e. contains e.from kept && contains e.to kept) edges;
      truncated = true;
    }
    else record {
      nodes = nodes;
      edges = edges;
      truncated = ltb (length nodes) (length (packages s));
    }

unfoldable pub aggregate_packages : SortSlice → Snapshot → Bool → Bool → ℕ → ℕ → PackageGraphResult
unfolding package_nodes included_targets edge_weights package_edges package_result min_weight
    package_cap
aggregate_packages sort s hide_tests hide_external min_edge_weight max_pkgs =
    let nodes = package_nodes hide_tests hide_external s.nodes [] in
    let included = included_targets hide_tests hide_external nodes s.nodes [] in
    let weights = edge_weights s.nodes included s.edges [] in
    package_result sort s (package_cap max_pkgs) nodes
      (package_edges (min_weight min_edge_weight) weights)
