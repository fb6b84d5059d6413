-- ===== src/Graph/Degrees.antt =====
-- pkg/graph/types.go: the in-degree and out-degree maps, and the set of packages.
pub mod Laws
use toposcope.Base.{
  ℕ, Bool, true, List, [], ◌∷◌, Str, Dict, keys, add, bump, is_empty, if◌then◌else◌,
}
use toposcope.Graph.{Node, Edge, Snapshot}

-- The first loop: every node's key, with the count 0.
unfoldable pub zero_degrees : List Str → Dict ℕ
zero_degrees [] = []
zero_degrees (k ∷ ks) = (k, 0) ∷ zero_degrees ks

-- The second loop: one more for each edge at the end that `end_of` picks.
unfoldable pub count_edges : (Edge → Str) → List Edge → Dict ℕ → Dict ℕ
unfolding bump
count_edges end_of [] degrees = degrees
count_edges end_of (e ∷ es) degrees = count_edges end_of es (bump (end_of e) degrees)

unfoldable pub compute_in_degrees : Snapshot → Dict ℕ
unfolding zero_degrees count_edges
compute_in_degrees s = count_edges (λ e. e.to) s.edges (zero_degrees (keys s.nodes))

unfoldable pub compute_out_degrees : Snapshot → Dict ℕ
unfolding zero_degrees count_edges
compute_out_degrees s = count_edges (λ e. e.from) s.edges (zero_degrees (keys s.nodes))

-- The loop of `packages`, over the nodes.
unfoldable pub collect_packages : Dict Node → List Str → List Str
unfolding add is_empty
collect_packages [] pkgs = pkgs
collect_packages ((k, n) ∷ ns) pkgs =
    collect_packages ns (if is_empty n.pkg then pkgs else add n.pkg pkgs)

unfoldable pub packages : Snapshot → List Str
unfolding collect_packages
packages s = collect_packages s.nodes []
