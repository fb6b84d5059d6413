-- ===== src/Query/Search.antt =====
-- pkg/graphquery/query.go: one level of the breadth-first searches of ExtractSubgraph and EgoGraph.
pub mod Index
pub mod Level
pub mod Spec
use toposcope.Base.{Bool, List, [], ◌∷◌, ◌++◌, Str, Dict, get_or, contains, if◌then◌else◌}
use toposcope.Graph.{Edge}

-- `visited`, and the queue `next` that is being filled.
pub record Frontier : Type 0 where
  pub visited : List Str
  pub next : List Str

-- if !visited[k] { visited[k] = true; next = append(next, k) }
unfoldable pub offer : Str → Frontier → Frontier
unfolding contains
offer k f =
    if contains k f.visited
    then f
    else record { visited = f.visited ++ k ∷ []; next = f.next ++ k ∷ [] }

unfoldable pub offer_ends : (Edge → Str) → List Edge → Frontier → Frontier
unfolding offer
offer_ends end_of [] f = f
offer_ends end_of (e ∷ es) f = offer_ends end_of es (offer (end_of e) f)

module _ (deps rdeps : Bool) (forward backward : Dict (List Edge)) where
  -- The body of the loop over the queue. `deps` and `rdeps` are the tests on the direction, which
  -- ExtractSubgraph does not make: there both are true.
  unfoldable pub expand : Str → Frontier → Frontier
  unfolding offer_ends get_or
  expand node f =
      let f' = if deps then offer_ends (λ e. e.to) (get_or node forward []) f else f in
      if rdeps then offer_ends (λ e. e.from) (get_or node backward []) f' else f'

  unfoldable pub level : List Str → Frontier → Frontier
  unfolding expand
  level [] f = f
  level (node ∷ queue) f = level queue (expand node f)
