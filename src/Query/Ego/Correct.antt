-- ===== src/Query/Ego/Correct.antt =====
-- pkg/graphquery/query.go: EgoGraph returns only what lies within `depth` steps, and all of it
-- unless it says that it was truncated.
use toposcope.Base.{
  ℕ, zero, suc, ◌+◌, ◌≤◌, ◌≡◌, refl, subst, ◌↔◌, ◌⊎◌, inl, inr, codes, Bool, true, false, List, [],
  ◌∷◌, some, arith, Str, Dict, keys, In, lookup, str_eq, str_eq_iff, Bool-cases, List-cases, leb,
  leb→le, length,
}
use toposcope.Graph.{Node, Edge, Snapshot}
use toposcope.Query.{SubgraphResult}
use toposcope.Query.Search.{Frontier, offer}
use toposcope.Query.Search.Index.{lookup-nodes_of_iff, In-edges_between}
use toposcope.Query.Search.Level.{offer-Extends, Extends}
use toposcope.Query.Search.Spec.{
  Within, IsLevel, IsLevel-start, IsLevel-next, IsLevel-done, Within-add, next_frontier,
  Within-none,
}
use toposcope.Query.Ego.{
  matches, match_keys, match_package, ego_roots, ego_search, wants_deps, wants_rdeps, node_cap,
  ego_result, ego_graph,
}

match_keys-Extends :
    (t : Str) (ks : List Str) (f : Frontier) → Extends [] f → Extends [] (match_keys t ks f)
unfolding match_keys
match_keys-Extends t [] f h = h
match_keys-Extends t (key ∷ ks) f h = elim (Bool-cases (matches t key)) [
  | inl e ↦ rw (e, match_keys) (match_keys-Extends t ks (offer key f) (offer-Extends [] key f h))
  | inr e ↦ rw (e, match_keys) (match_keys-Extends t ks f h)
]

match_package-Extends :
    (t : Str) (ns : Dict Node) (f : Frontier) → Extends [] f → Extends [] (match_package t ns f)
unfolding match_package
match_package-Extends t [] f h = h
match_package-Extends t ((key, n) ∷ ns) f h = elim (Bool-cases (str_eq n.pkg t)) [
  | inl e ↦
      rw (e, match_package) (match_package-Extends t ns (offer key f) (offer-Extends [] key f h))
  | inr e ↦ rw (e, match_package) (match_package-Extends t ns f h)
]

ego_roots-Extends : (s : Snapshot) (t : Str) → Extends [] (ego_roots s t)
unfolding ego_roots
ego_roots-Extends s t = pick first (match_keys-Extends t (keys s.nodes) _ refl)
  where
    first : Frontier
    first = match_keys t (keys s.nodes) (record { visited = []; next = [] })

    pick :
        (f : Frontier)
        → Extends [] f
        → Extends [] (elim f.next [ [] ↦ match_package t s.nodes f | _ ∷ _ ↦ f ])
    pick f h = elim (List-cases f.next) [
      | inl e ↦ rw e (match_package-Extends t s.nodes f h)
      | inr (x, rest, e) ↦ rw e h
    ]

module _ (deps rdeps : Bool) (cap : ℕ) (s : Snapshot) (start : List Str) where
  -- What a run of the loop may end with, from a state after n of `total` levels.
  record Ends (total : ℕ) (found : List Str × Bool) : Type 0 where
    sound : (k : Str) → In k found.0 → Within deps rdeps s start total k
    full : found.1 ≡ false → (k : Str) → Within deps rdeps s start total k → In k found.0
    capped : found.1 ≡ true → cap ≤ length found.0

  ego_search-Ends :
      (d n total : ℕ) (queue visited : List Str)
      → n + d ≡ total
      → IsLevel deps rdeps s start n queue visited
      → Ends total (ego_search deps rdeps cap s d queue visited)
  unfolding ego_search
  ego_search-Ends zero n total queue visited e h =
      let e' : n ≡ total = omega arith in
      subst (λ m. Ends m (visited, false)) e'
        (record { sound = h.sound; full = λ _. h.full; capped = λ t. absurd (cc) })
  ego_search-Ends (suc d) n total [] visited e h = record {
    sound = λ k i. Within-add deps rdeps s start (suc d) n (h.sound k i) total e;
    full = λ _ k w. IsLevel-done deps rdeps s start n visited h w;
    capped = λ t. absurd (cc);
  }
  ego_search-Ends (suc d) n total (node ∷ queue) visited e h =
      elim (Bool-cases (leb cap (length f.visited))) [
        | inl stop ↦ rw stop (record {
          sound =
              λ k i. Within-add deps rdeps s start d (suc n) (next.sound k i) total (omega arith);
          full = λ t. absurd (cc);
          capped = λ _. leb→le cap (length f.visited) stop;
        })
        | inr go ↦ rw go (ego_search-Ends d (suc n) total f.next f.visited (omega arith) next)
      ]
    where
      f : Frontier
      f = next_frontier deps rdeps s start (node ∷ queue) visited

      next : IsLevel deps rdeps s start (suc n) f.next f.visited
      next = IsLevel-next deps rdeps s start n (node ∷ queue) visited h

-- A node of the snapshot within `depth` steps, along the edges that the direction names, of a node
-- that the target matches.
abbrev pub InEgo : Snapshot → Str → ℕ → Str → Str → Type 0
InEgo s target depth direction =
    Within (wants_deps direction) (wants_rdeps direction) s (ego_roots s target).visited depth

module _ (s : Snapshot) (target : Str) (depth : ℕ) (direction : Str) where
  abbrev Reached : Str → Type 0
  Reached = InEgo s target depth direction

  -- What may be said of a result.
  abbrev Outcome : SubgraphResult → Type 0
  Outcome r =
      ((k : Str) (n : Node) → lookup k r.nodes ≡ some n → (lookup k s.nodes ≡ some n) × Reached k)
      × ((e : Edge) → In e r.edges → In e s.edges × Reached e.from × Reached e.to)
      × (r.truncated ≡ false
          → (k : Str) (n : Node) → lookup k s.nodes ≡ some n
          → Reached k
          → lookup k r.nodes ≡ some n)
      × (r.truncated ≡ false
          → (e : Edge) → In e s.edges
          → Reached e.from
          → Reached e.to
          → In e r.edges)

  ego_result-Outcome :
      (cap : ℕ) (queue : List Str) (found : List Str × Bool)
      → (ego_roots s target).visited ≡ queue
      → Ends
          (wants_deps direction)
          (wants_rdeps direction)
          cap
          s
          (ego_roots s target).visited
          depth
          found
      → Outcome (ego_result s queue found)
  unfolding ego_result lookup
  ego_result-Outcome cap [] found e h =
      let unreached = λ (k : Str) (w : Reached k).
        Within-none (wants_deps direction) (wants_rdeps direction) s (ego_roots s target).visited
          (λ j i. subst (In j) e i) w in
      (
        λ k n p. absurd (cc),
        λ d i. elim i [ ],
        λ _ k n p w. absurd (unreached k w),
        λ _ d i w w'. absurd (unreached d.from w),
      )
  ego_result-Outcome cap (x ∷ rest) found e h = (
    λ k n p. let (q, i) = (lookup-nodes_of_iff s.nodes k found.0 n).0 p in (q, h.sound k i),
    λ d i.
        let (j, a, b) = (In-edges_between found.0 s.edges d).0 i in
        (j, h.sound d.from a, h.sound d.to b),
    λ t k n p w. (lookup-nodes_of_iff s.nodes k found.0 n).1 (p, h.full t k w),
    λ t d i w w'. (In-edges_between found.0 s.edges d).1 (i, h.full t d.from w, h.full t d.to w'),
  )

-- The directions in which the edges of one kind are followed.
abbrev pub Follows : Str → Str → Type 0
Follows kind direction = (direction ≡ []) ⊎ ((direction ≡ codes "both") ⊎ (direction ≡ kind))

wants_deps_iff :
    (direction : Str) → (wants_deps direction ≡ true) ↔ Follows (codes "deps") direction
unfolding wants_deps str_eq
wants_deps_iff [] = (λ e. inl refl, λ h. refl)
wants_deps_iff (c ∷ d) =
    ground (arith, str_eq_iff (c ∷ d) (codes "deps"), str_eq_iff (c ∷ d) (codes "both"))

wants_rdeps_iff :
    (direction : Str) → (wants_rdeps direction ≡ true) ↔ Follows (codes "rdeps") direction
unfolding wants_rdeps str_eq
wants_rdeps_iff [] = (λ e. inl refl, λ h. refl)
wants_rdeps_iff (c ∷ d) =
    ground (arith, str_eq_iff (c ∷ d) (codes "rdeps"), str_eq_iff (c ∷ d) (codes "both"))

-- Every node and edge of the result is one of the snapshot and lies within `depth` steps of the
-- target in the direction asked for, and if the result is not marked as truncated, then every such
-- node, and every edge between such nodes, is in the result. Edges are followed from source to target for the directions
-- "deps", "both" and "", and from target to source for "rdeps", "both" and "".
pub ego_graph_lem :
    (s : Snapshot) (target : Str) (depth : ℕ) (direction : Str) (max_nodes : ℕ)
    → ((k : Str) (n : Node)
        → lookup k (ego_graph s target depth direction max_nodes).nodes ≡ some n
        → (lookup k s.nodes ≡ some n) × InEgo s target depth direction k)
      × ((e : Edge)
          → In e (ego_graph s target depth direction max_nodes).edges
          → In e s.edges
            × InEgo s target depth direction e.from
            × InEgo s target depth direction e.to)
      × ((ego_graph s target depth direction max_nodes).truncated ≡ false
          → (k : Str) (n : Node) → lookup k s.nodes ≡ some n
          → InEgo s target depth direction k
          → lookup k (ego_graph s target depth direction max_nodes).nodes ≡ some n)
      × ((ego_graph s target depth direction max_nodes).truncated ≡ false
          → (e : Edge) → In e s.edges
          → InEgo s target depth direction e.from
          → InEgo s target depth direction e.to
          → In e (ego_graph s target depth direction max_nodes).edges)
      × ((wants_deps direction ≡ true) ↔ Follows (codes "deps") direction)
      × ((wants_rdeps direction ≡ true) ↔ Follows (codes "rdeps") direction)
unfolding ego_graph
ego_graph_lem s target depth direction max_nodes =
    let f = ego_roots s target in
    let deps = wants_deps direction in
    let rdeps = wants_rdeps direction in
    let same = ego_roots-Extends s target in
    let out =
      ego_result-Outcome s target depth direction (node_cap max_nodes) f.next
        (ego_search deps rdeps (node_cap max_nodes) s depth f.next f.visited) same
        (ego_search-Ends deps rdeps (node_cap max_nodes) s f.visited depth 0 depth f.next f.visited
          (omega arith)
          (subst (λ q. IsLevel deps rdeps s f.visited 0 q f.visited) same
            (IsLevel-start deps rdeps s f.visited))) in
    (out.0, out.1, out.2, out.3, wants_deps_iff direction, wants_rdeps_iff direction)
