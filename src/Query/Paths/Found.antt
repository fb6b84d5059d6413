-- ===== src/Query/Paths/Found.antt =====
-- pkg/graphquery/query.go: FindPaths returns, and finds a path where there is one.
use toposcope.Base.{
  ℕ, ◌+◌, ◌≤◌, ◌<◌, ◌≡◌, refl, sym, ap, subst, ◌⊎◌, inl, inr, Bool, true, List, [], ◌∷◌, none, some,
  arith, Str, In, In-filter, lookup, lookup-eq-none, has_key, filter, count, length, Bool-cases,
  not,
}
use toposcope.Graph.{Edge, Snapshot}
use toposcope.Query.Paths.{
  PathResult, path_cap, resolve_nodes, Bfs, start, path_result, gather, search_paths, between,
  empty_result, find_paths,
}
use toposcope.Query.Paths.Walks.{IsWalk, StartsIn}
use toposcope.Query.Paths.Rounds.{Ordered, nothing, start-Ordered, length-start}
use toposcope.Query.Paths.Fuel.{bfs-ends, Knows, potential}
use toposcope.Query.Paths.Correct.{IsShortest, collect-Fills}

-- The paths of the result are shortest walks, not more than the cap, and there is one where a source
-- and a target are connected.
abbrev pub Answers : List Edge → List Str → List Str → ℕ → PathResult → Type 0
Answers es sources targets cap r =
    ((p : List Str) → In p r.paths → IsShortest es sources targets p)
    × (length r.paths ≤ cap)
    × ((q : List Str) (t : Str)
        → StartsIn sources q
        → In t targets
        → IsWalk es q t
        → 0 < length r.paths)

count-le-length : {A : Type 0} (p : A → Bool) (xs : List A) → count p xs ≤ length xs
count-le-length p [] = omega arith
count-le-length p (x ∷ xs) = ground (arith, count-le-length p xs)

module _ (es : List Edge) (sources targets : List Str) (b : Bfs) (o : Ordered es sources [] b) where
  -- Where the queue is empty, what a walk reaches has a distance.
  walk_reach :
      (x : Str) (q : List Str) (t : Str) (n : ℕ)
      → b.queue ≡ []
      → lookup x b.dist ≡ some n
      → IsWalk es (x ∷ q) t
      → has_key t b.dist ≡ true
  walk_reach x [] t n e h w = elim (Bool-cases (has_key t b.dist)) [
    | inl hit ↦ hit
    | inr miss ↦ absurd (cc ((lookup-eq-none t b.dist).1 miss, ap (λ y. lookup y b.dist) w, h))
  ]
  walk_reach x (y ∷ q) t n e h w = elim (o.seen x n h) [
    | inl i ↦ elim (subst (In (x, n)) e i) [ ]
    | inr f ↦ let (c, g, z) = f y w.0 in walk_reach y q t c e g w.1
  ]

  has_target :
      (q : List Str) (t : Str)
      → (b.queue ≡ []) ⊎ Knows targets (some 0) b
      → StartsIn sources q
      → In t targets
      → IsWalk es q t
      → (u : Str) × In u (filter (λ v. has_key v b.dist) targets)
  has_target [] t stop from it w = elim from [ ]
  has_target (x ∷ q) t (inl e) from it w = (
    t,
    (In-filter t (λ v. has_key v b.dist) targets).1
        (it, walk_reach x q t 0 e (o.source_zero x from) w),
  )
  has_target (x ∷ q) t (inr (u, i, n, h)) from it w = (
    u,
    (In-filter u (λ v. has_key v b.dist) targets).1 (
      i,
      elim (Bool-cases (has_key u b.dist)) [
        | inl hit ↦ hit
        | inr miss ↦ absurd (cc ((lookup-eq-none u b.dist).1 miss, h))
      ],
    ),
  )

module _ (s : Snapshot) (from_query to_query : Str) (cap : ℕ) (positive : 0 < cap) where
  gather_lem :
      (sources targets reached : List Str) (b : Bfs)
      → Ordered s.edges sources [] b
      → (b.queue ≡ []) ⊎ Knows targets (some 0) b
      → filter (λ v. has_key v b.dist) targets ≡ reached
      → (r : PathResult) × (gather s from_query to_query cap sources b reached ≡ some r)
        × Answers s.edges sources targets cap r
  unfolding gather empty_result path_result
  gather_lem sources targets [] b o stop e = (
    empty_result s from_query to_query,
    refl,
    (
      λ p i. elim i [ ],
      omega arith,
      λ q t from it w.
          let (u, i) = has_target s.edges sources targets b o q t stop from it w in
          elim (subst (In u) e i) [ ],
    ),
  )
  gather_lem sources targets (t ∷ ts) b o stop e =
      let (qs, run, c, z) =
        collect-Fills s.edges sources targets b o cap positive t ts
          (λ u i. (In-filter u (λ v. has_key v b.dist) targets).0 (subst (In u) (sym e) i)) in
      (path_result s from_query to_query qs, rw (gather, run) refl, (c.0, c.1, λ q t from it w. z))

  search_paths_lem :
      (sources targets : List Str)
      → (r : PathResult) × (search_paths s from_query to_query cap sources targets ≡ some r)
        × Answers s.edges sources targets cap r
  unfolding search_paths
  search_paths_lem sources targets =
      let b = start sources nothing in
      let start_potential : potential s.edges b ≤ length sources + length s.edges = omega (
        arith,
        length-start s.edges sources,
        count-le-length (λ e. not (has_key e.to b.dist)) s.edges,
      ) in
      let (end, run, o, stop) =
        bfs-ends s.edges sources targets (length sources + length s.edges) none b
          (start-Ordered s.edges sources) tt start_potential in
      let (r, e, a) =
        gather_lem sources targets (filter (λ v. has_key v end.dist) targets) end o stop refl in
      (r, rw (search_paths, run) e, a)

  between_lem :
      (sources targets : List Str)
      → (r : PathResult) × (between s from_query to_query cap sources targets ≡ some r)
        × Answers s.edges sources targets cap r
  unfolding between empty_result
  between_lem [] targets =
      (empty_result s from_query to_query, refl, (λ p i. elim i [ ], omega arith, unconnected))
    where
      unconnected :
          (q : List Str) (t : Str) → StartsIn [] q → In t targets → IsWalk s.edges q t → 0 < 0
      unconnected [] t from it w = elim from [ ]
      unconnected (x ∷ q) t from it w = elim from [ ]
  between_lem (f ∷ fs) [] = (
    empty_result s from_query to_query,
    refl,
    (λ p i. elim i [ ], omega arith, λ q t from it w. elim it [ ]),
  )
  between_lem (f ∷ fs) (t ∷ ts) = search_paths_lem (f ∷ fs) (t ∷ ts)

path_cap-pos : (n : ℕ) → 0 < path_cap n
unfolding path_cap
path_cap-pos n = ground arith

-- FindPaths returns. Each of its paths is a walk from a node that the first query names to one that
-- the second query names, and no walk from any node of the first query to this end is shorter. There
-- are not more paths than the cap (10 where it is 0), and there is one where any walk leads from the
-- first to the second.
pub find_paths_lem :
    (s : Snapshot) (from_query to_query : Str) (max_paths : ℕ)
    → (r : PathResult) × (find_paths s from_query to_query max_paths ≡ some r)
      × Answers s.edges
          (resolve_nodes s from_query)
          (resolve_nodes s to_query)
          (path_cap max_paths)
          r
unfolding find_paths
find_paths_lem s from_query to_query max_paths =
    between_lem s from_query to_query (path_cap max_paths) (path_cap-pos max_paths)
      (resolve_nodes s from_query) (resolve_nodes s to_query)
