-- ===== src/Query/Extract/Correct.antt =====
-- pkg/graphquery/query.go: ExtractSubgraph returns what lies within `depth` steps of the roots.
use toposcope.Base.{
  ℕ, zero, suc, ◌+◌, ◌≡◌, refl, sym, subst, ◌∙◌, ◌↔◌, ◌⊎◌, inl, inr, true, List, [], ◌∷◌, some,
  arith, Str, keys, In, lookup, has_prefix, str_eq, str_eq_iff, Bool-cases, has_prefix_iff,
  append-nil,
}
use toposcope.Graph.{Node, Edge, Snapshot}
use toposcope.Query.Search.{Frontier, offer}
use toposcope.Query.Search.Index.{lookup-nodes_of_iff, In-edges_between}
use toposcope.Query.Search.Level.{In-offer, offer-Extends, Extends}
use toposcope.Query.Search.Spec.{
  Within, IsLevel, IsLevel-start, IsLevel-next, IsLevel-done, Within-add, next_frontier,
}
use toposcope.Query.Extract.{is_match, match_root, match_roots, search, extract_subgraph}

-- A node key that begins with one of the roots.
abbrev pub IsRoot : Snapshot → List Str → Str → Type 0
IsRoot s roots k = In k (keys s.nodes) × ((r : Str) × In r roots × (has_prefix k r ≡ true))

matches : (k r : Str) → (is_match r k ≡ true) ↔ (has_prefix k r ≡ true)
unfolding is_match
matches k r = elim (Bool-cases (str_eq k r)) [
  | inl e ↦
      rw e (λ _. (has_prefix_iff k r).1 ([], (str_eq_iff k r).0 e ∙ sym (append-nil r)), λ _. refl)
  | inr e ↦ rw e (λ h. h, λ h. h)
]

In-match_root :
    (k r : Str) (ks : List Str) (f : Frontier)
    → In k (match_root r ks f).visited ↔ (In k f.visited ⊎ In k ks × (has_prefix k r ≡ true))
unfolding match_root
In-match_root k r [] f = (inl, λ h. elim h [ inl p ↦ p | inr p ↦ elim p.0 [ ] ])
In-match_root k r (key ∷ ks) f = elim (Bool-cases (is_match r key)) [
  | inl e ↦
      let rest = In-match_root k r ks (offer key f) in
      let first = In-offer k key f in
      rw (e, match_root)
        (
          λ h. elim (rest.0 h) [
            | inl p ↦ elim (first.0 p) [
              | inl q ↦ inl q
              | inr q ↦
                  inr (inl q, subst (λ x. has_prefix x r ≡ true) (sym q) ((matches key r).0 e))
            ]
            | inr (i, q) ↦ inr (inr i, q)
          ],
          λ h. rest.1 (elim h [
            | inl p ↦ inl (first.1 (inl p))
            | inr (i, q) ↦ elim i [ inl x ↦ inl (first.1 (inr x)) | inr j ↦ inr (j, q) ]
          ]),
        )
  | inr e ↦
      let rest = In-match_root k r ks f in
      rw (e, match_root)
        (
          λ h. elim (rest.0 h) [ inl p ↦ inl p | inr (i, q) ↦ inr (inr i, q) ],
          λ h. rest.1 (elim h [
            | inl p ↦ inl p
            | inr (i, q) ↦ elim i [
              | inl x ↦
                  let t = (matches key r).1 (subst (λ y. has_prefix y r ≡ true) x q) in absurd (cc)
              | inr j ↦ inr (j, q)
            ]
          ]),
        )
]

In-match_roots :
    (k : Str) (roots ks : List Str) (f : Frontier)
    → In k (match_roots roots ks f).visited
      ↔ (In k f.visited ⊎ In k ks × ((r : Str) × In r roots × (has_prefix k r ≡ true)))
unfolding match_roots
In-match_roots k [] ks f = (inl, λ h. elim h [ inl p ↦ p | inr (i, (r, j, q)) ↦ elim j [ ] ])
In-match_roots k (r ∷ roots) ks f =
    let rest = In-match_roots k roots ks (match_root r ks f) in
    let first = In-match_root k r ks f in
    (
      λ h. elim (rest.0 h) [
        | inl p ↦ elim (first.0 p) [ inl q ↦ inl q | inr (i, q) ↦ inr (i, (r, inl refl, q)) ]
        | inr (i, (x, j, q)) ↦ inr (i, (x, inr j, q))
      ],
      λ h. rest.1 (elim h [
        | inl p ↦ inl (first.1 (inl p))
        | inr (i, (x, j, q)) ↦ elim j [
          | inl e ↦ inl (first.1 (inr (i, subst (λ y. has_prefix k y ≡ true) e q)))
          | inr j' ↦ inr (i, (x, j', q))
        ]
      ]),
    )

match_root-Extends :
    (r : Str) (ks : List Str) (f : Frontier) → Extends [] f → Extends [] (match_root r ks f)
unfolding match_root
match_root-Extends r [] f h = h
match_root-Extends r (key ∷ ks) f h = elim (Bool-cases (is_match r key)) [
  | inl e ↦ rw (e, match_root) (match_root-Extends r ks (offer key f) (offer-Extends [] key f h))
  | inr e ↦ rw (e, match_root) (match_root-Extends r ks f h)
]

match_roots-Extends :
    (roots ks : List Str) (f : Frontier) → Extends [] f → Extends [] (match_roots roots ks f)
unfolding match_roots
match_roots-Extends [] ks f h = h
match_roots-Extends (r ∷ roots) ks f h =
    match_roots-Extends roots ks (match_root r ks f) (match_root-Extends r ks f h)

-- The keys from which the search starts.
abbrev pub start_keys : Snapshot → List Str → List Str
start_keys s roots = (match_roots roots (keys s.nodes) (record { visited = []; next = [] })).visited

-- The search starts from the node keys that begin with a root.
pub In-start_keys :
    (s : Snapshot) (roots : List Str) (k : Str) → In k (start_keys s roots) ↔ IsRoot s roots k
In-start_keys s roots k =
    let both = In-match_roots k roots (keys s.nodes) (record { visited = []; next = [] }) in
    (λ h. elim (both.0 h) [ inl p ↦ elim p [ ] | inr w ↦ w ], λ w. both.1 (inr w))

module _ (s : Snapshot) (start : List Str) where
  In-search :
      (d n total : ℕ) (queue visited : List Str)
      → n + d ≡ total
      → IsLevel true true s start n queue visited
      → (k : Str) → In k (search s d queue visited) ↔ Within true true s start total k
  unfolding search
  In-search zero n total queue visited e h k =
      let e' : n ≡ total = omega arith in
      subst (λ m. In k visited ↔ Within true true s start m k) e' (h.sound k, h.full k)
  In-search (suc d) n total [] visited e h k = (
    λ i. Within-add true true s start (suc d) n (h.sound k i) total e,
    λ w. IsLevel-done true true s start n visited h w,
  )
  In-search (suc d) n total (node ∷ queue) visited e h k =
      let f = next_frontier true true s start (node ∷ queue) visited in
      In-search d (suc n) total f.next f.visited (omega arith)
        (IsLevel-next true true s start n (node ∷ queue) visited h) k

-- The nodes of the result are the nodes of the snapshot within `depth` steps, along edges in either
-- direction, of a node whose key begins with a root; its edges are the edges between such keys.
pub extract_subgraph_lem :
    (s : Snapshot) (roots : List Str) (depth : ℕ)
    → ((k : Str) (n : Node)
        → (lookup k (extract_subgraph s roots depth).nodes ≡ some n)
          ↔ ((lookup k s.nodes ≡ some n) × Within true true s (start_keys s roots) depth k))
      × ((e : Edge)
          → In e (extract_subgraph s roots depth).edges ↔ (
              In e s.edges
              × Within true true s (start_keys s roots) depth e.from
              × Within true true s (start_keys s roots) depth e.to))
unfolding extract_subgraph
extract_subgraph_lem s roots depth = (
  λ k n.
      let both = lookup-nodes_of_iff s.nodes k visited n in
      (λ h. let (p, i) = both.0 h in (p, (reach k).0 i), λ (p, w). both.1 (p, (reach k).1 w)),
  λ e.
      let both = In-edges_between visited s.edges e in
      (
        λ h. let (i, a, b) = both.0 h in (i, (reach e.from).0 a, (reach e.to).0 b),
        λ (i, a, b). both.1 (i, (reach e.from).1 a, (reach e.to).1 b),
      ),
)
  where
    begin : Frontier
    begin = match_roots roots (keys s.nodes) (record { visited = []; next = [] })

    same : begin.visited ≡ begin.next
    same = match_roots-Extends roots (keys s.nodes) (record { visited = []; next = [] }) refl

    visited : List Str
    visited = search s depth begin.next begin.visited

    reach : (k : Str) → In k visited ↔ Within true true s (start_keys s roots) depth k
    reach k =
        In-search s begin.visited depth 0 depth begin.next begin.visited (omega arith)
          (subst (λ q. IsLevel true true s begin.visited 0 q begin.visited) same
            (IsLevel-start true true s begin.visited))
          k
