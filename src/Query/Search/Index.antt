-- ===== src/Query/Search/Index.antt =====
-- pkg/graphquery/query.go: what the adjacency maps, the induced nodes and the induced edges hold.
use toposcope.Base.{
  ◌≡◌, refl, ◌↔◌, ◌⊎◌, inl, inr, true, false, ◌&&◌, List, [], ◌∷◌, ◌++◌, none, some, arith, Str,
  Dict, In, In-append, In-filter, get_or, insert, get_or-insert, lookup, contains, contains_iff,
  str_eq, str_eq_iff, if◌then◌else◌, Bool-cases,
}
use toposcope.Graph.{Node, Edge, Snapshot}
use toposcope.Query.{fill_index, fwd, rev, nodes_of, edges_between}

In-fill_index :
    (end_of : Edge → Str) (k : Str) (e : Edge) (es : List Edge) (m : Dict (List Edge))
    → In e (get_or k (fill_index end_of es m) [])
      ↔ (In e (get_or k m []) ⊎ In e es × (end_of e ≡ k))
unfolding fill_index
In-fill_index end_of k e [] m = (inl, λ h. elim h [ inl p ↦ p | inr p ↦ elim p.0 [ ] ])
In-fill_index end_of k e (d ∷ es) m =
    let both = In-fill_index end_of k e es m' in
    elim (Bool-cases (str_eq (end_of d) k)) [
      | inl here ↦
          let key = (str_eq_iff (end_of d) k).0 here in
          (
            λ h. elim (both.0 h) [
              | inl p ↦ elim (grown.0 (rw (here_eq here key) at p)) [
                | inl q ↦ inl q
                | inr q ↦ elim q [ inl x ↦ inr (inl x, ap_end x key) | inr x ↦ elim x [ ] ]
              ]
              | inr (i, q) ↦ inr (inr i, q)
            ],
            λ h. both.1 (elim h [
              | inl p ↦ inl (rw (here_eq here key) (grown.1 (inl p)))
              | inr (i, q) ↦ elim i [
                | inl x ↦ inl (rw (here_eq here key) (grown.1 (inr (inl x))))
                | inr j ↦ inr (j, q)
              ]
            ]),
          )
      | inr away ↦ (
        λ h. elim (both.0 h) [ inl p ↦ inl (rw (away_eq away) at p) | inr (i, q) ↦ inr (inr i, q) ],
        λ h. both.1 (elim h [
          | inl p ↦ inl (rw (away_eq away) p)
          | inr (i, q) ↦ elim i [ inl x ↦ absurd (clash x q away) | inr j ↦ inr (j, q) ]
        ]),
      )
    ]
  where
    old : List Edge
    old = get_or (end_of d) m []

    m' : Dict (List Edge)
    m' = insert (end_of d) (old ++ d ∷ []) m

    grown : In e (get_or k m [] ++ d ∷ []) ↔ (In e (get_or k m []) ⊎ In e (d ∷ []))
    grown = In-append e (get_or k m []) (d ∷ [])

    here_eq : str_eq (end_of d) k ≡ true → end_of d ≡ k → get_or k m' [] ≡ get_or k m [] ++ d ∷ []
    here_eq h q = ground (arith, get_or-insert (end_of d) k (old ++ d ∷ []) [] m)

    away_eq : str_eq (end_of d) k ≡ false → get_or k m' [] ≡ get_or k m []
    away_eq h = ground (arith, get_or-insert (end_of d) k (old ++ d ∷ []) [] m)

    ap_end : e ≡ d → end_of d ≡ k → end_of e ≡ k
    ap_end x q = cc

    clash : e ≡ d → end_of e ≡ k → str_eq (end_of d) k ≡ false → ⊥
    clash x q h = let p : end_of d ≡ k = cc in cc ((str_eq_iff (end_of d) k).1 p)

-- The list of a key in `fwd` holds the edges that start there.
pub In-fwd :
    (s : Snapshot) (k : Str) (e : Edge) → In e (get_or k (fwd s) []) ↔ (In e s.edges × (e.from ≡ k))
unfolding fwd get_or
In-fwd s k e =
    let both = In-fill_index (λ d. d.from) k e s.edges [] in
    (λ h. elim (both.0 h) [ inl p ↦ elim p [ ] | inr p ↦ p ], λ h. both.1 (inr h))

-- The list of a key in `rev` holds the edges that end there.
pub In-rev :
    (s : Snapshot) (k : Str) (e : Edge) → In e (get_or k (rev s) []) ↔ (In e s.edges × (e.to ≡ k))
unfolding rev get_or
In-rev s k e =
    let both = In-fill_index (λ d. d.to) k e s.edges [] in
    (λ h. elim (both.0 h) [ inl p ↦ elim p [ ] | inr p ↦ p ], λ h. both.1 (inr h))

-- A node is kept exactly if its key is among the visited ones.
pub lookup-nodes_of :
    (nodes : Dict Node) (k : Str) (ks : List Str)
    → lookup k (nodes_of nodes ks) ≡ (if contains k ks then lookup k nodes else none)
unfolding nodes_of contains lookup
lookup-nodes_of nodes k [] = refl
lookup-nodes_of nodes k (j ∷ ks) = ground (arith, str_eq_iff j k, lookup-nodes_of nodes k ks)

pub lookup-nodes_of_iff :
    (nodes : Dict Node) (k : Str) (ks : List Str) (n : Node)
    → (lookup k (nodes_of nodes ks) ≡ some n) ↔ ((lookup k nodes ≡ some n) × In k ks)
lookup-nodes_of_iff nodes k ks n = ground (arith, lookup-nodes_of nodes k ks, contains_iff k ks)

-- An edge is kept exactly if both its ends are among the visited keys.
pub In-edges_between :
    (visited : List Str) (es : List Edge) (e : Edge)
    → In e (edges_between visited es) ↔ (In e es × In e.from visited × In e.to visited)
unfolding edges_between
In-edges_between visited es e = ground (
  arith,
  In-filter e (λ d. contains d.from visited && contains d.to visited) es,
  contains_iff e.from visited,
  contains_iff e.to visited,
)
