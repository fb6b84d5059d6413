-- ===== src/Query/Cap/Laws.antt =====
-- pkg/graphquery/query.go: what CapGraph keeps.
use toposcope.Base.{
  ℕ, suc, ◌+◌, ◌≤◌, ◌<◌, ◌≡◌, refl, ap, subst, inl, inr, ◌↔◌, true, false, List, [], ◌∷◌, some,
  arith, Str, Dict, bump, get_or, get_or-insert, lookup, lookup-eq-none, has_key_iff, keys, In,
  NoDup, count, length, leb, str_eq, str_eq_iff, if◌then◌else◌, Bool-cases, Option-cases,
}
use toposcope.Base.Sort.{SortSlice, Sorts}
use toposcope.Graph.{Node, Edge, Snapshot}
use toposcope.Query.{SubgraphResult, nodes_of, edges_between}
use toposcope.Query.Search.Index.{lookup-nodes_of_iff, In-edges_between}
use toposcope.Query.Rank.{keep}
use toposcope.Query.Rank.Laws.{keep-subset, length-keep, keep-NoDup, keep-highest}
use toposcope.Query.Cap.{fill_degrees, cap_graph}

-- The ends of edges at a node; an edge from the node to itself counts twice.
abbrev pub degree_of : Str → List Edge → ℕ
degree_of k es = count (λ e. str_eq e.from k) es + count (λ e. str_eq e.to k) es

get_or-bump :
    (j k : Str) (m : Dict ℕ) → get_or k (bump j m) 0 ≡ get_or k m 0 + (if str_eq j k then 1 else 0)
unfolding bump
get_or-bump j k m = elim (Bool-cases (str_eq j k)) [
  | inl e ↦ let same = (str_eq_iff j k).0 e in rw (get_or-insert, e, same) refl
  | inr e ↦ rw (get_or-insert, e) (omega arith)
]

get_or-fill_degrees :
    (k : Str) (es : List Edge) (m : Dict ℕ)
    → get_or k (fill_degrees es m) 0 ≡ get_or k m 0 + degree_of k es
unfolding fill_degrees
get_or-fill_degrees k [] m = omega arith
get_or-fill_degrees k (e ∷ es) m = omega (
  arith,
  get_or-fill_degrees k es (bump e.to (bump e.from m)),
  get_or-bump e.to k (bump e.from m),
  get_or-bump e.from k m,
)

degree_eq : (k : Str) (es : List Edge) → get_or k (fill_degrees es []) 0 ≡ degree_of k es
unfolding get_or
degree_eq k es = omega (arith, get_or-fill_degrees k es [])

length-keys : {V : Type 0} (m : Dict V) → length (keys m) ≡ length m
length-keys [] = refl
length-keys ((k, v) ∷ m) = ap suc (length-keys m)

keys-nodes_of :
    (nodes : Dict Node) (ks : List Str)
    → ((k : Str) → In k ks → In k (keys nodes))
    → keys (nodes_of nodes ks) ≡ ks
unfolding nodes_of
keys-nodes_of nodes [] h = refl
keys-nodes_of nodes (k ∷ ks) h = elim (Option-cases (lookup k nodes)) [
  | inl gone ↦
      absurd (cc ((has_key_iff k nodes).1 (h k (inl refl)), (lookup-eq-none k nodes).0 gone))
  | inr (n, e) ↦ rw (nodes_of, e) (ap (λ x. k ∷ x) (keys-nodes_of nodes ks (λ j i. h j (inr i))))
]

-- Where the snapshot has more nodes than the cap, the result has as many as the cap, each under one key and
-- as in the snapshot; the edges are those with both ends kept; and no node that is left out has a higher
-- degree than a node that is kept.
abbrev pub IsCapped : Snapshot → ℕ → SubgraphResult → Type 0
IsCapped s cap r =
    (length r.nodes ≡ cap)
    × NoDup (keys r.nodes)
    × ((k : Str) (n : Node) → lookup k r.nodes ≡ some n → lookup k s.nodes ≡ some n)
    × ((e : Edge)
        → In e r.edges ↔ (In e s.edges × In e.from (keys r.nodes) × In e.to (keys r.nodes)))
    × ((k j : Str)
        → In k (keys r.nodes)
        → In j (keys s.nodes)
        → ¬ In j (keys r.nodes)
        → degree_of j s.edges ≤ degree_of k s.edges)

-- A snapshot within the cap is returned whole. Of a larger one, whose keys are distinct, the result has as
-- many nodes as the cap, under distinct keys and as in the snapshot, and the edges with both ends among
-- them; no node that is left out has a higher degree than one that is kept.
pub cap_graph_lem :
    (sort : SortSlice) (laws : Sorts sort) (s : Snapshot) (max_nodes : ℕ)
    → NoDup (keys s.nodes)
    → ((length s.nodes ≤ max_nodes)
        → cap_graph sort s max_nodes
          ≡ record { nodes = s.nodes; edges = s.edges; truncated = false })
      × ((max_nodes < length s.nodes) → IsCapped s max_nodes (cap_graph sort s max_nodes))
unfolding cap_graph
cap_graph_lem sort laws s cap d = (
  λ h. let e : leb (length s.nodes) cap ≡ true = ground (arith, h) in rw (cap_graph, e) refl,
  λ h. let e : leb (length s.nodes) cap ≡ false = ground (arith, h) in rw (cap_graph, e) (capped h),
)
  where
    degree : Dict ℕ
    degree = fill_degrees s.edges []

    kept : List Str
    kept = keep sort cap degree (keys s.nodes)

    ks : keys (nodes_of s.nodes kept) ≡ kept
    ks = keys-nodes_of s.nodes kept (λ k i. keep-subset sort laws cap degree (keys s.nodes) k i)

    capped :
        cap < length s.nodes
        → IsCapped s cap (record {
          nodes = nodes_of s.nodes kept;
          edges = edges_between kept s.edges;
          truncated = false;
        })
    capped h = rw ks (
      (let a = length-keys (nodes_of s.nodes kept) in
          let b = ap length ks in
          let c = length-keep sort laws cap degree (keys s.nodes) in
          let f = length-keys s.nodes in omega (arith, a, b, c, f, h)),
      keep-NoDup sort laws cap degree (keys s.nodes) d,
      λ k n l. ((lookup-nodes_of_iff s.nodes k kept n).0 l).0,
      λ x. In-edges_between kept s.edges x,
      λ k j i m out.
          subst (λ z. z ≤ degree_of k s.edges) (degree_eq j s.edges)
            (subst (λ z. get_or j degree 0 ≤ z) (degree_eq k s.edges)
              (keep-highest sort laws cap degree (keys s.nodes) k j i m out)),
    )
