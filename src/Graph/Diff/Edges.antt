-- ===== src/Graph/Diff/Edges.antt =====
-- pkg/graph/delta.go: the edge maps, and what the loops over them append.
use toposcope.Base.{
  ◌≡◌, refl, sym, ap, ◌∙◌, subst, ◌↔◌, ◌⊎◌, inl, inr, true, false, ◌||◌, List, [], ◌∷◌, some, arith,
  Str, Dict, keys, In, lookup, has_key, insert, lookup-insert, has_key-insert, str_eq, str_eq_iff,
  NoDup, NoDup-keys-insert, In-iff_lookup, Bool-cases,
}
use toposcope.Graph.{Edge, edge_key}
use toposcope.Graph.Diff.{absent, fill_edges, edge_map}
use toposcope.Graph.Diff.Keys.{IsPlain, edge_key-injective}

-- What a loop over `m` appends: the values of the keys that `other` lacks.
pub In-absent :
    {V U : Type 0} (m : Dict V) (other : Dict U) (v : V)
    → In v (absent m other) ↔ ((k : Str) × In (k, v) m × (has_key k other ≡ false))
unfolding absent
In-absent [] other v = (λ h. elim h [ ], λ (k, i, e). elim i [ ])
In-absent ((j, w) ∷ m) other v = elim (Bool-cases (has_key j other)) [
  | inl e ↦ rw e (
    λ h. let (k, i, f) = (In-absent m other v).0 h in (k, inr i, f),
    λ (k, i, f). elim i [
      | inl p ↦ absurd (let q : k ≡ j = ap (λ x. x.0) p in cc)
      | inr r ↦ (In-absent m other v).1 (k, r, f)
    ],
  )
  | inr e ↦ rw e (
    λ h. elim h [
      | inl p ↦ (j, inl (ap (λ x. (j, x)) p), e)
      | inr r ↦ let (k, i, f) = (In-absent m other v).0 r in (k, inr i, f)
    ],
    λ (k, i, f). elim i [
      | inl p ↦ inl (ap (λ x. x.1) p)
      | inr r ↦ inr ((In-absent m other v).1 (k, r, f))
    ],
  )
]

pub NoDup-fill_edges :
    (es : List Edge) (m : Dict Edge) → NoDup (keys m) → NoDup (keys (fill_edges es m))
unfolding fill_edges
NoDup-fill_edges [] m d = d
NoDup-fill_edges (e ∷ es) m d =
    NoDup-fill_edges es (insert (edge_key e) e m) (NoDup-keys-insert (edge_key e) e m d)

pub NoDup-edge_map : (es : List Edge) → NoDup (keys (edge_map es))
unfolding edge_map
NoDup-edge_map es = NoDup-fill_edges es [] tt

has_key-fill_edges :
    (k : Str) (es : List Edge) (m : Dict Edge)
    → (has_key k (fill_edges es m) ≡ true)
      ↔ ((has_key k m ≡ true) ⊎ ((e : Edge) × In e es × (edge_key e ≡ k)))
unfolding fill_edges
has_key-fill_edges k [] m = (inl, λ h. elim h [ inl p ↦ p | inr (e, i, q) ↦ elim i [ ] ])
has_key-fill_edges k (e ∷ es) m = (
  λ h. elim ((has_key-fill_edges k es (insert (edge_key e) e m)).0 h) [
    | inl p ↦ old p
    | inr (d, i, q) ↦ inr (d, inr i, q)
  ],
  λ h. (has_key-fill_edges k es (insert (edge_key e) e m)).1 (elim h [
    | inl p ↦ inl (ground (arith, here))
    | inr (d, i, q) ↦ elim i [
      | inl p ↦ inl (ground (arith, here, str_eq_iff (edge_key e) k))
      | inr i' ↦ inr (d, i', q)
    ]
  ]),
)
  where
    here : has_key k (insert (edge_key e) e m) ≡ (str_eq (edge_key e) k || has_key k m)
    here = has_key-insert (edge_key e) k e m

    old :
        has_key k (insert (edge_key e) e m) ≡ true
        → (has_key k m ≡ true) ⊎ ((d : Edge) × In d (e ∷ es) × (edge_key d ≡ k))
    old p = elim (Bool-cases (str_eq (edge_key e) k)) [
      | inl q ↦ inr (e, inl refl, (str_eq_iff (edge_key e) k).0 q)
      | inr q ↦ inl (ground (arith, here))
    ]

-- The keys of the map are the keys of the edges.
pub has_key-edge_map :
    (k : Str) (es : List Edge)
    → (has_key k (edge_map es) ≡ true) ↔ ((e : Edge) × In e es × (edge_key e ≡ k))
unfolding edge_map has_key
has_key-edge_map k es =
    let both = has_key-fill_edges k es [] in
    (λ h. elim (both.0 h) [ inl p ↦ absurd (cc) | inr w ↦ w ], λ w. both.1 (inr w))

lookup-fill_edges :
    (k : Str) (es : List Edge) (m : Dict Edge) (e : Edge)
    → lookup k (fill_edges es m) ≡ some e
    → (lookup k m ≡ some e) ⊎ (In e es × (edge_key e ≡ k))
unfolding fill_edges
lookup-fill_edges k [] m e h = inl h
lookup-fill_edges k (d ∷ es) m e h = elim (lookup-fill_edges k es (insert (edge_key d) d m) e h) [
  | inr (i, q) ↦ inr (inr i, q)
  | inl p ↦ elim (Bool-cases (str_eq (edge_key d) k)) [
    | inl q ↦
        let same : d ≡ e = ground (arith, lookup-insert (edge_key d) k d m) in
        inr (inl (sym same), ap edge_key (sym same) ∙ (str_eq_iff (edge_key d) k).0 q)
    | inr q ↦ inl (ground (arith, lookup-insert (edge_key d) k d m))
  ]
]

-- What the map holds is one of the edges, under its own key.
pub lookup-edge_map :
    (k : Str) (es : List Edge) (e : Edge)
    → lookup k (edge_map es) ≡ some e
    → In e es × (edge_key e ≡ k)
unfolding edge_map lookup
lookup-edge_map k es e h = elim (lookup-fill_edges k es [] e h) [ inl p ↦ absurd (cc) | inr w ↦ w ]

pub In-edge_map :
    (k : Str) (es : List Edge) (e : Edge) → In (k, e) (edge_map es) → In e es × (edge_key e ≡ k)
In-edge_map k es e h =
    lookup-edge_map k es e ((In-iff_lookup k e (edge_map es) (NoDup-edge_map es)).0 h)

has_key-lookup :
    {V : Type 0} (k : Str) (m : Dict V) → has_key k m ≡ true → (v : V) × (lookup k m ≡ some v)
unfolding has_key lookup
has_key-lookup k [] h = absurd (cc)
has_key-lookup k ((j, v) ∷ m) h = elim (Bool-cases (str_eq j k)) [
  | inl e ↦ (v, rw e)
  | inr e ↦ let (w, p) = has_key-lookup k m (ground arith) in (w, rw e p)
]

-- An entry for every key of an edge.
pub edge_map_entry :
    (es : List Edge) (e : Edge) → In e es → (d : Edge) × In (edge_key e, d) (edge_map es)
edge_map_entry es e i =
    let k = edge_key e in
    let (d, p) = has_key-lookup k (edge_map es) ((has_key-edge_map k es).1 (e, i, refl)) in
    (d, (In-iff_lookup k d (edge_map es) (NoDup-edge_map es)).1 p)

not_key :
    (k : Str) (es : List Edge)
    → has_key k (edge_map es) ≡ false
    → (e : Edge) → In e es
    → edge_key e ≡ k
    → ⊥
not_key k es h e i q = cc ((has_key-edge_map k es).1 (e, i, q))

no_key :
    (k : Str) (es : List Edge)
    → ((e : Edge) → In e es → edge_key e ≡ k → ⊥)
    → has_key k (edge_map es) ≡ false
no_key k es h = elim (Bool-cases (has_key k (edge_map es))) [
  | inl p ↦ let (e, i, q) = (has_key-edge_map k es).0 p in absurd (h e i q)
  | inr p ↦ p
]

-- The difference of two edge lists, as the loops compute it.
abbrev pub edges_absent : List Edge → List Edge → List Edge
edges_absent es other = absent (edge_map es) (edge_map other)

-- An edge that is listed stands in the first list, and no edge of the second has its key.
pub edges_absent_sound :
    (es other : List Edge) (e : Edge)
    → In e (edges_absent es other)
    → In e es × ((d : Edge) → In d other → edge_key d ≡ edge_key e → ⊥)
edges_absent_sound es other e h =
    let (k, i, missing) = (In-absent (edge_map es) (edge_map other) e).0 h in
    let (member, key) = In-edge_map k es e i in
    (member, λ d j q. not_key k other missing d j (q ∙ key))

-- The key of an edge of the first list that no edge of the second has is the key of a listed edge.
pub edges_absent_complete :
    (es other : List Edge) (e : Edge)
    → In e es
    → ((d : Edge) → In d other → edge_key d ≡ edge_key e → ⊥)
    → (d : Edge) × In d (edges_absent es other) × (edge_key d ≡ edge_key e)
edges_absent_complete es other e i h =
    let (d, entry) = edge_map_entry es e i in
    (
      d,
      (In-absent (edge_map es) (edge_map other) d).1
          (edge_key e, entry, no_key (edge_key e) other h),
      (In-edge_map (edge_key e) es d entry).1,
    )

abbrev pub AllPlain : List Edge → Type 0
AllPlain es = (e : Edge) → In e es → IsPlain e

-- Without '|' in the labels, the loops compute the difference of the two sets of edges.
pub In-edges_absent :
    (es other : List Edge) (e : Edge)
    → AllPlain es
    → AllPlain other
    → In e (edges_absent es other) ↔ (In e es × (¬ In e other))
In-edges_absent es other e p q = (
  λ h. let (i, fresh) = edges_absent_sound es other e h in (i, λ j. fresh e j refl),
  λ (i, fresh).
      let (d, listed, key) = edges_absent_complete es other e i (λ x j same.
        fresh (subst (λ y. In y other) (edge_key-injective x e (q x j) (p e i) same) j)) in
      let member = (edges_absent_sound es other d listed).0 in
      subst (λ y. In y (edges_absent es other)) (edge_key-injective d e (p d member) (p e i) key)
        listed,
)
