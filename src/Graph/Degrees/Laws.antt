-- ===== src/Graph/Degrees/Laws.antt =====
-- pkg/graph/types.go: what the degree maps count.
use toposcope.Base.{
  ℕ, ◌+◌, ◌≡◌, refl, ◌↔◌, ◌⊎◌, inl, inr, true, false, ◌||◌, List, [], ◌∷◌, arith, length, count,
  Str, Dict, keys, values, get_or, has_key, insert, bump, str_eq, str_eq_iff, get_or-insert,
  has_key-insert, contains, contains-add, contains_iff, add, NoDup, NoDup-add, In, is_empty,
  Bool-cases,
}
use toposcope.Graph.{Node, Edge, Snapshot}
use toposcope.Graph.Degrees.{
  zero_degrees, count_edges, compute_in_degrees, compute_out_degrees, collect_packages, packages,
}

-- The sum of the counts of a degree map.
abbrev pub total : Dict ℕ → ℕ
total [] = 0
total ((k, n) ∷ m) = n + total m

get_or-zero_degrees : (k : Str) (ks : List Str) → get_or k (zero_degrees ks) 0 ≡ 0
unfolding get_or zero_degrees
get_or-zero_degrees k [] = refl
get_or-zero_degrees k (j ∷ ks) = ground (arith, get_or-zero_degrees k ks)

has_key-zero_degrees : (k : Str) (ks : List Str) → has_key k (zero_degrees ks) ≡ contains k ks
unfolding has_key zero_degrees contains
has_key-zero_degrees k [] = refl
has_key-zero_degrees k (j ∷ ks) = ground (arith, has_key-zero_degrees k ks)

total-zero_degrees : (ks : List Str) → total (zero_degrees ks) ≡ 0
unfolding zero_degrees
total-zero_degrees [] = refl
total-zero_degrees (j ∷ ks) = omega (arith, total-zero_degrees ks)

total-insert : (k : Str) (v : ℕ) (m : Dict ℕ) → total (insert k v m) + get_or k m 0 ≡ total m + v
unfolding insert get_or
total-insert k v [] = omega arith
total-insert k v ((j, n) ∷ m) = ground (arith, total-insert k v m)

total-bump : (k : Str) (m : Dict ℕ) → total (bump k m) ≡ total m + 1
unfolding bump
total-bump k m = omega (arith, total-insert k (get_or k m 0 + 1) m)

module _ (end_of : Edge → Str) where
  get_or-count_edges :
      (k : Str) (es : List Edge) (m : Dict ℕ)
      → get_or k (count_edges end_of es m) 0 ≡ get_or k m 0 + count (λ e. str_eq (end_of e) k) es
  unfolding count_edges bump
  get_or-count_edges k [] m = omega arith
  get_or-count_edges k (e ∷ es) m = ground (
    arith,
    get_or-count_edges k es (bump (end_of e) m),
    get_or-insert (end_of e) k (get_or (end_of e) m 0 + 1) 0 m,
    str_eq_iff (end_of e) k,
  )

  has_key-count_edges :
      (k : Str) (es : List Edge) (m : Dict ℕ)
      → (has_key k (count_edges end_of es m) ≡ true)
        ↔ ((has_key k m ≡ true) ⊎ ((e : Edge) × In e es × (end_of e ≡ k)))
  unfolding count_edges bump
  has_key-count_edges k [] m = (inl, λ h. elim h [ inl p ↦ p | inr (e, i, q) ↦ elim i [ ] ])
  has_key-count_edges k (e ∷ es) m = (
    λ h. elim ((has_key-count_edges k es (bump (end_of e) m)).0 h) [
      | inl p ↦ old p
      | inr (d, i, q) ↦ inr (d, inr i, q)
    ],
    λ h. (has_key-count_edges k es (bump (end_of e) m)).1 (elim h [
      | inl p ↦ inl (ground (arith, here))
      | inr (d, i, q) ↦ elim i [
        | inl p ↦ inl (ground (arith, here, str_eq_iff (end_of e) k))
        | inr i' ↦ inr (d, i', q)
      ]
    ]),
  )
    where
      here : has_key k (bump (end_of e) m) ≡ (str_eq (end_of e) k || has_key k m)
      here = has_key-insert (end_of e) k (get_or (end_of e) m 0 + 1) m

      old :
          has_key k (bump (end_of e) m) ≡ true
          → (has_key k m ≡ true) ⊎ ((d : Edge) × In d (e ∷ es) × (end_of d ≡ k))
      old p = elim (Bool-cases (str_eq (end_of e) k)) [
        | inl q ↦ inr (e, inl refl, (str_eq_iff (end_of e) k).0 q)
        | inr q ↦ inl (ground (arith, here))
      ]

  total-count_edges :
      (es : List Edge) (m : Dict ℕ) → total (count_edges end_of es m) ≡ total m + length es
  unfolding count_edges
  total-count_edges [] m = omega arith
  total-count_edges (e ∷ es) m =
      omega (arith, total-count_edges es (bump (end_of e) m), total-bump (end_of e) m)

-- The entry of a key in the in-degree map is the number of edges that end at it, and the keys of
-- the map are those of the nodes and the ends of the edges.
pub compute_in_degrees_lem :
    (s : Snapshot) (k : Str)
    → (get_or k (compute_in_degrees s) 0 ≡ count (λ e. str_eq e.to k) s.edges)
      × ((has_key k (compute_in_degrees s) ≡ true)
          ↔ (In k (keys s.nodes) ⊎ ((e : Edge) × In e s.edges × (e.to ≡ k))))
unfolding compute_in_degrees
compute_in_degrees_lem s k =
    let start = zero_degrees (keys s.nodes) in
    let ends = λ (e : Edge). e.to in
    (
      omega (arith, get_or-count_edges ends k s.edges start, get_or-zero_degrees k (keys s.nodes)),
      ground (
        arith,
        has_key-count_edges ends k s.edges start,
        has_key-zero_degrees k (keys s.nodes),
        contains_iff k (keys s.nodes),
      ),
    )

-- The entry of a key in the out-degree map is the number of edges that start at it.
pub compute_out_degrees_lem :
    (s : Snapshot) (k : Str)
    → get_or k (compute_out_degrees s) 0 ≡ count (λ e. str_eq e.from k) s.edges
unfolding compute_out_degrees
compute_out_degrees_lem s k =
    let start = zero_degrees (keys s.nodes) in
    omega (
      arith,
      get_or-count_edges (λ e. e.from) k s.edges start,
      get_or-zero_degrees k (keys s.nodes),
    )

-- Both degree maps add up to the number of edges, so to the same number.
pub total-degrees :
    (s : Snapshot)
    → (total (compute_in_degrees s) ≡ length s.edges)
      × (total (compute_out_degrees s) ≡ length s.edges)
unfolding compute_in_degrees compute_out_degrees
total-degrees s =
    let start = zero_degrees (keys s.nodes) in
    (
      omega (arith, total-count_edges (λ e. e.to) s.edges start, total-zero_degrees (keys s.nodes)),
      omega
          (arith, total-count_edges (λ e. e.from) s.edges start, total-zero_degrees (keys s.nodes)),
    )

collect_packages_iff :
    (p : Str) (ns : Dict Node) (pkgs : List Str)
    → (contains p (collect_packages ns pkgs) ≡ true) ↔ (
        (contains p pkgs ≡ true)
        ⊎ ((n : Node) × In n (values ns) × (n.pkg ≡ p) × (is_empty p ≡ false)))
unfolding collect_packages
collect_packages_iff p [] pkgs = (inl, λ h. elim h [ inl q ↦ q | inr (n, i, q, z) ↦ elim i [ ] ])
collect_packages_iff p ((k, n) ∷ ns) pkgs = elim (Bool-cases (is_empty n.pkg)) [
  | inl none_given ↦ rw none_given (
    λ h. elim ((collect_packages_iff p ns pkgs).0 h) [
      | inl q ↦ inl q
      | inr (d, i, q, z) ↦ inr (d, inr i, q, z)
    ],
    λ h. (collect_packages_iff p ns pkgs).1 (elim h [
      | inl q ↦ inl q
      | inr (d, i, q, z) ↦ elim i [
        | inl e ↦ absurd (clash d e q z none_given)
        | inr i' ↦ inr (d, i', q, z)
      ]
    ]),
  )
  | inr given ↦ rw given (
    λ h. elim ((collect_packages_iff p ns (add n.pkg pkgs)).0 h) [
      | inl q ↦ new given q
      | inr (d, i, q, z) ↦ inr (d, inr i, q, z)
    ],
    λ h. (collect_packages_iff p ns (add n.pkg pkgs)).1 (elim h [
      | inl q ↦ inl (ground (arith, contains-add p n.pkg pkgs))
      | inr (d, i, q, z) ↦ elim i [
        | inl e ↦ inl (ground (arith, contains-add p n.pkg pkgs, str_eq_iff n.pkg p))
        | inr i' ↦ inr (d, i', q, z)
      ]
    ]),
  )
]
  where
    clash : (d : Node) → d ≡ n → d.pkg ≡ p → is_empty p ≡ false → is_empty n.pkg ≡ true → ⊥
    clash d e q z g = cc

    new :
        is_empty n.pkg ≡ false
        → contains p (add n.pkg pkgs) ≡ true
        → (contains p pkgs ≡ true)
          ⊎ ((d : Node) × In d (n ∷ values ns) × (d.pkg ≡ p) × (is_empty p ≡ false))
    new g q = elim (Bool-cases (contains p pkgs)) [
      | inl old ↦ inl old
      | inr fresh ↦
          let same : n.pkg ≡ p = ground (arith, contains-add p n.pkg pkgs, str_eq_iff n.pkg p) in
          inr (n, inl refl, same, rw (← same) g)
    ]

NoDup-collect_packages :
    (ns : Dict Node) (pkgs : List Str) → NoDup pkgs → NoDup (collect_packages ns pkgs)
unfolding collect_packages
NoDup-collect_packages [] pkgs d = d
NoDup-collect_packages ((k, n) ∷ ns) pkgs d = elim (Bool-cases (is_empty n.pkg)) [
  | inl e ↦ rw e (NoDup-collect_packages ns pkgs d)
  | inr e ↦ rw e (NoDup-collect_packages ns (add n.pkg pkgs) (NoDup-add n.pkg pkgs d))
]

-- The packages of a snapshot are the packages of its nodes that are not the empty text, each
-- listed once.
pub packages_lem :
    (s : Snapshot)
    → NoDup (packages s)
      × ((p : Str)
          → (contains p (packages s) ≡ true)
            ↔ ((n : Node) × In n (values s.nodes) × (n.pkg ≡ p) × (is_empty p ≡ false)))
unfolding packages contains
packages_lem s = (
  NoDup-collect_packages s.nodes [] tt,
  λ p.
      let both = collect_packages_iff p s.nodes [] in
      (λ h. elim (both.0 h) [ inl q ↦ absurd (cc) | inr w ↦ w ], λ w. both.1 (inr w)),
)
