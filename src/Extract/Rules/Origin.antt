-- ===== src/Extract/Rules/Origin.antt =====
-- pkg/extract/subgraph/extractor.go: from which rules and labels buildSnapshot gets its nodes and edges.
use mathlib.Core.Bool.{false≢true}
use toposcope.Base.{
  ◌≡◌, ◌≢◌, refl, sym, ◌∙◌, ap, subst, ◌⊎◌, inl, inr, ◌↔◌, true, false, List, [], ◌∷◌, arith, Str,
  In, In-append, contains, contains_iff, codes, str_eq, str_eq_iff, is_empty, has_prefix,
  has_prefix_iff, Bool-cases,
}
use toposcope.Graph.{Edge, edge_key}
use toposcope.Extract.Rules.{
  Building, add_edge, add_deps, normalize_label, classify_dep, is_external_label,
}

-- A label of another repository: "@" and what does not go on with "//".
abbrev pub IsExternal : Str → Type 0
IsExternal label =
    (rest : Str) × (label ≡ b'@' ∷ rest) × ¬ ((path : Str) × (rest ≡ b'/' ∷ b'/' ∷ path))

is_external_label_iff : (label : Str) → (is_external_label label ≡ true) ↔ IsExternal label
unfolding is_external_label
is_external_label_iff label = elim (Bool-cases (has_prefix label (codes "@//"))) [
  | inl own ↦
      let (path, e) = (has_prefix_iff label (codes "@//")).0 own in
      rw (is_external_label, own)
        (
          λ h. absurd (cc),
          λ (rest, f, other).
              absurd (other (path, (let same : rest ≡ b'/' ∷ b'/' ∷ path = ground arith in same))),
        )
  | inr other ↦
      rw (is_external_label, other)
        (
          λ h.
              let (rest, e) = (has_prefix_iff label (codes "@")).0 h in
              (
                rest,
                e,
                λ (path, f). cc (
                  (has_prefix_iff label (codes "@//")).1 (path, e ∙ ap (λ x. b'@' ∷ x) f),
                  other,
                ),
              ),
          λ (rest, e, free). (has_prefix_iff label (codes "@")).1 (rest, e),
        )
]

pub is_external_label-eq-false :
    (label : Str) → (is_external_label label ≡ false) ↔ (¬ IsExternal label)
is_external_label-eq-false label = (
  λ h x. cc ((is_external_label_iff label).1 x),
  λ free. elim (Bool-cases (is_external_label label)) [
    | inl e ↦ absurd (free ((is_external_label_iff label).0 e))
    | inr e ↦ e
  ],
)

-- The attributes that name dependencies, with the type of their edges.
abbrev pub IsTyped : Str → Str → Type 0
IsTyped attr type =
    ((attr ≡ codes "deps") × (type ≡ codes "COMPILE"))
    ⊎ (((attr ≡ codes "runtime_deps") × (type ≡ codes "RUNTIME"))
        ⊎ ((attr ≡ codes "data") × (type ≡ codes "DATA")))

deps-ne-runtime_deps : codes "deps" ≢ codes "runtime_deps"
unfolding str_eq
deps-ne-runtime_deps e =
    absurd (false≢true ((str_eq_iff (codes "deps") (codes "runtime_deps")).1 e))

deps-ne-data : codes "deps" ≢ codes "data"
unfolding str_eq
deps-ne-data e = absurd (false≢true ((str_eq_iff (codes "deps") (codes "data")).1 e))

runtime_deps-ne-data : codes "runtime_deps" ≢ codes "data"
unfolding str_eq
runtime_deps-ne-data e =
    absurd (false≢true ((str_eq_iff (codes "runtime_deps") (codes "data")).1 e))

-- An attribute is skipped, or names dependencies of the type that it is given.
pub classify_dep-IsTyped :
    (attr type : Str)
    → ((is_empty (classify_dep attr) ≡ false) × (type ≡ classify_dep attr)) ↔ IsTyped attr type
unfolding classify_dep is_empty
classify_dep-IsTyped attr type = elim (Bool-cases (str_eq attr (codes "deps"))) [
  | inl e ↦
      let p = (str_eq_iff attr (codes "deps")).0 e in
      rw (classify_dep, e)
        (
          λ h. inl (p, h.1),
          λ x. elim x [
            | inl (q, t) ↦ (refl, t)
            | inr (inl (q, t)) ↦ absurd (deps-ne-runtime_deps (sym p ∙ q))
            | inr (inr (q, t)) ↦ absurd (deps-ne-data (sym p ∙ q))
          ],
        )
  | inr e ↦ elim (Bool-cases (str_eq attr (codes "runtime_deps"))) [
    | inl f ↦
        let p = (str_eq_iff attr (codes "runtime_deps")).0 f in
        rw (classify_dep, e, f)
          (
            λ h. inr (inl (p, h.1)),
            λ x. elim x [
              | inl (q, t) ↦ absurd (cc ((str_eq_iff attr (codes "deps")).1 q))
              | inr (inl (q, t)) ↦ (refl, t)
              | inr (inr (q, t)) ↦ absurd (runtime_deps-ne-data (sym p ∙ q))
            ],
          )
    | inr f ↦ elim (Bool-cases (str_eq attr (codes "data"))) [
      | inl g ↦
          rw (classify_dep, e, f, g)
            (
              λ h. inr (inr ((str_eq_iff attr (codes "data")).0 g, h.1)),
              λ x. elim x [
                | inl (q, t) ↦ absurd (cc ((str_eq_iff attr (codes "deps")).1 q))
                | inr (inl (q, t)) ↦ absurd (cc ((str_eq_iff attr (codes "runtime_deps")).1 q))
                | inr (inr (q, t)) ↦ (refl, t)
              ],
            )
      | inr g ↦
          rw (classify_dep, e, f, g)
            (
              λ h. absurd (cc (h.0)),
              λ x. elim x [
                | inl (q, t) ↦ absurd (cc ((str_eq_iff attr (codes "deps")).1 q))
                | inr (inl (q, t)) ↦ absurd (cc ((str_eq_iff attr (codes "runtime_deps")).1 q))
                | inr (inr (q, t)) ↦ absurd (cc ((str_eq_iff attr (codes "data")).1 q))
              ],
            )
    ]
  ]
]

pub nodes-add_edge : (e : Edge) (b : Building) → (add_edge e b).nodes ≡ b.nodes
unfolding add_edge
nodes-add_edge e b = elim (Bool-cases (contains (edge_key e) b.seen)) [
  | inl old ↦ rw (add_edge, old)
  | inr new ↦ rw (add_edge, new)
]

In-add_edge : (e d : Edge) (b : Building) → In d (add_edge e b).edges → In d b.edges ⊎ (d ≡ e)
unfolding add_edge
In-add_edge e d b i = elim (Bool-cases (contains (edge_key e) b.seen)) [
  | inl old ↦ inl (rw (add_edge, old) at i)
  | inr new ↦ elim ((In-append d b.edges (e ∷ [])).0 (rw (add_edge, new) at i)) [
    | inl j ↦ inl j
    | inr j ↦ elim j [ inl p ↦ inr p | inr no_one ↦ elim no_one [ ] ]
  ]
]

-- The key is seen afterwards, and so is each key from before.
seen-add_edge :
    (e : Edge) (k : Str) (b : Building) → (k ≡ edge_key e) ⊎ In k b.seen → In k (add_edge e b).seen
unfolding add_edge
seen-add_edge e k b h = elim (Bool-cases (contains (edge_key e) b.seen)) [
  | inl old ↦
      rw (add_edge, old)
        (elim h [
          | inl p ↦ subst (λ x. In x b.seen) (sym p) ((contains_iff (edge_key e) b.seen).0 old)
          | inr i ↦ i
        ])
  | inr new ↦
      rw (add_edge, new)
        ((In-append k b.seen (edge_key e ∷ [])).1 (elim h [ inl p ↦ inr (inl p) | inr i ↦ inl i ]))
]

module _ (trim_space : Str → Str) where
  -- The edge of a label of a list.
  abbrev pub edge_of : Str → Str → Str → Edge
  edge_of label type dep = record { from = label; to = normalize_label trim_space dep; type = type }

  abbrev pub IsOwnDep : Str → Str → List Str → Edge → Type 0
  IsOwnDep label type deps e =
      (dep : Str) × In dep deps × (¬ IsExternal dep) × (e ≡ edge_of label type dep)

  pub In-add_deps :
      (label type : Str) (deps : List Str) (b : Building) (e : Edge)
      → In e (add_deps trim_space label type deps b).edges
      → In e b.edges ⊎ IsOwnDep label type deps e
  unfolding add_deps
  In-add_deps label type [] b e i = inl i
  In-add_deps label type (dep ∷ deps) b e i = elim (Bool-cases (is_external_label dep)) [
    | inl out ↦ elim (In-add_deps label type deps b e (rw (add_deps, out) at i)) [
      | inl j ↦ inl j
      | inr (x, j, own, p) ↦ inr (x, inr j, own, p)
    ]
    | inr own ↦ elim (In-add_deps label type deps _ e (rw (add_deps, own) at i)) [
      | inr (x, j, own', p) ↦ inr (x, inr j, own', p)
      | inl j ↦ elim (In-add_edge (edge_of label type dep) e b j) [
        | inl k ↦ inl k
        | inr p ↦ inr (dep, inl refl, (is_external_label-eq-false dep).0 own, p)
      ]
    ]
  ]

  pub seen-add_deps :
      (label type : Str) (deps : List Str) (b : Building) (k : Str)
      → In k b.seen ⊎ ((e : Edge) × IsOwnDep label type deps e × (k ≡ edge_key e))
      → In k (add_deps trim_space label type deps b).seen
  unfolding add_deps
  seen-add_deps label type [] b k h = elim h [ inl i ↦ i | inr (e, own, p) ↦ elim own.1 [ ] ]
  seen-add_deps label type (dep ∷ deps) b k h = elim (Bool-cases (is_external_label dep)) [
    | inl out ↦
        rw (add_deps, out)
          (seen-add_deps label type deps b k (elim h [
            | inl i ↦ inl i
            | inr (e, (x, i, own, p), q) ↦ elim i [
              | inl s ↦
                  absurd (
                    cc
                      ((is_external_label-eq-false dep).1 (subst (λ y. ¬ IsExternal y) s own), out))
              | inr j ↦ inr (e, (x, j, own, p), q)
            ]
          ]))
    | inr ours ↦
        rw (add_deps, ours)
          (seen-add_deps label type deps _ k (elim h [
            | inl i ↦ inl (seen-add_edge (edge_of label type dep) k b (inr i))
            | inr (e, (x, i, own, p), q) ↦ elim i [
              | inl s ↦ inl (
                  seen-add_edge (edge_of label type dep) k b
                    (inl (q ∙ ap edge_key (p ∙ ap (edge_of label type) s))))
              | inr j ↦ inr (e, (x, j, own, p), q)
            ]
          ]))
  ]

  pub nodes-add_deps :
      (label type : Str) (deps : List Str) (b : Building)
      → (add_deps trim_space label type deps b).nodes ≡ b.nodes
  unfolding add_deps
  nodes-add_deps label type [] b = refl
  nodes-add_deps label type (dep ∷ deps) b = elim (Bool-cases (is_external_label dep)) [
    | inl out ↦ rw (add_deps, out) (nodes-add_deps label type deps b)
    | inr own ↦
        rw (add_deps, own)
          (nodes-add_deps label type deps (add_edge (edge_of label type dep) b)
            ∙ nodes-add_edge (edge_of label type dep) b)
  ]
