-- ===== src/Extract/Rules/Listed.antt =====
-- pkg/extract/subgraph/extractor.go: which edges the lists of a rule lead to.
use toposcope.Base.{
  ◌≡◌, refl, ◌∙◌, subst, ◌⊎◌, inl, inr, List, [], ◌∷◌, Str, In, is_empty, Bool-cases,
}
use toposcope.Graph.{Edge, edge_key}
use toposcope.Extract.Rules.{XmlList, Building, add_deps, add_lists, classify_dep}
use toposcope.Extract.Rules.Origin.{
  IsTyped, classify_dep-IsTyped, IsOwnDep, In-add_deps, seen-add_deps, nodes-add_deps,
}

module _ (trim_space : Str → Str) where
  -- A dependency that one of the lists gives to the label.
  abbrev pub IsListed : Str → List XmlList → Edge → Type 0
  IsListed label ls e =
      (l : XmlList) × (type : Str) × In l ls
      × IsTyped l.name type
      × IsOwnDep trim_space label type l.labels e

  pub In-add_lists :
      (label : Str) (ls : List XmlList) (b : Building) (e : Edge)
      → In e (add_lists trim_space label ls b).edges
      → In e b.edges ⊎ IsListed label ls e
  unfolding add_lists
  In-add_lists label [] b e i = inl i
  In-add_lists label (l ∷ ls) b e i = elim (Bool-cases (is_empty (classify_dep l.name))) [
    | inl skip ↦ elim (In-add_lists label ls b e (rw (add_lists, skip) at i)) [
      | inl j ↦ inl j
      | inr (x, type, j, t, own) ↦ inr (x, type, inr j, t, own)
    ]
    | inr used ↦ elim (In-add_lists label ls _ e (rw (add_lists, used) at i)) [
      | inr (x, type, j, t, own) ↦ inr (x, type, inr j, t, own)
      | inl j ↦ elim (In-add_deps trim_space label (classify_dep l.name) l.labels b e j) [
        | inl k ↦ inl k
        | inr own ↦ inr (
          l,
          classify_dep l.name,
          inl refl,
          (classify_dep-IsTyped l.name (classify_dep l.name)).0 (used, refl),
          own,
        )
      ]
    ]
  ]

  -- The key of an edge that satisfies a predicate.
  abbrev pub KeyOf : (Edge → Type 0) → Str → Type 0
  KeyOf P k = (e : Edge) × P e × (k ≡ edge_key e)

  pub seen-add_lists :
      (label : Str) (ls : List XmlList) (b : Building) (k : Str)
      → In k b.seen ⊎ KeyOf (IsListed label ls) k
      → In k (add_lists trim_space label ls b).seen
  unfolding add_lists
  seen-add_lists label [] b k h = elim h [
    | inl i ↦ i
    | inr (e, (l, type, i, t, own), q) ↦ elim i [ ]
  ]
  seen-add_lists label (l ∷ ls) b k h = elim (Bool-cases (is_empty (classify_dep l.name))) [
    | inl skip ↦
        rw (add_lists, skip)
          (seen-add_lists label ls b k (elim h [
            | inl i ↦ inl i
            | inr (e, (x, type, i, t, own), q) ↦ elim i [
              | inr j ↦ inr (e, (x, type, j, t, own), q)
              | inl s ↦
                  let (full, p) =
                    (classify_dep-IsTyped l.name type).1 (subst (λ y. IsTyped y.name type) s t) in
                  absurd (cc (full, skip))
            ]
          ]))
    | inr used ↦
        rw (add_lists, used)
          (seen-add_lists label ls _ k (elim h [
            | inl i ↦
                inl (seen-add_deps trim_space label (classify_dep l.name) l.labels b k (inl i))
            | inr (e, (x, type, i, t, own), q) ↦ elim i [
              | inr j ↦ inr (e, (x, type, j, t, own), q)
              | inl s ↦
                  let (full, p) =
                    (classify_dep-IsTyped l.name type).1 (subst (λ y. IsTyped y.name type) s t) in
                  inl (
                    seen-add_deps trim_space label (classify_dep l.name) l.labels b k (
                      inr (
                        e,
                        subst (λ y. IsOwnDep trim_space label y l.labels e) p
                            (subst (λ y. IsOwnDep trim_space label type y.labels e) s own),
                        q,
                      )))
            ]
          ]))
  ]

  pub nodes-add_lists :
      (label : Str) (ls : List XmlList) (b : Building)
      → (add_lists trim_space label ls b).nodes ≡ b.nodes
  unfolding add_lists
  nodes-add_lists label [] b = refl
  nodes-add_lists label (l ∷ ls) b = elim (Bool-cases (is_empty (classify_dep l.name))) [
    | inl skip ↦ rw (add_lists, skip) (nodes-add_lists label ls b)
    | inr used ↦
        rw (add_lists, used)
          (nodes-add_lists label ls (add_deps trim_space label (classify_dep l.name) l.labels b)
            ∙ nodes-add_deps trim_space label (classify_dep l.name) l.labels b)
  ]
