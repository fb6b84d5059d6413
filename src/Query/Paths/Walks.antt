-- ===== src/Query/Paths/Walks.antt =====
-- pkg/graphquery/query.go: walks along the edges of a snapshot, and the targets of a node.
use toposcope.Base.{
  ◌≡◌, refl, sym, ◌∙◌, ap, ◌↔◌, inl, inr, List, [], ◌∷◌, ◌++◌, append_assoc, append-nil, Str, Dict,
  In, get_or, insert, get_or-insert, str_eq, str_eq_iff, if◌then◌else◌, Bool-cases,
}
use toposcope.Graph.{Edge}
use toposcope.Query.Paths.{fill_targets}

abbrev pub HasEdge : List Edge → Str → Str → Type 0
HasEdge es a b = (e : Edge) × In e es × (e.from ≡ a) × (e.to ≡ b)

-- The nodes of the list follow edges up to `b`.
abbrev pub IsWalk : List Edge → List Str → Str → Type 0
IsWalk es [] b = ⊥
IsWalk es (x ∷ []) b = x ≡ b
IsWalk es (x ∷ y ∷ p) b = HasEdge es x y × IsWalk es (y ∷ p) b

abbrev pub StartsIn : List Str → List Str → Type 0
StartsIn sources [] = ⊥
StartsIn sources (x ∷ p) = In x sources

-- The targets of the edges that start at a node, in the order of the edges.
abbrev targets_from : Str → List Edge → List Str
targets_from k [] = []
targets_from k (e ∷ es) = if str_eq e.from k then e.to ∷ targets_from k es else targets_from k es

get_or-fill_targets :
    (k : Str) (es : List Edge) (m : Dict (List Str))
    → get_or k (fill_targets es m) [] ≡ get_or k m [] ++ targets_from k es
unfolding fill_targets
get_or-fill_targets k [] m = sym (append-nil (get_or k m []))
get_or-fill_targets k (e ∷ es) m =
    let old = get_or e.from m [] in
    let rest = get_or-fill_targets k es (insert e.from (old ++ e.to ∷ []) m) in
    elim (Bool-cases (str_eq e.from k)) [
      | inl here ↦
          let key = (str_eq_iff e.from k).0 here in
          rw (fill_targets, rest, get_or-insert, here, key)
            (append_assoc (get_or k m []) (e.to ∷ []) (targets_from k es))
      | inr away ↦ rw (fill_targets, rest, get_or-insert, away) refl
    ]

In-targets_from : (k t : Str) (es : List Edge) → In t (targets_from k es) ↔ HasEdge es k t
In-targets_from k t [] = (λ h. elim h [ ], λ (e, i, p, q). elim i [ ])
In-targets_from k t (e ∷ es) = elim (Bool-cases (str_eq e.from k)) [
  | inl here ↦ rw here (
    λ h. elim h [
      | inl q ↦ (e, inl refl, (str_eq_iff e.from k).0 here, sym q)
      | inr j ↦ let (d, i, p, q) = (In-targets_from k t es).0 j in (d, inr i, p, q)
    ],
    λ (d, i, p, q). elim i [
      | inl same ↦ inl (sym q ∙ ap (λ x. x.to) same)
      | inr j ↦ inr ((In-targets_from k t es).1 (d, j, p, q))
    ],
  )
  | inr away ↦ rw away (
    λ h. let (d, i, p, q) = (In-targets_from k t es).0 h in (d, inr i, p, q),
    λ (d, i, p, q). elim i [
      | inl same ↦ absurd (cc ((str_eq_iff e.from k).1 (ap (λ x. x.from) (sym same) ∙ p)))
      | inr j ↦ (In-targets_from k t es).1 (d, j, p, q)
    ],
  )
]

-- The list of a node in the map holds the targets of its edges.
pub In-fill_targets :
    (k t : Str) (es : List Edge) → In t (get_or k (fill_targets es []) []) ↔ HasEdge es k t
unfolding get_or
In-fill_targets k t es = rw (get_or-fill_targets k es []) (In-targets_from k t es)
