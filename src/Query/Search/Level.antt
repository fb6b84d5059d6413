-- ===== src/Query/Search/Level.antt =====
-- pkg/graphquery/query.go: what one level of a search visits.
use toposcope.Base.{
  ◌≡◌, refl, sym, ap, ◌∙◌, subst, ◌↔◌, ◌⊎◌, inl, inr, Bool, true, List, [], ◌∷◌, ◌++◌, arith, Str,
  In, In-append, get_or, contains, contains_iff, if◌then◌else◌, Bool-cases, append_assoc,
}
use toposcope.Graph.{Edge, Snapshot}
use toposcope.Query.{fwd, rev}
use toposcope.Query.Search.{Frontier, offer, offer_ends, expand, level}
use toposcope.Query.Search.Index.{In-fwd, In-rev}

-- One step along an edge of the snapshot: forwards if `deps`, backwards if `rdeps`.
abbrev pub Adj : Bool → Bool → Snapshot → Str → Str → Type 0
Adj deps rdeps s u v =
    (e : Edge) × In e s.edges
    × ((deps ≡ true) × (e.from ≡ u) × (e.to ≡ v) ⊎ (rdeps ≡ true) × (e.to ≡ u) × (e.from ≡ v))

-- What is visited beyond `old` stands in the queue.
abbrev pub Extends : List Str → Frontier → Type 0
Extends old f = f.visited ≡ old ++ f.next

pub In-offer : (k t : Str) (f : Frontier) → In k (offer t f).visited ↔ (In k f.visited ⊎ (k ≡ t))
unfolding offer
In-offer k t f = elim (Bool-cases (contains t f.visited)) [
  | inl seen ↦ rw seen (
    inl,
    λ h. elim h [
      | inl m ↦ m
      | inr e ↦ subst (λ x. In x f.visited) (sym e) ((contains_iff t f.visited).0 seen)
    ],
  )
  | inr new ↦ rw new (ground (arith, In-append k f.visited (t ∷ [])))
]

pub offer-Extends :
    (old : List Str) (t : Str) (f : Frontier) → Extends old f → Extends old (offer t f)
unfolding offer
offer-Extends old t f h = elim (Bool-cases (contains t f.visited)) [
  | inl seen ↦ rw seen h
  | inr new ↦ rw new (ap (λ l. l ++ t ∷ []) h ∙ append_assoc old f.next (t ∷ []))
]

module _ (end_of : Edge → Str) where
  In-offer_ends :
      (k : Str) (es : List Edge) (f : Frontier)
      → In k (offer_ends end_of es f).visited
        ↔ (In k f.visited ⊎ ((e : Edge) × In e es × (end_of e ≡ k)))
  unfolding offer_ends
  In-offer_ends k [] f = (inl, λ h. elim h [ inl p ↦ p | inr (e, i, q) ↦ elim i [ ] ])
  In-offer_ends k (e ∷ es) f =
      let rest = In-offer_ends k es (offer (end_of e) f) in
      let first = In-offer k (end_of e) f in
      (
        λ h. elim (rest.0 h) [
          | inl p ↦ elim (first.0 p) [ inl q ↦ inl q | inr q ↦ inr (e, inl refl, sym q) ]
          | inr (d, i, q) ↦ inr (d, inr i, q)
        ],
        λ h. rest.1 (elim h [
          | inl p ↦ inl (first.1 (inl p))
          | inr (d, i, q) ↦ elim i [
            | inl x ↦ inl (first.1 (inr (sym q ∙ ap end_of x)))
            | inr j ↦ inr (d, j, q)
          ]
        ]),
      )

  offer_ends-Extends :
      (old : List Str) (es : List Edge) (f : Frontier)
      → Extends old f
      → Extends old (offer_ends end_of es f)
  unfolding offer_ends
  offer_ends-Extends old [] f h = h
  offer_ends-Extends old (e ∷ es) f h =
      offer_ends-Extends old es (offer (end_of e) f) (offer-Extends old (end_of e) f h)

module _ (deps rdeps : Bool) (s : Snapshot) where
  In-expand :
      (k node : Str) (f : Frontier)
      → In k (expand deps rdeps (fwd s) (rev s) node f).visited
        ↔ (In k f.visited ⊎ Adj deps rdeps s node k)
  unfolding expand
  In-expand k node f = (
    λ h. elim ((back deps_part).0 h) [
      | inl p ↦ elim (ahead.0 p) [ inl q ↦ inl q | inr (e, i, d, a, b) ↦ inr (e, i, inl (d, a, b)) ]
      | inr (e, i, d, a, b) ↦ inr (e, i, inr (d, a, b))
    ],
    λ h. (back deps_part).1 (elim h [
      | inl p ↦ inl (ahead.1 (inl p))
      | inr (e, i, way) ↦ elim way [
        | inl (d, a, b) ↦ inl (ahead.1 (inr (e, i, d, a, b)))
        | inr (d, a, b) ↦ inr (e, i, d, a, b)
      ]
    ]),
  )
    where
      deps_part : Frontier
      deps_part = if deps then offer_ends (λ e. e.to) (get_or node (fwd s) []) f else f

      ahead : In k deps_part.visited ↔ (
          In k f.visited
          ⊎ ((e : Edge) × In e s.edges × (deps ≡ true) × (e.from ≡ node) × (e.to ≡ k)))
      ahead = elim (Bool-cases deps) [
        | inl d ↦
            let both = In-offer_ends (λ e. e.to) k (get_or node (fwd s) []) f in
            rw d (
              λ h. elim (both.0 h) [
                | inl p ↦ inl p
                | inr (e, i, q) ↦ let (j, r) = (In-fwd s node e).0 i in inr (e, j, refl, r, q)
              ],
              λ h. both.1 (elim h [
                | inl p ↦ inl p
                | inr (e, i, _, r, q) ↦ inr (e, (In-fwd s node e).1 (i, r), q)
              ]),
            )
        | inr d ↦ rw d (inl, λ h. elim h [ inl p ↦ p | inr (e, i, t, r, q) ↦ absurd (cc) ])
      ]

      back :
          (g : Frontier)
          → In k (if rdeps then offer_ends (λ e. e.from) (get_or node (rev s) []) g else g).visited
            ↔ (In k g.visited
                ⊎ ((e : Edge) × In e s.edges × (rdeps ≡ true) × (e.to ≡ node) × (e.from ≡ k)))
      back g = elim (Bool-cases rdeps) [
        | inl d ↦
            let both = In-offer_ends (λ e. e.from) k (get_or node (rev s) []) g in
            rw d (
              λ h. elim (both.0 h) [
                | inl p ↦ inl p
                | inr (e, i, q) ↦ let (j, r) = (In-rev s node e).0 i in inr (e, j, refl, r, q)
              ],
              λ h. both.1 (elim h [
                | inl p ↦ inl p
                | inr (e, i, _, r, q) ↦ inr (e, (In-rev s node e).1 (i, r), q)
              ]),
            )
        | inr d ↦ rw d (inl, λ h. elim h [ inl p ↦ p | inr (e, i, t, r, q) ↦ absurd (cc) ])
      ]

  expand-Extends :
      (old : List Str) (node : Str) (f : Frontier)
      → Extends old f
      → Extends old (expand deps rdeps (fwd s) (rev s) node f)
  unfolding expand
  expand-Extends old node f h = backward (ahead h)
    where
      deps_part : Frontier
      deps_part = if deps then offer_ends (λ e. e.to) (get_or node (fwd s) []) f else f

      ahead : Extends old f → Extends old deps_part
      ahead p = elim (Bool-cases deps) [
        | inl d ↦ rw d (offer_ends-Extends (λ e. e.to) old (get_or node (fwd s) []) f p)
        | inr d ↦ rw d p
      ]

      backward :
          Extends old deps_part
          → Extends old (
              if rdeps
              then offer_ends (λ e. e.from) (get_or node (rev s) []) deps_part
              else deps_part)
      backward p = elim (Bool-cases rdeps) [
        | inl d ↦ rw d (offer_ends-Extends (λ e. e.from) old (get_or node (rev s) []) deps_part p)
        | inr d ↦ rw d p
      ]

  -- A level visits what was visited before, and the neighbours of the queue.
  pub In-level :
      (k : Str) (queue : List Str) (f : Frontier)
      → In k (level deps rdeps (fwd s) (rev s) queue f).visited
        ↔ (In k f.visited ⊎ ((u : Str) × In u queue × Adj deps rdeps s u k))
  unfolding level
  In-level k [] f = (inl, λ h. elim h [ inl p ↦ p | inr (u, i, a) ↦ elim i [ ] ])
  In-level k (node ∷ queue) f =
      let rest = In-level k queue (expand deps rdeps (fwd s) (rev s) node f) in
      let first = In-expand k node f in
      (
        λ h. elim (rest.0 h) [
          | inl p ↦ elim (first.0 p) [ inl q ↦ inl q | inr a ↦ inr (node, inl refl, a) ]
          | inr (u, i, a) ↦ inr (u, inr i, a)
        ],
        λ h. rest.1 (elim h [
          | inl p ↦ inl (first.1 (inl p))
          | inr (u, i, a) ↦ elim i [
            | inl x ↦ inl (first.1 (inr (subst (λ y. Adj deps rdeps s y k) x a)))
            | inr j ↦ inr (u, j, a)
          ]
        ]),
      )

  -- What a level newly visits is the next queue.
  pub level-Extends :
      (old : List Str) (queue : List Str) (f : Frontier)
      → Extends old f
      → Extends old (level deps rdeps (fwd s) (rev s) queue f)
  unfolding level
  level-Extends old [] f h = h
  level-Extends old (node ∷ queue) f h =
      level-Extends old queue (expand deps rdeps (fwd s) (rev s) node f)
        (expand-Extends old node f h)
