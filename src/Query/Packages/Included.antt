-- ===== src/Query/Packages/Included.antt =====
-- pkg/graphquery/query.go: which edges AggregatePackages counts from one package to another.
use toposcope.Base.{
  ◌<◌, ◌≡◌, ◌≢◌, refl, sym, ◌∙◌, ap, subst, ◌⊎◌, inl, inr, ◌↔◌, Bool, true, false, not, ◌&&◌, ◌||◌,
  List, [], ◌∷◌, Option, none, some, arith, Str, Dict, keys, lookup, lookup-eq-none, has_key, add,
  In, In-iff_lookup, In-of_lookup, NoDup, values, contains, contains-add, count, is_empty, str_eq,
  str_eq_iff, str_eq_refl, Bool-cases, if◌then◌else◌,
}
use toposcope.Graph.{Node, Edge}
use toposcope.Query.Packages.{
  PackageNode, is_shown, package_nodes, included_targets, ends_of, crossing,
}
use toposcope.Query.Packages.Nodes.{target_total, lookup-package_nodes, tally-some}
use toposcope.Query.Packages.Weights.{links, link_total, In-values, count-same}

In-value : (n : Node) (m : Dict Node) → In n (values m) → (k : Str) × In (k, n) m
In-value n [] i = elim i [ ]
In-value n ((k, o) ∷ m) i = elim i [
  | inl e ↦ (k, inl (ap (λ x. (k, x)) e))
  | inr j ↦ let (l, r) = In-value n m j in (l, inr r)
]

module _ (hide_tests hide_external : Bool) where
  -- A node of the package that is neither hidden nor without a package.
  abbrev pub is_target_in : Str → Option Node → Bool
  is_target_in p none = false
  is_target_in p (some n) =
      not (hide_tests && n.is_test)
      && not (hide_external && n.is_external)
      && not (is_empty n.pkg)
      && str_eq n.pkg p

  -- The edge leads from a target of the one package to a target of the other.
  abbrev pub joins : Dict Node → Str → Str → Edge → Bool
  joins nodes p q e = is_target_in p (lookup e.from nodes) && is_target_in q (lookup e.to nodes)

  abbrev IsListed : Dict PackageNode → Dict Node → Str → Type 0
  IsListed pkgs ns x =
      (n : Node) × In n (values ns)
      × (is_shown hide_tests hide_external n ≡ true)
      × (has_key n.pkg pkgs ≡ true)
      × (n.key ≡ x)

  contains-included_targets :
      (pkgs : Dict PackageNode) (ns : Dict Node) (included : List Str) (x : Str)
      → (contains x (included_targets hide_tests hide_external pkgs ns included) ≡ true)
        ↔ ((contains x included ≡ true) ⊎ IsListed pkgs ns x)
  unfolding included_targets
  contains-included_targets pkgs [] included x =
      (inl, λ h. elim h [ inl c ↦ c | inr (n, i, r, t, u) ↦ elim i [ ] ])
  contains-included_targets pkgs ((k, n) ∷ ns) included x =
      elim (Bool-cases (is_shown hide_tests hide_external n && has_key n.pkg pkgs)) [
        | inl e ↦
            let s : is_shown hide_tests hide_external n ≡ true = ground (arith, e) in
            let h : has_key n.pkg pkgs ≡ true = ground (arith, e, s) in
            let ih = contains-included_targets pkgs ns (add n.key included) x in
            let added = contains-add x n.key included in
            rw (included_targets, e)
              (
                λ c. elim (ih.0 c) [
                  | inr (m, i, r, t, u) ↦ inr (m, inr i, r, t, u)
                  | inl old ↦ elim (Bool-cases (str_eq n.key x)) [
                    | inl same ↦ inr (n, inl refl, s, h, (str_eq_iff n.key x).0 same)
                    | inr other ↦ inl (ground (arith, added, old, other))
                  ]
                ],
                λ g. elim g [
                  | inl old ↦ ih.1 (inl (ground (arith, added, old)))
                  | inr (m, i, r, t, u) ↦ elim i [
                    | inr j ↦ ih.1 (inr (m, j, r, t, u))
                    | inl same ↦
                        let own = (str_eq_iff n.key x).1 (subst (λ y. y.key ≡ x) same u) in
                        ih.1 (inl (ground (arith, added, own)))
                  ]
                ],
              )
        | inr e ↦
            let ih = contains-included_targets pkgs ns included x in
            rw (included_targets, e)
              (
                λ c. elim (ih.0 c) [
                  | inl old ↦ inl old
                  | inr (m, i, r, t, u) ↦ inr (m, inr i, r, t, u)
                ],
                λ g. elim g [
                  | inl old ↦ ih.1 (inl old)
                  | inr (m, i, r, t, u) ↦ elim i [
                    | inr j ↦ ih.1 (inr (m, j, r, t, u))
                    | inl same ↦
                        let s = subst (λ y. is_shown hide_tests hide_external y ≡ true) same r in
                        let h = subst (λ y. has_key y.pkg pkgs ≡ true) same t in
                        absurd (ground (arith, e, s, h))
                  ]
                ],
              )
      ]

  -- The package of a shown node has an entry.
  has_key-package_nodes :
      (ns : Dict Node) (n : Node)
      → In n (values ns)
      → is_shown hide_tests hide_external n ≡ true
      → has_key n.pkg (package_nodes hide_tests hide_external ns []) ≡ true
  unfolding lookup
  has_key-package_nodes ns n i s =
      let (pn, e) =
        tally-some hide_tests hide_external n.pkg ns none
          (let z = counted ns i in omega (arith, z)) in
      let found = lookup-package_nodes hide_tests hide_external n.pkg ns [] ∙ e in
      elim (Bool-cases (has_key n.pkg (package_nodes hide_tests hide_external ns []))) [
        | inl h ↦ h
        | inr h ↦
            absurd (
              cc ((lookup-eq-none n.pkg (package_nodes hide_tests hide_external ns [])).1 h, found))
      ]
    where
      counted :
          (ns : Dict Node) → In n (values ns) → 0 < target_total hide_tests hide_external n.pkg ns
      counted [] i = elim i [ ]
      counted ((k, m) ∷ ns) i = elim i [
        | inl same ↦
            subst (λ y. 0 < target_total hide_tests hide_external n.pkg ((k, y) ∷ ns)) same
              (rw (s, str_eq_refl n.pkg) (omega arith))
        | inr j ↦ let z = counted ns j in omega (arith, z)
      ]

  -- Where every node stands under its own key, each key once, the included targets are the keys of the shown nodes.
  module _ (nodes : Dict Node) (once : NoDup (keys nodes))
      (own_key : (k : Str) (n : Node) → In (k, n) nodes → n.key ≡ k) where
    abbrev targets : List Str
    targets =
        included_targets hide_tests hide_external (package_nodes hide_tests hide_external nodes [])
          nodes []

    is_shown_at : Option Node → Bool
    is_shown_at none = false
    is_shown_at (some n) = is_shown hide_tests hide_external n

    shown_when :
        (x : Str) (o : Option Node)
        → lookup x nodes ≡ o
        → (contains x targets ≡ true) ↔ (is_shown_at o ≡ true)
    unfolding is_shown_at contains
    shown_when x o e =
        let pkgs = package_nodes hide_tests hide_external nodes [] in
        let both = contains-included_targets pkgs nodes [] x in
        (
          λ c. elim (both.0 c) [
            | inl no_case ↦ absurd (cc)
            | inr (n, i, s, h, own) ↦
                let (k, j) = In-value n nodes i in
                let here = subst (λ y. In (y, n) nodes) (sym (own_key k n j) ∙ own) j in
                let found = (In-iff_lookup x n nodes once).0 here in
                subst (λ y. is_shown_at y ≡ true) (sym found ∙ e) s
          ],
          back o e,
        )
      where
        back :
            (o : Option Node)
            → lookup x nodes ≡ o
            → is_shown_at o ≡ true
            → contains x targets ≡ true
        back none e h = absurd (cc)
        back (some n) e h =
            let pkgs = package_nodes hide_tests hide_external nodes [] in
            let j = In-of_lookup x n nodes e in
            let i = In-values x n nodes j in
            (contains-included_targets pkgs nodes [] x).1
              (inr (n, i, h, has_key-package_nodes nodes n i h, own_key x n j))

    contains-targets : (x : Str) → contains x targets ≡ is_shown_at (lookup x nodes)
    contains-targets x =
        let (f, g) = shown_when x (lookup x nodes) refl in
        elim (Bool-cases (is_shown_at (lookup x nodes))) [
          | inl e ↦ g e ∙ sym e
          | inr e ↦ elim (Bool-cases (contains x targets)) [
            | inl c ↦ absurd (cc (f c, e))
            | inr c ↦ c ∙ sym e
          ]
        ]

    ends_match :
        (p q : Str) (o u : Option Node)
        → p ≢ q
        → links p q (if not (is_shown_at o) || not (is_shown_at u) then none else ends_of o u)
          ≡ (is_target_in p o && is_target_in q u)
    unfolding is_shown_at is_shown ends_of
    ends_match p q none u apart = refl
    ends_match p q (some f) none apart = ground arith
    ends_match p q (some f) (some t) apart =
        ground (arith, str_eq_iff f.pkg t.pkg, str_eq_iff f.pkg p, str_eq_iff t.pkg q)

    -- The edges that are counted are those from a target of the one package to a target of the other.
    pub link_total-eq :
        (p q : Str) (es : List Edge)
        → p ≢ q
        → link_total nodes targets p q es ≡ count (joins nodes p q) es
    unfolding crossing
    link_total-eq p q es apart = count-same _ _ es (λ e.
        rw (contains-targets e.from, contains-targets e.to)
          (ends_match p q (lookup e.from nodes) (lookup e.to nodes) apart))
