-- ===== src/Query/Packages/Nodes.antt =====
-- pkg/graphquery/query.go: the packages that AggregatePackages returns.
use toposcope.Base.{
  ℕ, ◌+◌, ◌<◌, ◌≡◌, refl, subst, ◌⊎◌, inl, inr, ◌↔◌, Bool, true, false, ◌&&◌, [], ◌∷◌, Option, none,
  some, arith, Str, Dict, values, lookup, lookup-insert, In, contains, contains-add, contains_iff,
  add, count, str_eq, str_eq_iff, if◌then◌else◌, Bool-cases,
}
use toposcope.Graph.{Node}
use toposcope.Query.Packages.{PackageNode, is_shown, entry, count_target, package_nodes}

module _ (hide_tests hide_external : Bool) (p : Str) where
  abbrev pub counts : Node → Bool
  counts n = is_shown hide_tests hide_external n && str_eq n.pkg p

  -- A shown node of the package with a property.
  abbrev pub HasTarget : (Node → Type 0) → Dict Node → Type 0
  HasTarget Q ns =
      (n : Node) × In n (values ns)
      × (is_shown hide_tests hide_external n ≡ true)
      × (n.pkg ≡ p)
      × Q n

  abbrev pub target_total : Dict Node → ℕ
  target_total ns = count (λ x. is_shown hide_tests hide_external x.1 && str_eq x.1.pkg p) ns

  -- The entry of one package, over all nodes.
  abbrev pub tally : Dict Node → Option PackageNode → Option PackageNode
  tally [] o = o
  tally ((k, n) ∷ ns) o = tally ns (
      if is_shown hide_tests hide_external n && str_eq n.pkg p
      then some (count_target n (entry n o))
      else o)

  pub lookup-package_nodes :
      (ns : Dict Node) (m : Dict PackageNode)
      → lookup p (package_nodes hide_tests hide_external ns m) ≡ tally ns (lookup p m)
  unfolding package_nodes
  lookup-package_nodes [] m = refl
  lookup-package_nodes ((k, n) ∷ ns) m = elim (Bool-cases (is_shown hide_tests hide_external n)) [
    | inl s ↦ elim (Bool-cases (str_eq n.pkg p)) [
      | inl e ↦
          let same = (str_eq_iff n.pkg p).0 e in
          rw (package_nodes, s, e, lookup-package_nodes ns, lookup-insert, e, same) refl
      | inr e ↦ rw (package_nodes, s, e, lookup-package_nodes ns, lookup-insert, e) refl
    ]
    | inr s ↦ rw (package_nodes, s, lookup-package_nodes ns) refl
  ]

  abbrev pub total_of : Option PackageNode → ℕ
  total_of none = 0
  total_of (some pn) = pn.target_count

  abbrev pub HasTests : Option PackageNode → Type 0
  HasTests none = ⊥
  HasTests (some pn) = pn.has_tests ≡ true

  abbrev pub HasKind : Str → Option PackageNode → Type 0
  HasKind kind none = ⊥
  HasKind kind (some pn) = In kind pn.kinds

  abbrev pub IsNamed : Option PackageNode → Type 0
  IsNamed none = Unit
  IsNamed (some pn) = pn.pkg ≡ p

  -- A node that counts adds its property, and any other adds none.
  step_counted :
      {X A B : Type 0} (Q : Node → Type 0) (k : Str) (n : Node) (ns : Dict Node)
      → is_shown hide_tests hide_external n ≡ true
      → n.pkg ≡ p
      → B ↔ (A ⊎ Q n)
      → X ↔ (B ⊎ HasTarget Q ns)
      → X ↔ (A ⊎ HasTarget Q ((k, n) ∷ ns))
  step_counted Q k n ns s e f g = (
    λ x. elim (g.0 x) [
      | inl b ↦ elim (f.0 b) [ inl a ↦ inl a | inr q ↦ inr (n, inl refl, s, e, q) ]
      | inr (m, i, h, l, q) ↦ inr (m, inr i, h, l, q)
    ],
    λ y. elim y [
      | inl a ↦ g.1 (inl (f.1 (inl a)))
      | inr (m, i, h, l, q) ↦ elim i [
        | inl same ↦ g.1 (inl (f.1 (inr (subst Q same q))))
        | inr j ↦ g.1 (inr (m, j, h, l, q))
      ]
    ],
  )

  step_skipped :
      {X A : Type 0} (Q : Node → Type 0) (k : Str) (n : Node) (ns : Dict Node)
      → counts n ≡ false
      → X ↔ (A ⊎ HasTarget Q ns)
      → X ↔ (A ⊎ HasTarget Q ((k, n) ∷ ns))
  step_skipped Q k n ns z g = (
    λ x. elim (g.0 x) [ inl a ↦ inl a | inr (m, i, h, l, q) ↦ inr (m, inr i, h, l, q) ],
    λ y. elim y [
      | inl a ↦ g.1 (inl a)
      | inr (m, i, h, l, q) ↦ elim i [
        | inl same ↦ absurd (
            clash (subst (λ x. is_shown hide_tests hide_external x ≡ true) same h)
              (subst (λ x. x.pkg ≡ p) same l))
        | inr j ↦ g.1 (inr (m, j, h, l, q))
      ]
    ],
  )
    where
      clash : is_shown hide_tests hide_external n ≡ true → n.pkg ≡ p → ⊥
      clash h l = let e = (str_eq_iff n.pkg p).1 l in ground (arith, z, h, e)

  counted-HasTests :
      (n : Node) (o : Option PackageNode)
      → HasTests (some (count_target n (entry n o))) ↔ (HasTests o ⊎ (n.is_test ≡ true))
  unfolding count_target entry
  counted-HasTests n none = ground arith
  counted-HasTests n (some pn) = ground arith

  counted-HasKind :
      (kind : Str) (n : Node) (o : Option PackageNode)
      → HasKind kind (some (count_target n (entry n o))) ↔ (HasKind kind o ⊎ (n.kind ≡ kind))
  unfolding count_target entry contains
  counted-HasKind kind n none = ground (
    arith,
    contains-add kind n.kind [],
    contains_iff kind (add n.kind []),
    str_eq_iff n.kind kind,
  )
  counted-HasKind kind n (some pn) = ground (
    arith,
    contains-add kind n.kind pn.kinds,
    contains_iff kind (add n.kind pn.kinds),
    contains_iff kind pn.kinds,
    str_eq_iff n.kind kind,
  )

  counted-total :
      (n : Node) (o : Option PackageNode)
      → total_of (some (count_target n (entry n o))) ≡ total_of o + 1
  unfolding count_target entry
  counted-total n none = omega arith
  counted-total n (some pn) = refl

  counted-IsNamed :
      (n : Node) (o : Option PackageNode)
      → n.pkg ≡ p
      → IsNamed o
      → IsNamed (some (count_target n (entry n o)))
  unfolding count_target entry
  counted-IsNamed n none e h = e
  counted-IsNamed n (some pn) e h = h

  -- The entry counts the shown nodes of the package, says whether one is a test, and lists their kinds.
  abbrev pub IsTallied : Option PackageNode → Dict Node → PackageNode → Type 0
  IsTallied o ns pn =
      (pn.pkg ≡ p)
      × (pn.target_count ≡ total_of o + target_total ns)
      × ((pn.has_tests ≡ true) ↔ (HasTests o ⊎ HasTarget (λ n. n.is_test ≡ true) ns))
      × ((kind : Str) → In kind pn.kinds ↔ (HasKind kind o ⊎ HasTarget (λ n. n.kind ≡ kind) ns))

  pub tally-IsTallied :
      (ns : Dict Node) (o : Option PackageNode) (pn : PackageNode)
      → IsNamed o
      → tally ns o ≡ some pn
      → IsTallied o ns pn
  tally-IsTallied [] none pn h e = absurd (cc)
  tally-IsTallied [] (some q) pn h e =
      let same : q ≡ pn = ground arith in
      subst (IsTallied (some q) []) same (
        h,
        omega arith,
        (inl, λ x. elim x [ inl y ↦ y | inr (n, i, r, t, u) ↦ elim i [ ] ]),
        λ kind. (inl, λ x. elim x [ inl y ↦ y | inr (n, i, r, t, u) ↦ elim i [ ] ]),
      )
  tally-IsTallied ((k, n) ∷ ns) o pn h e = elim (Bool-cases (counts n)) [
    | inl c ↦
        let s : is_shown hide_tests hide_external n ≡ true = ground (arith, c) in
        let z : str_eq n.pkg p ≡ true = ground (arith, c, s) in
        let same = (str_eq_iff n.pkg p).0 z in
        let (named, total, tests, kinds) =
          tally-IsTallied ns (some (count_target n (entry n o))) pn (counted-IsNamed n o same h)
            (rw c at e) in
        let one = counted-total n o in
        (
          named,
          rw c (omega (arith, total, one)),
          step_counted (λ m. m.is_test ≡ true) k n ns s same (counted-HasTests n o) tests,
          λ kind.
              step_counted (λ m. m.kind ≡ kind) k n ns s same (counted-HasKind kind n o)
                (kinds kind),
        )
    | inr c ↦
        let (named, total, tests, kinds) = tally-IsTallied ns o pn h (rw c at e) in
        (
          named,
          rw c (omega (arith, total)),
          step_skipped (λ m. m.is_test ≡ true) k n ns c tests,
          λ kind. step_skipped (λ m. m.kind ≡ kind) k n ns c (kinds kind),
        )
  ]

  pub tally-some :
      (ns : Dict Node) (o : Option PackageNode)
      → 0 < total_of o + target_total ns
      → (pn : PackageNode) × (tally ns o ≡ some pn)
  tally-some [] none h = absurd (omega (arith, h))
  tally-some [] (some q) h = (q, refl)
  tally-some ((k, n) ∷ ns) o h = elim (Bool-cases (counts n)) [
    | inl c ↦
        let one = counted-total n o in
        rw c (tally-some ns (some (count_target n (entry n o))) (omega (arith, one)))
    | inr c ↦
        let some_left : 0 < total_of o + target_total ns = let z = rw c at h in omega (arith, z) in
        rw c (tally-some ns o some_left)
  ]

  pub tally-pos :
      (ns : Dict Node) (pn : PackageNode) → tally ns none ≡ some pn → 0 < target_total ns
  tally-pos [] pn e = absurd (cc)
  tally-pos ((k, n) ∷ ns) pn e = elim (Bool-cases (counts n)) [
    | inl c ↦ rw c (omega arith)
    | inr c ↦ rw c (let z = tally-pos ns pn (rw c at e) in omega (arith, z))
  ]
