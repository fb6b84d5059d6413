-- ===== src/Query/Packages/Correct.antt =====
-- pkg/graphquery/query.go: what AggregatePackages says of the packages.
use toposcope.Base.{
  ℕ, ◌+◌, ◌≤◌, ◌<◌, ltb, ◌≡◌, refl, sym, ◌∙◌, ap, ◌⊎◌, inl, inr, ◌↔◌, Bool, true, false, ◌&&◌, List,
  [], ◌∷◌, none, some, arith, Str, Dict, keys, lookup, In, In-filter, contains, NoDup,
  NoDup-keys-insert, count, filter, length, length-filter, str_eq, str_eq_iff, Bool-cases,
}
use toposcope.Base.Sort.{SortSlice, Sorts}
use toposcope.Graph.{Node, Snapshot}
use toposcope.Query.Rank.{keep}
use toposcope.Query.Rank.Laws.{length-keep, count-NoDup}
use toposcope.Query.Packages.{
  PackageNode, PackageEdge, PackageGraphResult, is_shown, entry, count_target, package_nodes,
  package_degrees, package_result, package_edges, aggregate_packages, package_cap, min_weight,
  edge_weights, included_targets,
}
use toposcope.Query.Packages.Nodes.{
  HasTarget, target_total, tally, lookup-package_nodes, tally-IsTallied, tally-some, tally-pos,
}

-- The entry of a package: how many shown nodes it has, whether one is a test, and their kinds.
abbrev pub Describes : Bool → Bool → Str → Dict Node → PackageNode → Type 0
Describes hide_tests hide_external p ns pn =
    (pn.pkg ≡ p)
    × (0 < pn.target_count)
    × (pn.target_count ≡ target_total hide_tests hide_external p ns)
    × ((pn.has_tests ≡ true) ↔ HasTarget hide_tests hide_external p (λ n. n.is_test ≡ true) ns)
    × ((kind : Str)
        → In kind pn.kinds ↔ HasTarget hide_tests hide_external p (λ n. n.kind ≡ kind) ns)

none_left : {X A : Type 0} → X ↔ (⊥ ⊎ A) → X ↔ A
none_left f = (λ x. elim (f.0 x) [ inl no_case ↦ absurd no_case | inr a ↦ a ], λ a. f.1 (inr a))

tally-Describes :
    (hide_tests hide_external : Bool) (p : Str) (ns : Dict Node) (pn : PackageNode)
    → tally hide_tests hide_external p ns none ≡ some pn
    → Describes hide_tests hide_external p ns pn
tally-Describes ht he p ns pn e =
    let (named, total, tests, kinds) = tally-IsTallied ht he p ns none pn tt e in
    let z = tally-pos ht he p ns pn e in
    (
      named,
      omega (arith, total, z),
      omega (arith, total),
      none_left tests,
      λ kind. none_left (kinds kind),
    )

package_nodes-NoDup :
    (hide_tests hide_external : Bool) (ns : Dict Node) (m : Dict PackageNode)
    → NoDup (keys m)
    → NoDup (keys (package_nodes hide_tests hide_external ns m))
unfolding package_nodes
package_nodes-NoDup ht he [] m d = d
package_nodes-NoDup ht he ((k, n) ∷ ns) m d = elim (Bool-cases (is_shown ht he n)) [
  | inl s ↦
      rw (package_nodes, s)
        (package_nodes-NoDup ht he ns _
          (NoDup-keys-insert n.pkg (count_target n (entry n (lookup n.pkg m))) m d))
  | inr s ↦ rw (package_nodes, s) (package_nodes-NoDup ht he ns m d)
]

module _ {V : Type 0} where
  count-kept :
      (kept : List Str) (m : Dict V)
      → NoDup (keys m)
      → count (λ (x : Str × V). contains x.0 kept) m ≤ length kept
  unfolding contains
  count-kept [] m d = let z = none_kept m in omega (arith, z)
    where
      none_kept : (m : Dict V) → count (λ (x : Str × V). contains x.0 []) m ≡ 0
      none_kept [] = refl
      none_kept (x ∷ m) = omega (arith, none_kept m)
  count-kept (j ∷ kept) m d =
      let a = split m in
      let b = count-kept kept m d in let c = count-NoDup j (keys m) d in omega (arith, a, b, c)
    where
      split :
          (m : Dict V)
          → count (λ (x : Str × V). contains x.0 (j ∷ kept)) m
            ≤ count (str_eq j) (keys m) + count (λ (x : Str × V). contains x.0 kept) m
      split [] = omega arith
      split ((k, v) ∷ m) = ground (arith, split m)

  lookup-filter :
      (p : Str) (kept : List Str) (m : Dict V) (v : V)
      → lookup p (filter (λ (x : Str × V). contains x.0 kept) m) ≡ some v
      → lookup p m ≡ some v
  unfolding lookup
  lookup-filter p kept [] v h = h
  lookup-filter p kept ((k, w) ∷ m) v h = elim (Bool-cases (str_eq k p)) [
    | inl e ↦ elim (Bool-cases (contains k kept)) [
      | inl c ↦ rw e (rw (c, e) at h)
      | inr c ↦ later (rw c at h) e c
    ]
    | inr e ↦ elim (Bool-cases (contains k kept)) [
      | inl c ↦ rw e (lookup-filter p kept m v (rw (c, e) at h))
      | inr c ↦ rw e (lookup-filter p kept m v (rw c at h))
    ]
  ]
    where
      absent :
          (m : Dict V)
          → contains p kept ≡ false
          → lookup p (filter (λ (x : Str × V). contains x.0 kept) m) ≡ none
      absent [] c = refl
      absent ((k, w) ∷ m) c = ground (arith, absent m c, str_eq_iff k p)

      later :
          lookup p (filter (λ (x : Str × V). contains x.0 kept) m) ≡ some v
          → str_eq k p ≡ true
          → contains k kept ≡ false
          → lookup p ((k, w) ∷ m) ≡ some v
      later g e c =
          let same = (str_eq_iff k p).0 e in let z = absent m (rw same at c) in absurd (cc)

package_edges-least :
    (least : ℕ) (m : Dict ℕ) (e : PackageEdge) → In e (package_edges least m) → least ≤ e.weight
unfolding package_edges
package_edges-least least [] e i = elim i [ ]
package_edges-least least ((k, w) ∷ m) e i = elim (Bool-cases (ltb w least)) [
  | inl small ↦ package_edges-least least m e (rw (package_edges, small) at i)
  | inr large ↦ elim (rw (package_edges, large) at i) [
    | inl same ↦ let z = ap (λ x. x.weight) same in ground (arith, large, z)
    | inr j ↦ package_edges-least least m e j
  ]
]

-- What holds of the result, of the nodes before the cut.
abbrev pub IsSummary : Snapshot → Bool → Bool → ℕ → ℕ → PackageGraphResult → Type 0
IsSummary s hide_tests hide_external least cap r =
    ((p : Str) (pn : PackageNode)
      → lookup p r.nodes ≡ some pn
      → Describes hide_tests hide_external p s.nodes pn)
    × (length r.nodes ≤ cap)
    × (r.truncated ≡ false
        → (p : Str) → 0 < target_total hide_tests hide_external p s.nodes
        → (pn : PackageNode) × (lookup p r.nodes ≡ some pn))
    × ((e : PackageEdge) → In e r.edges → least ≤ e.weight)

module _ (sort : SortSlice) (laws : Sorts sort) (s : Snapshot) (hide_tests hide_external : Bool)
    (least cap : ℕ) where
  package_result_lem :
      (nodes : Dict PackageNode) (edges : List PackageEdge)
      → NoDup (keys nodes)
      → ((p : Str) (pn : PackageNode)
          → lookup p nodes ≡ some pn
          → Describes hide_tests hide_external p s.nodes pn)
      → ((p : Str)
          → 0 < target_total hide_tests hide_external p s.nodes
          → (pn : PackageNode) × (lookup p nodes ≡ some pn))
      → ((e : PackageEdge) → In e edges → least ≤ e.weight)
      → IsSummary s hide_tests hide_external least cap (package_result sort s cap nodes edges)
  unfolding package_result
  package_result_lem nodes edges d right all heavy = elim (Bool-cases (ltb cap (length nodes))) [
    | inl over ↦
        let kept = keep sort cap (package_degrees edges []) (keys nodes) in
        rw (package_result, over)
          (
            λ p pn h. right p pn (lookup-filter p kept nodes pn h),
            (let a = length-filter (λ x. contains x.0 kept) nodes in
                let b = count-kept kept nodes d in
                let c = length-keep sort laws cap (package_degrees edges []) (keys nodes) in
                omega (arith, a, b, c)),
            λ h. absurd (cc),
            λ e i.
                heavy e
                  ((In-filter e (λ x. contains x.from kept && contains x.to kept) edges).0 i).0,
          )
    | inr within ↦ rw (package_result, within) (right, ground (arith, within), λ h. all, heavy)
  ]

-- Each package of the result has at least one node that is not hidden, and its entry counts these nodes,
-- says whether one is a test and lists their kinds. There are not more packages than the cap (500
-- where it is 0), none is missing where the result is not marked as truncated, and every edge has
-- the weight that is asked for, which is 1 where it is 0.
pub aggregate_packages_lem :
    (sort : SortSlice) (laws : Sorts sort) (s : Snapshot) (hide_tests hide_external : Bool)
    (min_edge_weight max_pkgs : ℕ)
    → IsSummary s hide_tests hide_external
        (min_weight min_edge_weight)
        (package_cap max_pkgs)
        (aggregate_packages sort s hide_tests hide_external min_edge_weight max_pkgs)
unfolding aggregate_packages lookup
aggregate_packages_lem sort laws s ht he w m =
    let nodes = package_nodes ht he s.nodes [] in
    let weights = edge_weights s.nodes (included_targets ht he nodes s.nodes []) s.edges [] in
    package_result_lem sort laws s ht he (min_weight w) (package_cap m) nodes
      (package_edges (min_weight w) weights) (package_nodes-NoDup ht he s.nodes [] tt)
      (λ p pn h.
        tally-Describes ht he p s.nodes pn (sym (lookup-package_nodes ht he p s.nodes []) ∙ h))
      (λ p h.
        let (pn, e) = tally-some ht he p s.nodes none (omega (arith, h)) in
        (pn, lookup-package_nodes ht he p s.nodes [] ∙ e))
      (package_edges-least (min_weight w) weights)
