-- ===== src/Query/Packages/Weights.antt =====
-- pkg/graphquery/query.go: the weights of the edges that AggregatePackages returns.
use toposcope.Base.{
  ℕ, ◌≤◌, ◌<◌, ltb, ◌≡◌, ◌≢◌, refl, sym, ◌∙◌, ap, ap₂, subst, inl, inr, ◌↔◌, Bool, true, false, not,
  ◌&&◌, ◌||◌, List, [], ◌∷◌, Option, none, some, arith, Str, Dict, keys, lookup, get_or, In,
  In-iff_lookup, In-of_lookup, NoDup, values, contains, count, before, after, is_empty, str_eq,
  str_eq_iff, Bool-cases, Option-cases,
}
use toposcope.Graph.{Node, Edge}
use toposcope.Query.Packages.{
  PackageEdge, ends_of, crossing, weight_key, edge_weights, second_part, package_edges,
}
use toposcope.Query.Packages.Edges.{
  weight_key-parts, weight_key-injective, has_key_of, get_or-edge_weights, keys-edge_weights,
  NoDup-edge_weights,
}

-- The edge counts for these two packages.
abbrev pub links : Str → Str → Option (Str × Str) → Bool
links f t none = false
links f t (some (g, u)) = str_eq g f && str_eq u t

-- How many edges lead from included targets of the one package to those of the other.
abbrev pub link_total : Dict Node → List Str → Str → Str → List Edge → ℕ
link_total nodes included f t es = count (λ e. links f t (crossing nodes included e)) es

pub In-values : (k : Str) (n : Node) (m : Dict Node) → In (k, n) m → In n (values m)
In-values k n [] i = elim i [ ]
In-values k n ((j, o) ∷ m) i = elim i [
  | inl e ↦ inl (ap (λ x. x.1) e)
  | inr r ↦ inr (In-values k n m r)
]

pub count-same :
    {A : Type 0} (p q : A → Bool) (xs : List A) → ((x : A) → p x ≡ q x) → count p xs ≡ count q xs
count-same p q [] h = refl
count-same p q (x ∷ xs) h = rw (h x) (let r = count-same p q xs h in omega (arith, r))

count-some : {A : Type 0} (p : A → Bool) (xs : List A) → 0 < count p xs → (x : A) × (p x ≡ true)
count-some p [] h = absurd (omega (arith, h))
count-some p (x ∷ xs) h = elim (Bool-cases (p x)) [
  | inl e ↦ (x, e)
  | inr e ↦ let z = rw e at h in count-some p xs (omega (arith, z))
]

get_or-In : (k : Str) (w : ℕ) (m : Dict ℕ) → get_or k m 0 ≡ w → 0 < w → In (k, w) m
unfolding get_or
get_or-In k w [] e h = absurd (omega (arith, e, h))
get_or-In k w ((j, v) ∷ m) e h = elim (Bool-cases (str_eq j k)) [
  | inl s ↦ inl (ap₂ (λ x y. (x, y)) (sym ((str_eq_iff j k).0 s)) (sym (rw s at e)))
  | inr s ↦ inr (get_or-In k w m (rw s at e) h)
]

In-get_or : (k : Str) (w : ℕ) (m : Dict ℕ) → NoDup (keys m) → In (k, w) m → get_or k m 0 ≡ w
unfolding get_or lookup
In-get_or k w m d i = found m ((In-iff_lookup k w m d).0 i)
  where
    found : (m : Dict ℕ) → lookup k m ≡ some w → get_or k m 0 ≡ w
    found [] h = absurd (cc)
    found ((j, v) ∷ m) h = ground (arith, found m)

-- The entries of the map that are heavy enough, with their keys split.
abbrev IsEntry : ℕ → PackageEdge → Dict ℕ → Type 0
IsEntry least x m =
    (key : Str) × In (key, x.weight) m
    × (least ≤ x.weight)
    × (x.from ≡ before b'|' key)
    × (x.to ≡ second_part (after b'|' key))

In-package_edges :
    (least : ℕ) (m : Dict ℕ) (x : PackageEdge) → In x (package_edges least m) ↔ IsEntry least x m
unfolding package_edges
In-package_edges least [] x = (λ i. elim i [ ], λ (k, i, r, s, t). elim i [ ])
In-package_edges least ((k, w) ∷ m) x = elim (Bool-cases (ltb w least)) [
  | inl small ↦
      rw (package_edges, small)
        (
          λ i. let (key, j, r, s, t) = (In-package_edges least m x).0 i in (key, inr j, r, s, t),
          λ (key, j, r, s, t). elim j [
            | inl e ↦ let z = ap (λ y. y.1) e in absurd (ground (arith, small, r, z))
            | inr l ↦ (In-package_edges least m x).1 (key, l, r, s, t)
          ],
        )
  | inr large ↦
      rw (package_edges, large)
        (
          λ i. elim i [
            | inl e ↦
                let z = ap (λ y. y.weight) e in
                (
                  k,
                  inl (ap (λ y. (k, y)) z),
                  ground (arith, large, z),
                  ap (λ y. y.from) e,
                  ap (λ y. y.to) e,
                )
            | inr j ↦
                let (key, l, r, s, t) = (In-package_edges least m x).0 j in (key, inr l, r, s, t)
          ],
          λ (key, j, r, s, t). elim j [
            | inl e ↦
                let a = ap (λ y. y.0) e in
                inl (
                  same x k w (s ∙ ap (before b'|') a) (t ∙ ap (λ y. second_part (after b'|' y)) a)
                    (ap (λ y. y.1) e))
            | inr l ↦ inr ((In-package_edges least m x).1 (key, l, r, s, t))
          ],
        )
]
  where
    same :
        (x : PackageEdge) (k : Str) (w : ℕ)
        → x.from ≡ before b'|' k
        → x.to ≡ second_part (after b'|' k)
        → x.weight ≡ w
        → x ≡ record { from = before b'|' k; to = second_part (after b'|' k); weight = w }
    same x k w a b c = λ i. record { from = a i; to = b i; weight = c i }

module _ (nodes : Dict Node) (included : List Str)
    (free : (n : Node) → In n (values nodes) → ¬ In b'|' n.pkg) where
  ends_lem :
      (o p : Option Node) (f t : Str)
      → ends_of o p ≡ some (f, t)
      → ((n : Node) × (o ≡ some n) × (n.pkg ≡ f)) × (f ≢ t)
  unfolding ends_of
  ends_lem none p f t h = absurd (cc)
  ends_lem (some n) none f t h = absurd (cc)
  ends_lem (some n) (some k) f t h =
      elim (Bool-cases (str_eq n.pkg k.pkg || is_empty n.pkg || is_empty k.pkg)) [
        | inl e ↦ absurd (cc (rw e at h))
        | inr e ↦
            let g : some (n.pkg, k.pkg) ≡ some (f, t) = rw e at h in
            let a : n.pkg ≡ f = ground arith in
            let b : k.pkg ≡ t = ground arith in
            let apart : str_eq n.pkg k.pkg ≡ false = ground (arith, e) in
            ((n, refl, a), λ same. cc ((str_eq_iff n.pkg k.pkg).1 (a ∙ same ∙ sym b), apart))
      ]

  crossing_lem :
      (e : Edge) (f t : Str) → crossing nodes included e ≡ some (f, t) → (¬ In b'|' f) × (f ≢ t)
  unfolding crossing
  crossing_lem e f t h =
      elim (Bool-cases (not (contains e.from included) || not (contains e.to included))) [
        | inl x ↦ absurd (cc (rw x at h))
        | inr x ↦
            let ((n, a, b), apart) =
              ends_lem (lookup e.from nodes) (lookup e.to nodes) f t (rw x at h) in
            let i = In-values e.from n nodes (In-of_lookup e.from n nodes a) in
            (subst (λ y. ¬ In b'|' y) b (free n i), apart)
      ]

  links_lem :
      (f t : Str)
      → ¬ In b'|' f
      → (e : Edge)
      → has_key_of nodes included (weight_key (f, t)) (crossing nodes included e)
        ≡ links f t (crossing nodes included e)
  links_lem f t h e = elim (Option-cases (crossing nodes included e)) [
    | inl c ↦ rw c refl
    | inr ((g, u), c) ↦ rw c (elim (Bool-cases (str_eq (weight_key (g, u)) (weight_key (f, t)))) [
      | inl s ↦
          let (a, b) =
            weight_key-injective g u f t (crossing_lem e g u c).0 h
              ((str_eq_iff (weight_key (g, u)) (weight_key (f, t))).0 s) in
          rw (s, (str_eq_iff g f).1 a, (str_eq_iff u t).1 b) refl
      | inr s ↦ rw s (
          sym (elim (Bool-cases (str_eq g f && str_eq u t)) [
            | inr no_link ↦ no_link
            | inl both ↦
                let x : str_eq g f ≡ true = ground (arith, both) in
                let y : str_eq u t ≡ true = ground (arith, both, x) in
                absurd (
                  cc (
                    (str_eq_iff (weight_key (g, u)) (weight_key (f, t))).1 (
                        ap₂ (λ v w. weight_key (v, w)) ((str_eq_iff g f).0 x)
                          ((str_eq_iff u t).0 y)),
                    s,
                  ))
          ]))
    ])
  ]

  weight_eq :
      (f t : Str) (es : List Edge)
      → ¬ In b'|' f
      → get_or (weight_key (f, t)) (edge_weights nodes included es []) 0
        ≡ link_total nodes included f t es
  unfolding get_or
  weight_eq f t es h =
      let a = get_or-edge_weights nodes included (weight_key (f, t)) es [] in
      let b = count-same _ _ es (links_lem f t h) in omega (arith, a, b)

  -- Where no package has a '|', the edges are those between two packages with a positive number of edges
  -- that is not below the least weight, and this number is their weight.
  pub package_edges_iff :
      (least : ℕ) (es : List Edge) (x : PackageEdge)
      → 0 < least
      → In x (package_edges least (edge_weights nodes included es [])) ↔ (
          (x.from ≢ x.to)
          × (x.weight ≡ link_total nodes included x.from x.to es)
          × (least ≤ x.weight))
  package_edges_iff least es x pos = (
    λ i.
        let (key, j, r, s, t) = (In-package_edges least m x).0 i in
        elim (keys-edge_weights nodes included key x.weight es [] j) [
          | inl (v, old) ↦ elim old [ ]
          | inr (e, (f, u), c, k) ↦
              let (fresh, apart) = crossing_lem e f u c in
              let (a, b) = weight_key-parts f u fresh in
              let from_eq : x.from ≡ f = s ∙ ap (before b'|') k ∙ a in
              let to_eq : x.to ≡ u = t ∙ ap (λ y. second_part (after b'|' y)) k ∙ b in
              let total : x.weight ≡ link_total nodes included f u es =
                sym (In-get_or key x.weight m (NoDup-edge_weights nodes included es [] tt) j)
                ∙ ap (λ y. get_or y m 0) k
                ∙ weight_eq f u es fresh in
              (
                λ same. apart (sym from_eq ∙ same ∙ to_eq),
                total ∙ sym (ap₂ (λ y z. link_total nodes included y z es) from_eq to_eq),
                r,
              )
        ],
    λ (apart, total, r).
        let (e, linked) =
          count-some (λ e. links x.from x.to (crossing nodes included e)) es
            (omega (arith, total, r, pos)) in
        let fresh = from_free e linked in
        let (a, b) = weight_key-parts x.from x.to fresh in
        let w = weight_eq x.from x.to es fresh ∙ sym total in
        (In-package_edges least m x).1 (
          weight_key (x.from, x.to),
          get_or-In _ x.weight m w (omega (arith, r, pos)),
          r,
          sym a,
          sym b,
        ),
  )
    where
      m : Dict ℕ
      m = edge_weights nodes included es []

      from_free :
          (e : Edge) → links x.from x.to (crossing nodes included e) ≡ true → ¬ In b'|' x.from
      from_free e linked = elim (Option-cases (crossing nodes included e)) [
        | inl c ↦ absurd (cc (rw c at linked))
        | inr ((g, u), c) ↦
            let both : (str_eq g x.from && str_eq u x.to) ≡ true = rw c at linked in
            let s : str_eq g x.from ≡ true = ground (arith, both) in
            subst (λ y. ¬ In b'|' y) ((str_eq_iff g x.from).0 s) (crossing_lem e g u c).0
      ]
