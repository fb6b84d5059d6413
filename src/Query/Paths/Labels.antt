-- ===== src/Query/Paths/Labels.antt =====
-- pkg/graphquery/query.go: what holds of the distances, the parents and the queue of FindPaths, while
-- the neighbours of the first entry of the queue are visited.
use toposcope.Base.{
  ℕ, ◌+◌, ◌≤◌, ◌≡◌, refl, sym, ap, ap₂, subst, ◌⊎◌, inl, inr, List, [], ◌∷◌, ◌++◌, none, some,
  arith, Str, Dict, In, In-append, lookup, insert, get_or, lookup-insert, get_or-insert, str_eq,
  str_eq_iff, Bool-cases,
}
use toposcope.Graph.{Edge}
use toposcope.Query.Paths.Walks.{HasEdge}

-- Every depth in the list is at least n; no depth is greater than one behind it.
abbrev pub AtLeast : ℕ → List (Str × ℕ) → Type 0
AtLeast n [] = Unit
AtLeast n ((k, m) ∷ q) = (n ≤ m) × AtLeast n q

abbrev pub IsAscending : List (Str × ℕ) → Type 0
IsAscending [] = Unit
IsAscending ((k, n) ∷ q) = AtLeast n q × IsAscending q

pub AtLeast-In : (n : ℕ) (q : List (Str × ℕ)) (k : Str) (m : ℕ) → AtLeast n q → In (k, m) q → n ≤ m
AtLeast-In n [] k m h i = elim i [ ]
AtLeast-In n ((j, l) ∷ q) k m h i = elim i [
  | inl e ↦ let same : m ≡ l = ap (λ x. x.1) e in omega (arith, h.0, same)
  | inr r ↦ AtLeast-In n q k m h.1 r
]

AtLeast-concat :
    (n : ℕ) (q : List (Str × ℕ)) (k : Str) (m : ℕ)
    → AtLeast n q
    → n ≤ m
    → AtLeast n (q ++ (k, m) ∷ [])
AtLeast-concat n [] k m h l = (l, tt)
AtLeast-concat n ((j, i) ∷ q) k m h l = (h.0, AtLeast-concat n q k m h.1 l)

IsAscending-concat :
    (q : List (Str × ℕ)) (k : Str) (m : ℕ)
    → IsAscending q
    → ((j : Str) (n : ℕ) → In (j, n) q → n ≤ m)
    → IsAscending (q ++ (k, m) ∷ [])
IsAscending-concat [] k m h l = (tt, tt)
IsAscending-concat ((j, i) ∷ q) k m h l = (
  AtLeast-concat i q k m h.0 (l j i (inl refl)),
  IsAscending-concat q k m h.1 (λ x n r. l x n (inr r)),
)

module _ (es : List Edge) (sources : List Str) where
  -- Every edge from the node leads to a node that is at most one step farther.
  abbrev pub IsDone : Dict ℕ → Str → ℕ → Type 0
  IsDone dist k n = (m : Str) → HasEdge es k m → (d : ℕ) × (lookup m dist ≡ some d) × (d ≤ n + 1)

  -- The sources have distance 0, any other node has parents, one step nearer; the queue ascends and has
  -- nodes that lie less than two steps apart, and a node with a distance is queued or done.
  pub record InOrder (dist : Dict ℕ) (parents : Dict (List Str)) (queue : List (Str × ℕ))
      : Type 0 where
    pub zero_source : (k : Str) → lookup k dist ≡ some 0 → In k sources
    pub source_zero : (k : Str) → In k sources → lookup k dist ≡ some 0
    pub parent :
        (k p : Str)
        → In p (get_or k parents [])
        → HasEdge es p k × (n : ℕ) × (lookup p dist ≡ some n) × (lookup k dist ≡ some (n + 1))
    pub has_parent :
        (k : Str) (n : ℕ) → lookup k dist ≡ some (n + 1) → (p : Str) × In p (get_or k parents [])
    pub queued : (k : Str) (n : ℕ) → In (k, n) queue → lookup k dist ≡ some n
    pub ascending : IsAscending queue
    pub near : (k t : Str) (n d : ℕ) → In (k, n) queue → lookup t dist ≡ some d → d ≤ n + 1
    pub seen : (k : Str) (n : ℕ) → lookup k dist ≡ some n → In (k, n) queue ⊎ IsDone dist k n

  abbrev pub Grows : Dict ℕ → Dict ℕ → Type 0
  Grows old new = (k : Str) (n : ℕ) → lookup k old ≡ some n → lookup k new ≡ some n

  module _ (dist : Dict ℕ) (parents : Dict (List Str)) (q : List (Str × ℕ)) (x : Str) (d : ℕ)
      (m : Str) (o : InOrder dist parents ((x, d) ∷ q)) (edge : HasEdge es x m) where
    pub grows_new : lookup m dist ≡ none → Grows dist (insert m (d + 1) dist)
    grows_new h k n e = elim (Bool-cases (str_eq m k)) [
      | inl s ↦ let same = (str_eq_iff m k).0 s in absurd (cc)
      | inr s ↦ rw (lookup-insert, s) e
    ]

    old_or_new :
        (k : Str) (n : ℕ)
        → lookup k (insert m (d + 1) dist) ≡ some n
        → ((m ≡ k) × (n ≡ d + 1)) ⊎ (lookup k dist ≡ some n)
    old_or_new k n h = elim (Bool-cases (str_eq m k)) [
      | inl s ↦
          let e : some (d + 1) ≡ some n = rw (lookup-insert, s) at h in
          inl ((str_eq_iff m k).0 s, ground arith)
      | inr s ↦ inr (rw (lookup-insert, s) at h)
    ]

    In-queue :
        (k : Str) (n : ℕ)
        → In (k, n) ((x, d) ∷ (q ++ (m, d + 1) ∷ []))
        → In (k, n) ((x, d) ∷ q) ⊎ ((k ≡ m) × (n ≡ d + 1))
    In-queue k n h = elim ((In-append (k, n) ((x, d) ∷ q) ((m, d + 1) ∷ [])).0 h) [
      | inl i ↦ inl i
      | inr (inl e) ↦ inr (ap (λ y. y.0) e, ap (λ y. y.1) e)
      | inr (inr e) ↦ elim e [ ]
    ]

    pub x_dist : lookup x dist ≡ some d
    x_dist = o.queued x d (inl refl)

    pub visit_new :
        lookup m dist ≡ none
        → InOrder
            (insert m (d + 1) dist)
            (insert m (x ∷ []) parents)
            ((x, d) ∷ (q ++ (m, d + 1) ∷ []))
    visit_new h = record {
      zero_source = λ k e. elim (old_or_new k 0 e) [
        | inl (s, z) ↦ absurd (omega (arith, z))
        | inr old ↦ o.zero_source k old
      ];
      source_zero = λ k i. grows_new h k 0 (o.source_zero k i);
      parent = λ k p i. elim (Bool-cases (str_eq m k)) [
        | inl s ↦
            let j : In p (x ∷ []) = rw (get_or-insert, s) at i in
            let same = (str_eq_iff m k).0 s in
            elim j [
              | inl e ↦
                  subst
                    (λ y.
                      HasEdge es y k
                      × (n : ℕ) × (lookup y (insert m (d + 1) dist) ≡ some n)
                      × (lookup k (insert m (d + 1) dist) ≡ some (n + 1)))
                    (sym e)
                    (
                      subst (HasEdge es x) same edge,
                      d,
                      grows_new h x d x_dist,
                      rw (lookup-insert, s) refl,
                    )
              | inr e ↦ elim e [ ]
            ]
        | inr s ↦
            let (has, n, e, f) = o.parent k p (rw (get_or-insert, s) at i) in
            (has, n, grows_new h p n e, grows_new h k (n + 1) f)
      ];
      has_parent = λ k n l. elim (Bool-cases (str_eq m k)) [
        | inl s ↦ (x, rw (get_or-insert, s) (inl refl))
        | inr s ↦
            let (p, i) = o.has_parent k n (rw (lookup-insert, s) at l) in
            (p, rw (get_or-insert, s) i)
      ];
      queued = λ k n i. elim (In-queue k n i) [
        | inl old ↦ grows_new h k n (o.queued k n old)
        | inr (e, f) ↦ rw (e, f, lookup-insert, (str_eq_iff m m).1 refl) refl
      ];
      ascending =
          IsAscending-concat ((x, d) ∷ q) m (d + 1) o.ascending
            (λ j n i. o.near x j d n (inl refl) (o.queued j n i));
      near = λ k t n e i l. elim (old_or_new t e l) [
        | inl (s, new) ↦ elim (In-queue k n i) [
          | inl old ↦
              let b = AtLeast-In d ((x, d) ∷ q) k n (omega arith, o.ascending.0) old in
              omega (arith, b, new)
          | inr (a, c) ↦ omega (arith, new, c)
        ]
        | inr old_t ↦ elim (In-queue k n i) [
          | inl old ↦ o.near k t n e old old_t
          | inr (a, c) ↦ let b = o.near x t d e (inl refl) old_t in omega (arith, b, c)
        ]
      ];
      seen = λ k n l. elim (old_or_new k n l) [
        | inl (s, e) ↦ inl (
            inr (
              (In-append (k, n) q ((m, d + 1) ∷ [])).1 (inr (inl (ap₂ (λ a b. (a, b)) (sym s) e)))))
        | inr old ↦ elim (o.seen k n old) [
          | inl i ↦ inl ((In-append (k, n) ((x, d) ∷ q) ((m, d + 1) ∷ [])).1 (inl i))
          | inr f ↦ inr (λ y g. let (c, e, b) = f y g in (c, grows_new h y c e, b))
        ]
      ];
    }

    pub visit_again :
        lookup m dist ≡ some (d + 1)
        → InOrder dist (insert m (get_or m parents [] ++ x ∷ []) parents) ((x, d) ∷ q)
    visit_again h = record {
      zero_source = o.zero_source;
      source_zero = o.source_zero;
      parent = λ k p i. elim (Bool-cases (str_eq m k)) [
        | inl s ↦
            let same = (str_eq_iff m k).0 s in
            let j : In p (get_or m parents [] ++ x ∷ []) = rw (get_or-insert, s) at i in
            subst
              (λ y.
                HasEdge es p y
                × (n : ℕ) × (lookup p dist ≡ some n)
                × (lookup y dist ≡ some (n + 1)))
              same
              (elim ((In-append p (get_or m parents []) (x ∷ [])).0 j) [
                | inl old ↦ o.parent m p old
                | inr (inl e) ↦
                    subst
                      (λ y.
                        HasEdge es y m
                        × (n : ℕ) × (lookup y dist ≡ some n)
                        × (lookup m dist ≡ some (n + 1)))
                      (sym e) (edge, d, x_dist, h)
                | inr (inr e) ↦ elim e [ ]
              ])
        | inr s ↦ o.parent k p (rw (get_or-insert, s) at i)
      ];
      has_parent = λ k n l. elim (Bool-cases (str_eq m k)) [
        | inl s ↦ (
          x,
          rw (get_or-insert, s) ((In-append x (get_or m parents []) (x ∷ [])).1 (inr (inl refl))),
        )
        | inr s ↦ let (p, i) = o.has_parent k n l in (p, rw (get_or-insert, s) i)
      ];
      queued = o.queued;
      ascending = o.ascending;
      near = o.near;
      seen = o.seen;
    }
