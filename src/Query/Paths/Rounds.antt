-- ===== src/Query/Paths/Rounds.antt =====
-- pkg/graphquery/query.go: one round of the loop of FindPaths keeps what holds of its variables.
use toposcope.Base.{
  length, length-map, ℕ, ◌+◌, ◌≤◌, ◌==◌, ==_iff, ◌≡◌, refl, sym, ◌∙◌, ap, subst, inl, inr, List, [],
  ◌∷◌, ◌++◌, append_assoc, append-nil, map, none, some, arith, Str, Dict, In, lookup, insert,
  lookup-insert, get_or, contains, contains_iff, str_eq, str_eq_iff, if◌then◌else◌, Bool-cases,
  Option-cases,
}
use toposcope.Graph.{Edge}
use toposcope.Query.Paths.{Bfs, start, visit, visit_all}
use toposcope.Query.Paths.Walks.{HasEdge}
use toposcope.Query.Paths.Labels.{
  InOrder, IsDone, Grows, AtLeast, IsAscending, visit_new, visit_again, grows_new,
}

abbrev pub nothing : Bfs
nothing = record { dist = []; parents = []; queue = [] }

module _ (es : List Edge) (sources : List Str) where
  -- The invariant, with `front` before the queue.
  abbrev pub Ordered : List (Str × ℕ) → Bfs → Type 0
  Ordered front b = InOrder es sources b.dist b.parents (front ++ b.queue)

  -- The node has a distance, and it is at most d.
  abbrev pub Reached : Dict ℕ → ℕ → Str → Type 0
  Reached dist d m = (c : ℕ) × (lookup m dist ≡ some c) × (c ≤ d)

  abbrev Visited : Str → ℕ → Bfs → List Str → Bfs → Type 0
  Visited x d old ms new =
      Ordered ((x, d) ∷ []) new
      × Grows es sources old.dist new.dist
      × ((m : Str) → In m ms → Reached new.dist (d + 1) m)

  visit_lem :
      (x : Str) (d : ℕ) (m : Str) (b : Bfs)
      → Ordered ((x, d) ∷ []) b
      → HasEdge es x m
      → Visited x d b (m ∷ []) (visit x (d + 1) m b)
  unfolding visit
  visit_lem x d m b o edge = elim (Option-cases (lookup m b.dist)) [
    | inl new ↦
        rw (visit, new)
          (
            visit_new es sources b.dist b.parents b.queue x d m o edge new,
            grows_new es sources b.dist b.parents b.queue x d m o edge new,
            λ k i. elim i [
              | inl e ↦ (d + 1, rw (e, lookup-insert, (str_eq_iff m m).1 refl) refl, omega arith)
              | inr e ↦ elim e [ ]
            ],
          )
    | inr (c, old) ↦
        let reached : (k : Str) → In k (m ∷ []) → Reached b.dist (d + 1) k = λ k i. elim i [
          | inl e ↦ (c, rw e old, o.near x m d c (inl refl) old)
          | inr e ↦ elim e [ ]
        ] in
        elim (Bool-cases (c == (d + 1))) [
          | inl same ↦
              let here : lookup m b.dist ≡ some (d + 1) =
                old ∙ ap some ((==_iff c (d + 1)).0 same) in
              rw (visit, old, same)
                (
                  visit_again es sources b.dist b.parents b.queue x d m o edge here,
                  λ k n h. h,
                  reached,
                )
          | inr other ↦ rw (visit, old, other) (o, λ k n h. h, reached)
        ]
  ]

  visit_all_lem :
      (x : Str) (d : ℕ) (ms : List Str) (b : Bfs)
      → Ordered ((x, d) ∷ []) b
      → ((m : Str) → In m ms → HasEdge es x m)
      → Visited x d b ms (visit_all x (d + 1) ms b)
  unfolding visit_all
  visit_all_lem x d [] b o edges = (o, λ k n h. h, λ m i. elim i [ ])
  visit_all_lem x d (m ∷ ms) b o edges =
      let b' = visit x (d + 1) m b in
      let (o', g, r) = visit_lem x d m b o (edges m (inl refl)) in
      let (o'', g', r') = visit_all_lem x d ms b' o' (λ k i. edges k (inr i)) in
      (
        o'',
        λ k n h. g' k n (g k n h),
        λ k i. elim i [ inl e ↦ let (c, h, l) = r k (inl e) in (c, g' k c h, l) | inr j ↦ r' k j ],
      )

  -- An entry that is done leaves the queue.
  pop :
      (dist : Dict ℕ) (parents : Dict (List Str)) (q : List (Str × ℕ)) (x : Str) (d : ℕ)
      → InOrder es sources dist parents ((x, d) ∷ q)
      → IsDone es sources dist x d
      → InOrder es sources dist parents q
  pop dist parents q x d o f = record {
    zero_source = o.zero_source;
    source_zero = o.source_zero;
    parent = o.parent;
    has_parent = o.has_parent;
    queued = λ k n i. o.queued k n (inr i);
    ascending = o.ascending.1;
    near = λ k t n e i l. o.near k t n e (inr i) l;
    seen = λ k n l. elim (o.seen k n l) [
      | inl (inl e) ↦ inr (λ m h.
          let (c, g, b) = f m (subst (λ y. HasEdge es y m) (ap (λ y. y.0) e) h) in
          (c, g, subst (λ y. c ≤ y + 1) (sym (ap (λ y. y.1) e)) b))
      | inl (inr i) ↦ inl i
      | inr done ↦ inr done
    ];
  }

  -- The round: the first entry is taken and all its targets are visited.
  pub round :
      (x : Str) (d : ℕ) (ms : List Str) (b : Bfs)
      → Ordered ((x, d) ∷ []) b
      → ((m : Str) → In m ms → HasEdge es x m)
      → ((m : Str) → HasEdge es x m → In m ms)
      → Ordered [] (visit_all x (d + 1) ms b)
        × Grows es sources b.dist (visit_all x (d + 1) ms b).dist
  round x d ms b o sound complete =
      let b' = visit_all x (d + 1) ms b in
      let (o', g, r) = visit_all_lem x d ms b o sound in
      (pop b'.dist b'.parents b'.queue x d o' (λ m h. r m (complete m h)), g)

  abbrev at_zero : List Str → List (Str × ℕ)
  at_zero ns = map (λ n. (n, 0)) ns

  start_lem :
      (ns : List Str) (b : Bfs)
      → ((k : Str)
          → lookup k (start ns b).dist ≡ (if contains k ns then some 0 else lookup k b.dist))
        × ((start ns b).parents ≡ b.parents)
        × ((start ns b).queue ≡ b.queue ++ at_zero ns)
  unfolding start contains
  start_lem [] b = (λ k. refl, refl, sym (append-nil b.queue))
  start_lem (n ∷ ns) b =
      let (d, p, q) =
        start_lem ns (record b { dist = insert n 0 b.dist; queue = b.queue ++ (n, 0) ∷ [] }) in
      (
        λ k.
            rw (start, d k, lookup-insert)
              (elim (Bool-cases (contains k ns)) [
                | inl e ↦ elim (Bool-cases (str_eq n k)) [
                  | inl f ↦ rw (e, f) refl
                  | inr f ↦ rw (e, f) refl
                ]
                | inr e ↦ elim (Bool-cases (str_eq n k)) [
                  | inl f ↦ rw (e, f) refl
                  | inr f ↦ rw (e, f) refl
                ]
              ]),
        p,
        q ∙ append_assoc b.queue ((n, 0) ∷ []) (at_zero ns),
      )

  at_zero-IsAscending : (ns : List Str) → AtLeast 0 (at_zero ns) × IsAscending (at_zero ns)
  at_zero-IsAscending [] = (tt, tt)
  at_zero-IsAscending (n ∷ ns) = let (a, b) = at_zero-IsAscending ns in ((omega arith, a), (a, b))

  In-at_zero : (k : Str) (n : ℕ) (ns : List Str) → In (k, n) (at_zero ns) → In k ns × (n ≡ 0)
  In-at_zero k n [] h = elim h [ ]
  In-at_zero k n (j ∷ ns) h = elim h [
    | inl e ↦ (inl (ap (λ y. y.0) e), ap (λ y. y.1) e)
    | inr i ↦ let (a, b) = In-at_zero k n ns i in (inr a, b)
  ]

  In-at_zero-of : (k : Str) (ns : List Str) → In k ns → In (k, 0) (at_zero ns)
  In-at_zero-of k [] h = elim h [ ]
  In-at_zero-of k (j ∷ ns) h = elim h [
    | inl e ↦ inl (ap (λ y. (y, 0)) e)
    | inr i ↦ inr (In-at_zero-of k ns i)
  ]

  in_source :
      (k : Str) (n : ℕ) → lookup k (start sources nothing).dist ≡ some n → In k sources × (n ≡ 0)
  unfolding lookup
  in_source k n h =
      let e = (start_lem sources nothing).0 k in
      elim (Bool-cases (contains k sources)) [
        | inl c ↦
            let f : some 0 ≡ some n = sym (e ∙ rw c refl) ∙ h in
            ((contains_iff k sources).0 c, ground arith)
        | inr c ↦ let f : none ≡ some n = sym (e ∙ rw c refl) ∙ h in absurd (cc)
      ]

  source_zero : (k : Str) → In k sources → lookup k (start sources nothing).dist ≡ some 0
  source_zero k i = (start_lem sources nothing).0 k ∙ rw ((contains_iff k sources).1 i) refl

  pub start-Ordered : Ordered [] (start sources nothing)
  unfolding get_or
  start-Ordered =
      let (d, p, q) = start_lem sources nothing in
      record {
        zero_source = λ k h. (in_source k 0 h).0;
        source_zero = source_zero;
        parent = λ k x i. elim (subst (λ y. In x (get_or k y [])) p i) [ ];
        has_parent = λ k n h. let z = (in_source k (n + 1) h).1 in absurd (omega (arith, z));
        queued = λ k n i.
            let (s, z) = In-at_zero k n sources (subst (In (k, n)) q i) in
            source_zero k s ∙ ap some (sym z);
        ascending = subst IsAscending (sym q) (at_zero-IsAscending sources).1;
        near = λ k t n e i h. let z = (in_source t e h).1 in omega (arith, z);
        seen = λ k n h.
            let (s, z) = in_source k n h in
            inl (
              subst (In (k, n)) (sym q)
                (subst (λ y. In (k, y) (at_zero sources)) (sym z) (In-at_zero-of k sources s)));
      }

  pub length-start : length (start sources nothing).queue ≡ length sources
  length-start =
      let (d, p, q) = start_lem sources nothing in ap length q ∙ length-map (λ n. (n, 0)) sources
