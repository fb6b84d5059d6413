-- ===== src/Query/Paths/Correct.antt =====
-- pkg/graphquery/query.go: the paths that FindPaths returns.
use toposcope.Base.{
  ℕ, zero, suc, ◌+◌, ◌≤◌, ◌<◌, leb, ltb, ◌≡◌, refl, sym, ◌∙◌, ap, subst, inl, inr, true, false,
  List, [], ◌∷◌, ◌++◌, Option, some, arith, Str, Dict, In, In-append, lookup, lookup-eq-none,
  get_or, has_key, contains, contains_iff, length, length-append, List-cases, if◌then◌else◌,
  Bool-cases, Option-cases,
}
use toposcope.Graph.{Edge}
use toposcope.Query.Paths.{Bfs, each, backtrack, collect}
use toposcope.Query.Paths.Walks.{HasEdge, IsWalk, StartsIn}
use toposcope.Query.Paths.Rounds.{Ordered}

-- A walk from a source to a target, with no shorter one from any source to this target.
abbrev pub IsShortest : List Edge → List Str → List Str → List Str → Type 0
IsShortest es sources targets p =
    StartsIn sources p
    × (t : Str) × In t targets
    × IsWalk es p t
    × ((q : List Str) → StartsIn sources q → IsWalk es q t → length p ≤ length q)

get_or-found : (k : Str) (n d : ℕ) (m : Dict ℕ) → lookup k m ≡ some n → get_or k m d ≡ n
unfolding lookup get_or
get_or-found k n d [] h = absurd (cc)
get_or-found k n d ((j, v) ∷ m) h = ground (arith, get_or-found k n d m)

module _ (es : List Edge) (sources targets : List Str) (b : Bfs) (o : Ordered es sources [] b)
    (cap : ℕ) where
  settled :
      (k t : Str) (n d : ℕ) (m : Str)
      → lookup k b.dist ≡ some n
      → lookup t b.dist ≡ some d
      → ltb (n + 1) d ≡ true
      → HasEdge es k m
      → (c : ℕ) × (lookup m b.dist ≡ some c) × (c ≤ n + 1)
  settled k t n d m h l far edge = elim (o.seen k n h) [
    | inl i ↦ let z = o.near k t n d i l in absurd (ground (arith, far, z))
    | inr f ↦ f m edge
  ]

  -- No walk from a node at a distance of at most i is shorter than the distances allow.
  walk_bound :
      (x : Str) (q : List Str) (t : Str) (n d i : ℕ)
      → lookup x b.dist ≡ some n
      → n ≤ i
      → IsWalk es (x ∷ q) t
      → lookup t b.dist ≡ some d
      → d ≤ i + length q
  walk_bound x [] t n d i h le w l =
      let e : some n ≡ some d = sym h ∙ ap (λ y. lookup y b.dist) w ∙ l in
      let same : n ≡ d = ground arith in omega (arith, same, le)
  walk_bound x (y ∷ r) t n d i h le w l = elim (Bool-cases (ltb (n + 1) d)) [
    | inl far ↦
        let (c, g, z) = settled x t n d y h l far w.0 in
        let rest = walk_bound y r t c d (i + 1) g (omega (arith, le, z)) w.1 l in
        omega (arith, rest)
    | inr near ↦ let z : d ≤ n + 1 = ground arith in omega (arith, z, le)
  ]

  abbrev Collected : List (List Str) → Type 0
  Collected ps = ((p : List Str) → In p ps → IsShortest es sources targets p) × (length ps ≤ cap)

  -- It adds what is right, and leaves something.
  abbrev Fills : (List (List Str) → Option (List (List Str))) → Type 0
  Fills f =
      (ps : List (List Str))
      → Collected ps
      → (qs : List (List Str)) × (f ps ≡ some qs) × Collected qs × (0 < length qs)

  each-Fills :
      (f : Str → List (List Str) → Option (List (List Str))) (x : Str) (xs : List Str)
      → ((y : Str) → In y (x ∷ xs) → Fills (f y))
      → Fills (each f (x ∷ xs))
  unfolding each
  each-Fills f x [] h ps c =
      let (qs, e, c', z) = h x (inl refl) ps c in (qs, rw (each, e) refl, c', z)
  each-Fills f x (y ∷ xs) h ps c =
      let (qs, e, c', z) = h x (inl refl) ps c in
      let (rs, e', c'', z') = each-Fills f y xs (λ w i. h w (inr i)) qs c' in
      (rs, rw (each, e) e', c'', z')

  shortest_lem :
      (x : Str) (path : List Str) (t : Str) (n d : ℕ)
      → In x sources
      → lookup x b.dist ≡ some n
      → IsWalk es (x ∷ path) t
      → In t targets
      → lookup t b.dist ≡ some d
      → n + length path ≡ d
      → IsShortest es sources targets (x ∷ path)
  shortest_lem x path t n d i h w it l sum = (i, t, it, w, shorter)
    where
      shorter : (q : List Str) → StartsIn sources q → IsWalk es q t → length (x ∷ path) ≤ length q
      shorter [] from walk = elim from [ ]
      shorter (y ∷ q) from walk =
          let z : some n ≡ some 0 = sym h ∙ o.source_zero x i in
          let nil : n ≡ 0 = ground arith in
          let least = walk_bound y q t 0 d 0 (o.source_zero y from) (omega arith) walk l in
          omega (arith, nil, least, sum)

  -- A path is added where there is room.
  added :
      (ps : List (List Str)) (p : List Str)
      → Collected ps
      → leb cap (length ps) ≡ false
      → IsShortest es sources targets p
      → Collected (ps ++ p ∷ []) × (0 < length (ps ++ p ∷ []))
  added ps p c room g =
      let l = length-append ps (p ∷ []) in
      (
        (
          λ q i. elim ((In-append q ps (p ∷ [])).0 i) [
            | inl old ↦ c.0 q old
            | inr (inl e) ↦ subst (IsShortest es sources targets) (sym e) g
            | inr (inr e) ↦ elim e [ ]
          ],
          ground (arith, l),
        ),
        omega (arith, l),
      )

  module _ (positive : 0 < cap) where
    backtrack-Fills :
        (n : ℕ) (x : Str) (path : List Str) (t : Str) (d : ℕ)
        → lookup x b.dist ≡ some n
        → IsWalk es (x ∷ path) t
        → In t targets
        → lookup t b.dist ≡ some d
        → n + length path ≡ d
        → Fills (backtrack cap sources b.parents n x path)
    unfolding backtrack
    backtrack-Fills zero x path t d h w it l sum ps c = elim (Bool-cases (leb cap (length ps))) [
      | inl full ↦ (ps, rw (backtrack, full) refl, c, ground (arith, full, positive))
      | inr room ↦
          let i = o.zero_source x h in
          let (c', z) = added ps (x ∷ path) c room (shortest_lem x path t 0 d i h w it l sum) in
          (ps ++ (x ∷ path) ∷ [], rw (backtrack, room, (contains_iff x sources).1 i) refl, c', z)
    ]
    backtrack-Fills (suc n) x path t d h w it l sum ps c = elim (Bool-cases (leb cap (length ps))) [
      | inl full ↦ (ps, rw (backtrack, full) refl, c, ground (arith, full, positive))
      | inr room ↦ elim (Bool-cases (contains x sources)) [
        | inl i ↦
            let (c', z) =
              added ps (x ∷ path) c room
                (shortest_lem x path t (suc n) d ((contains_iff x sources).0 i) h w it l sum) in
            (ps ++ (x ∷ path) ∷ [], rw (backtrack, room, i) refl, c', z)
        | inr away ↦ elim (List-cases (get_or x b.parents [])) [
          | inl orphan ↦
              let (p, i) = o.has_parent x n (h ∙ ap some (omega arith)) in
              elim (subst (In p) orphan i) [ ]
          | inr (y, rest, e) ↦
              let (qs, run, c', z) =
                each-Fills (λ p more. backtrack cap sources b.parents n p (x ∷ path) more) y rest
                  (λ p i.
                    let (edge, m, hp, hx) = o.parent x p (subst (In p) (sym e) i) in
                    let f : some (suc n) ≡ some (m + 1) = sym h ∙ hx in
                    let same : m ≡ n = ground arith in
                    backtrack-Fills n p (x ∷ path) t d (hp ∙ ap some same) (edge, w) it l
                      (omega (arith, sum)))
                  ps c in
              (qs, rw (backtrack, room, away, e) run, c', z)
        ]
      ]
    ]

    pub collect-Fills :
        (t : Str) (ts : List Str)
        → ((u : Str) → In u (t ∷ ts) → In u targets × (has_key u b.dist ≡ true))
        → (qs : List (List Str)) × (collect cap sources b.parents b.dist (t ∷ ts) ≡ some qs)
          × Collected qs
          × (0 < length qs)
    unfolding collect
    collect-Fills t ts h =
        each-Fills
          (λ u ps.
            let more = backtrack cap sources b.parents (get_or u b.dist 0) u [] ps in
            if leb cap (length ps) then some ps else more)
          t ts
          (λ u i ps c. elim (Bool-cases (leb cap (length ps))) [
            | inl full ↦ (ps, rw full refl, c, ground (arith, full, positive))
            | inr room ↦ elim (Option-cases (lookup u b.dist)) [
              | inl gone ↦ absurd (cc ((lookup-eq-none u b.dist).0 gone, (h u i).1))
              | inr (d, l) ↦
                  let (qs, e, c', z) =
                    backtrack-Fills d u [] u d l refl (h u i).0 l (omega arith) ps c in
                  (qs, rw (room, get_or-found u d 0 b.dist l) e, c', z)
            ]
          ])
          [] ((λ p i. elim i [ ]), omega arith)
