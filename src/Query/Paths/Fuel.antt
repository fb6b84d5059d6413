-- ===== src/Query/Paths/Fuel.antt =====
-- pkg/graphquery/query.go: the loop of FindPaths ends: each round takes an entry out of the queue, and an
-- entry is put in for a target that has no distance yet.
use toposcope.Base.{
  ℕ, zero, suc, ◌+◌, ◌≤◌, ◌<◌, ◌==◌, ◌≡◌, refl, ap, ◌⊎◌, inl, inr, Bool, true, false, not, List, [],
  ◌∷◌, Option, none, some, arith, Str, Dict, In, lookup, lookup-eq-none, insert, has_key,
  has_key-insert, get_or, contains, contains_iff, count, length, length-append, str_eq_iff, subst,
  List-cases, if◌then◌else◌, Bool-cases, Option-cases,
}
use toposcope.Graph.{Edge}
use toposcope.Query.Paths.{Bfs, visit, visit_all, bfs, is_past, fill_targets}
use toposcope.Query.Paths.Walks.{HasEdge, In-fill_targets}
use toposcope.Query.Paths.Labels.{InOrder, Grows}
use toposcope.Query.Paths.Rounds.{Ordered, round}

module _ {A : Type 0} (p q : A → Bool) (fewer : (x : A) → q x ≡ true → p x ≡ true) where
  count_mono : (xs : List A) → count q xs ≤ count p xs
  count_mono [] = omega arith
  count_mono (x ∷ xs) = ground (arith, fewer x, count_mono xs)

  count_strict :
      (y : A) (xs : List A) → In y xs → p y ≡ true → q y ≡ false → count q xs < count p xs
  count_strict y [] i h k = elim i [ ]
  count_strict y (x ∷ xs) i h k = elim i [
    | inl e ↦ rw⁻¹ e (rw (h, k) (let r = count_mono xs in omega (arith, r)))
    | inr j ↦ let r = count_strict y xs j h k in ground (arith, fewer x, r)
  ]

-- The targets of edges that have no distance.
abbrev unseen : List Edge → Dict ℕ → ℕ
unseen es dist = count (λ e. not (has_key e.to dist)) es

abbrev pub potential : List Edge → Bfs → ℕ
potential es b = length b.queue + unseen es b.dist

unseen-insert :
    (es : List Edge) (x m : Str) (d : ℕ) (dist : Dict ℕ)
    → HasEdge es x m
    → lookup m dist ≡ none
    → unseen es (insert m d dist) < unseen es dist
unseen-insert es x m d dist (e, i, s, t) h =
    count_strict _ _ (λ c g. ground (arith, has_key-insert m c.to d dist)) e es i
      (let z = (lookup-eq-none m dist).0 h in rw (t, z) refl)
      (rw (has_key-insert, t, (str_eq_iff m m).1 refl) refl)

module _ (es : List Edge) (x : Str) where
  visit-potential :
      (d : ℕ) (m : Str) (b : Bfs) → HasEdge es x m → potential es (visit x d m b) ≤ potential es b
  unfolding visit
  visit-potential d m b edge = elim (Option-cases (lookup m b.dist)) [
    | inl new ↦
        rw (visit, new)
          (omega
            (arith, length-append b.queue ((m, d) ∷ []), unseen-insert es x m d b.dist edge new))
    | inr (c, old) ↦ elim (Bool-cases (c == d)) [
      | inl e ↦ rw (visit, old, e) (omega arith)
      | inr e ↦ rw (visit, old, e) (omega arith)
    ]
  ]

  visit_all-potential :
      (d : ℕ) (ms : List Str) (b : Bfs)
      → ((m : Str) → In m ms → HasEdge es x m)
      → potential es (visit_all x d ms b) ≤ potential es b
  unfolding visit_all
  visit_all-potential d [] b edges = omega arith
  visit_all-potential d (m ∷ ms) b edges =
      let first = visit-potential d m b (edges m (inl refl)) in
      let rest = visit_all-potential d ms (visit x d m b) (λ k i. edges k (inr i)) in
      omega (arith, first, rest)

-- Where a target was found, a target has a distance.
abbrev pub Knows : List Str → Option ℕ → Bfs → Type 0
Knows to_set none b = Unit
Knows to_set (some d) b = (t : Str) × In t to_set × (n : ℕ) × (lookup t b.dist ≡ some n)

Knows-past :
    (to_set : List Str) (found : Option ℕ) (b : Bfs) (d : ℕ)
    → is_past found d ≡ true
    → Knows to_set found b
    → Knows to_set (some d) b
unfolding is_past
Knows-past to_set none b d h k = absurd (cc)
Knows-past to_set (some f) b d h k = k

Knows-next :
    (es : List Edge) (sources to_set : List Str) (found : Option ℕ) (old new : Bfs) (x : Str)
    (d n : ℕ)
    → Grows es sources old.dist new.dist
    → lookup x old.dist ≡ some n
    → Knows to_set found old
    → Knows to_set (if contains x to_set then some d else found) new
Knows-next es sources to_set found old new x d n g h k = elim (Bool-cases (contains x to_set)) [
  | inl i ↦ rw i (x, (contains_iff x to_set).0 i, n, g x n h)
  | inr i ↦ rw i (kept found k)
]
  where
    kept : (f : Option ℕ) → Knows to_set f old → Knows to_set f new
    kept none k = tt
    kept (some f) (t, i, m, e) = (t, i, m, g t m e)

-- With enough fuel the search ends. Then the invariant holds, and the queue is empty or a target has a
-- distance.
pub bfs-ends :
    (es : List Edge) (sources to_set : List Str) (fuel : ℕ) (found : Option ℕ) (b : Bfs)
    → Ordered es sources [] b
    → Knows to_set found b
    → potential es b ≤ fuel
    → (end : Bfs) × (bfs (fill_targets es []) to_set fuel found b ≡ some end)
      × Ordered es sources [] end
      × ((end.queue ≡ []) ⊎ Knows to_set (some 0) end)
unfolding bfs
bfs-ends es sources to_set zero found b o k h = elim (List-cases b.queue) [
  | inl e ↦ (b, simp (bfs, e) refl, o, inl e)
  | inr (y, rest, e) ↦
      let l : length b.queue ≡ suc (length rest) = ap length e in absurd (omega (arith, h, l))
]
bfs-ends es sources to_set (suc fuel) found b o k h = elim (List-cases b.queue) [
  | inl e ↦ (b, simp (bfs, e) refl, o, inl e)
  | inr ((x, d), rest, e) ↦ elim (Bool-cases (is_past found d)) [
    | inl past ↦ (b, simp (bfs, e, past) refl, o, inr (Knows-past to_set found b d past k))
    | inr near ↦
        let ms = get_or x (fill_targets es []) [] in
        let b' : Bfs = record b { queue = rest } in
        let edges : (m : Str) → In m ms → HasEdge es x m = λ m. (In-fill_targets x m es).0 in
        let front = subst (InOrder es sources b.dist b.parents) e o in
        let (o', g) = round es sources x d ms b' front edges (λ m. (In-fill_targets x m es).1) in
        let l : length b.queue ≡ suc (length rest) = ap length e in
        let p = visit_all-potential es x (d + 1) ms b' edges in
        let next = visit_all x (d + 1) ms b' in
        let k' =
          Knows-next es sources to_set found b next x d d g (front.queued x d (inl refl)) k in
        let (end, run, inv, stop) =
          bfs-ends es sources to_set fuel (if contains x to_set then some d else found) next o' k'
            (omega (arith, h, l, p)) in
        (end, simp (bfs, e, near) run, inv, stop)
  ]
]
