-- ===== src/Query/Search/Spec.antt =====
-- pkg/graphquery/query.go: the specification of the breadth-first searches, the keys within a number
-- of steps of the start, and the invariant of the level-by-level loops.
use toposcope.Base.{
  ℕ, zero, suc, ◌+◌, ◌≡◌, refl, sym, subst, ◌↔◌, ◌⊎◌, inl, inr, Bool, List, [], arith, Str, In,
  In-append, append-nil,
}
use toposcope.Graph.{Snapshot}
use toposcope.Query.{fwd, rev}
use toposcope.Query.Search.{Frontier, level}
use toposcope.Query.Search.Level.{Adj, In-level, level-Extends}

module _ (deps rdeps : Bool) (s : Snapshot) (start : List Str) where
  -- The keys that some walk of at most n steps leads to from a key of `start`.
  pub data Within : ℕ → Str → Type 0 where
    here : {n : ℕ} {k : Str} → In k start → Within n k
    step : {n : ℕ} {u k : Str} → Within n u → Adj deps rdeps s u k → Within (suc n) k

  pub Within-mono : {n : ℕ} {k : Str} → Within n k → Within (suc n) k
  Within-mono (here i) = here i
  Within-mono (step w a) = step (Within-mono w) a

  last_step :
      {n : ℕ} {k : Str}
      → Within (suc n) k
      → In k start ⊎ ((u : Str) × Within n u × Adj deps rdeps s u k)
  last_step (here i) = inl i
  last_step (step {u} w a) = inr (u, w, a)

  -- The state of a search after n levels.
  pub record IsLevel (n : ℕ) (queue visited : List Str) : Type 0 where
    pub sound : (k : Str) → In k visited → Within n k
    pub full : (k : Str) → Within n k → In k visited
    pub closed : (u k : Str) → In u visited → Adj deps rdeps s u k → In k visited ⊎ In u queue
    pub queued : (k : Str) → In k queue → In k visited

  pub IsLevel-start : IsLevel 0 start start
  IsLevel-start = record {
    sound = λ k i. here i;
    full = first;
    closed = λ u k i a. inr i;
    queued = λ k i. i;
  }
    where
      none_left : (n : ℕ) (k : Str) → n ≡ 0 → Within n k → In k start
      none_left n k e (here i) = i
      none_left (suc n) k e (step w a) = absurd (omega arith)

      first : (k : Str) → Within 0 k → In k start
      first k w = none_left 0 k refl w

  abbrev pub next_frontier : List Str → List Str → Frontier
  next_frontier queue visited =
      level deps rdeps (fwd s) (rev s) queue (record { visited = visited; next = [] })

  module _ (n : ℕ) (queue visited : List Str) (h : IsLevel n queue visited) where
    reached :
        (k : Str)
        → In k (next_frontier queue visited).visited
          ↔ (In k visited ⊎ ((u : Str) × In u queue × Adj deps rdeps s u k))
    reached k = In-level deps rdeps s k queue (record { visited = visited; next = [] })

    split :
        (k : Str)
        → In k (next_frontier queue visited).visited
          ↔ (In k visited ⊎ In k (next_frontier queue visited).next)
    split k =
        rw
          (level-Extends deps rdeps s visited queue (record { visited = visited; next = [] })
            (sym (append-nil visited)))
          (In-append k visited (next_frontier queue visited).next)

    -- One more level.
    pub IsLevel-next :
        IsLevel (suc n) (next_frontier queue visited).next (next_frontier queue visited).visited
    IsLevel-next = record {
      sound = λ k i. elim ((reached k).0 i) [
        | inl old ↦ Within-mono (h.sound k old)
        | inr (u, j, a) ↦ step (h.sound u (h.queued u j)) a
      ];
      full = λ k w. elim (last_step w) [
        | inl i ↦ (reached k).1 (inl (h.full k (here i)))
        | inr (u, w', a) ↦ elim (h.closed u k (h.full u w') a) [
          | inl old ↦ (reached k).1 (inl old)
          | inr j ↦ (reached k).1 (inr (u, j, a))
        ]
      ];
      closed = λ u k i a. elim ((split u).0 i) [
        | inr fresh ↦ inr fresh
        | inl old ↦ elim (h.closed u k old a) [
          | inl p ↦ inl ((reached k).1 (inl p))
          | inr j ↦ inl ((reached k).1 (inr (u, j, a)))
        ]
      ];
      queued = λ k i. (split k).1 (inr i);
    }

  -- With an empty queue no number of further levels visits more.
  pub IsLevel-done :
      (n : ℕ) (visited : List Str)
      → IsLevel n [] visited
      → {m : ℕ} {k : Str} → Within m k
      → In k visited
  IsLevel-done n visited h (here i) = h.full _ (here i)
  IsLevel-done n visited h (step w a) = elim (h.closed _ _ (IsLevel-done n visited h w) a) [
    | inl p ↦ p
    | inr p ↦ elim p [ ]
  ]

  pub Within-add : (m n : ℕ) {k : Str} → Within n k → (j : ℕ) → n + m ≡ j → Within j k
  Within-add zero n {k} w j e = let e' : n ≡ j = omega arith in subst (λ x. Within x k) e' w
  Within-add (suc m) n w j e = Within-add m (suc n) (Within-mono w) j (omega arith)

  -- Where nothing starts, nothing is reached.
  pub Within-none : ((k : Str) → In k start → ⊥) → {n : ℕ} {k : Str} → Within n k → ⊥
  Within-none h (here i) = h _ i
  Within-none h (step w a) = Within-none h w
