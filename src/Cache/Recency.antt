-- ===== src/Cache/Recency.antt =====
-- internal/api/cache.go: a snapshot that has just been read is not the next one to go.
use toposcope.Base.{
  Dict, ◌≤◌, ◌≡◌, ◌≢◌, refl, sym, ◌∙◌, subst, inl, inr, true, false, List, [], ◌∷◌, ◌++◌, some,
  arith, Str, In, lookup, lookup-eq-none, has_key, has_key_iff, delete, contains_iff, length,
  str_eq, str_eq_iff, Bool-cases, List-cases, leb, ltb,
}
use toposcope.Cache.{SnapshotCache, get, put, move_to_end, remove_first}
use toposcope.Cache.Eviction.{In-remove_first, InStep, InStep-oldest, length-delete, no_entries}
use toposcope.Cache.Laws.{IsValid, get-IsValid, found, found-lookup, put_lem}

module _ {A : Type 0} where
  has_key-hit : (id : Str) (a : A) (m : Dict A) → lookup id m ≡ some a → has_key id m ≡ true
  has_key-hit id a m e = elim (Bool-cases (has_key id m)) [
    | inl hit ↦ hit
    | inr miss ↦ absurd (cc ((lookup-eq-none id m).1 miss))
  ]

  get-hit :
      (id : Str) (a : A) (c : SnapshotCache A)
      → found id c ≡ some a
      → lookup id c.entries ≡ some a
      → (get id c).1 ≡ record c { order = move_to_end id c.order }
  unfolding get
  get-hit id a c h e = rw (get, e)

  single : (id : Str) (c : SnapshotCache A) → InStep c.entries (id ∷ []) → length c.entries ≡ 1
  single id c s =
      let n = length-delete id c.entries s.one_entry ((s.same id).0 (inl refl)) in
      let e = no_entries (delete id c.entries) (InStep-oldest c.entries id [] s) in
      omega (arith, n, e)

  -- After a hit the oldest key of the order is another one, if there are at least two.
  other_oldest :
      (id : Str) (c : SnapshotCache A)
      → InStep c.entries c.order
      → InStep c.entries (move_to_end id c.order)
      → In id c.order
      → 2 ≤ length c.entries
      → (oldest : Str) × ((order : List Str) × ((move_to_end id c.order ≡ oldest ∷ order)
            × (oldest ≢ id)))
  unfolding move_to_end
  other_oldest id c s t i two =
      let hit = (contains_iff id c.order).1 i in
      elim (List-cases (remove_first id c.order)) [
        | inl e ↦
            let u : InStep c.entries (id ∷ []) = rw (move_to_end, hit, e) at t in
            let n = single id c u in absurd (omega (arith, n))
        | inr (oldest, order, e) ↦ (
          oldest,
          (
            order ++ id ∷ [],
            (
              rw (move_to_end, hit, e),
              ((In-remove_first oldest id c.order s.once).0
                  (subst (In oldest) (sym e) (inl refl))).1,
            ),
          ),
        )
      ]

  -- The same for the cache as the hit leaves it.
  put_keeps :
      (id j : Str) (a b : A) (c : SnapshotCache A) (oldest : Str) (order : List Str)
      → IsValid c
      → c.order ≡ oldest ∷ order
      → oldest ≢ id
      → found id c ≡ some a
      → j ≢ id
      → found id (put j b c) ≡ some a
  put_keeps id j a b c oldest order v e other h n = elim (Bool-cases (has_key j c.entries)) [
    | inl old ↦ (put_lem j b c v).2 id (inl old) n ∙ h
    | inr new ↦ elim (Bool-cases (ltb (length c.entries) c.max_size)) [
      | inl free ↦ (put_lem j b c v).2 id (inr (ground arith)) n ∙ h
      | inr full ↦
          let b' = v.in_bounds in
          (put_lem j b c v).1 id oldest order new (ground arith) e n
          ∙ (let no : str_eq oldest id ≡ false = ground (arith, str_eq_iff oldest id) in rw no h)
    ]
  ]

  -- In a valid cache with room for two or more, a snapshot that has just been read is still found
  -- after a Put of any other key.
  pub get-put_keeps :
      (id j : Str) (a b : A) (c : SnapshotCache A)
      → IsValid c
      → 2 ≤ c.max_size
      → found id c ≡ some a
      → j ≢ id
      → found id (put j b (get id c).1) ≡ some a
  get-put_keeps id j a b c v two h n =
      let e = sym (found-lookup id c) ∙ h in
      let g = get-hit id a c h e in
      let c' : SnapshotCache A = record c { order = move_to_end id c.order } in
      let v' : IsValid c' = subst IsValid g (get-IsValid id c v) in
      let there = (has_key_iff id c.entries).0 (has_key-hit id a c.entries e) in
      rw g (elim (Bool-cases (leb 2 (length c.entries))) [
        | inl many ↦
            let (oldest, (order, (p, q))) =
              other_oldest id c v.in_step v'.in_step ((v.in_step.same id).1 there) (ground arith) in
            put_keeps id j a b c' oldest order v' p q (found-lookup id c' ∙ e) n
        | inr few ↦ (put_lem j b c' v').2 id (inr (ground arith)) n ∙ (found-lookup id c' ∙ e)
      ])
