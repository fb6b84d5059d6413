-- ===== src/Cache/Laws.antt =====
-- internal/api/cache.go: the invariant of the cache, and what a reader of it sees after a Put.
use toposcope.Base.{
  ℕ, zero, suc, ◌≤◌, ◌<◌, ◌≡◌, ◌≢◌, refl, sym, ◌∙◌, subst, ◌↔◌, ◌⊎◌, inl, inr, true, false, List,
  [], ◌∷◌, ◌++◌, Option, none, some, arith, Str, Dict, keys, In, NoDup-concat, In-append,
  NoDup-keys-insert, lookup, lookup-insert, lookup-delete, has_key, has_key_iff, insert,
  has_key-insert, delete, length, str_eq, str_eq_iff, leb, Bool-cases, Option-cases, if◌then◌else◌,
}
use toposcope.Base.Int.{ℤ, pos, negsuc}
use toposcope.Cache.{
  SnapshotCache, size_or_default, new_snapshot_cache, move_to_end, get, evict, put,
}
use toposcope.Cache.Eviction.{
  NoDup-move_to_end, In-move_to_end, length-delete, length-insert, InStep, evict-InStep,
}

size_or_default-pos : (n : ℤ) → 0 < size_or_default n
unfolding size_or_default
size_or_default-pos (pos zero) = omega arith
size_or_default-pos (pos (suc n)) = omega arith
size_or_default-pos (negsuc n) = omega arith

module _ {A : Type 0} where
  -- The map and the order have the same keys, each once, and there are at most as many as allowed.
  pub record IsValid (c : SnapshotCache A) : Type 0 where
    pub has_room : 0 < c.max_size
    pub in_step : InStep c.entries c.order
    pub in_bounds : length c.entries ≤ c.max_size

  -- A new cache is valid, for any size asked for.
  pub new_snapshot_cache-IsValid : (n : ℤ) → IsValid (new_snapshot_cache n)
  unfolding new_snapshot_cache
  new_snapshot_cache-IsValid n = record {
    has_room = size_or_default-pos n;
    in_step = record { once = tt; one_entry = tt; same = λ k. (λ h. elim h [ ], λ h. elim h [ ]) };
    in_bounds = omega arith;
  }

  moved :
      (id : Str) (c : SnapshotCache A)
      → InStep c.entries c.order
      → InStep c.entries (move_to_end id c.order)
  moved id c s = record {
    once = NoDup-move_to_end id c.order s.once;
    one_entry = s.one_entry;
    same = λ k. (
      λ h. (s.same k).0 ((In-move_to_end k id c.order s.once).0 h),
      λ h. (In-move_to_end k id c.order s.once).1 ((s.same k).1 h),
    );
  }

  -- Get keeps the cache valid.
  pub get-IsValid : (id : Str) (c : SnapshotCache A) → IsValid c → IsValid (get id c).1
  unfolding get
  get-IsValid id c v = elim (Option-cases (lookup id c.entries)) [
    | inl e ↦ rw (get, e) v
    | inr (snap, e) ↦
        rw (get, e)
          (record {
            has_room = v.has_room;
            in_step = moved id c v.in_step;
            in_bounds = v.in_bounds;
          })
  ]

  In-keys-insert :
      (j id : Str) (v : A) (m : Dict A) → In j (keys (insert id v m)) ↔ ((j ≡ id) ⊎ In j (keys m))
  In-keys-insert j id v m = grind (
    arith,
    has_key-insert id j v m,
    has_key_iff j m,
    has_key_iff j (insert id v m),
    str_eq_iff id j,
  )

  rewritten :
      (id : Str) (a : A) (entries : Dict A) (order : List Str)
      → has_key id entries ≡ true
      → InStep entries order
      → InStep (insert id a entries) order
  rewritten id a entries order old s = record {
    once = s.once;
    one_entry = NoDup-keys-insert id a entries s.one_entry;
    same = λ k. (
      λ h. (In-keys-insert k id a entries).1 (inr ((s.same k).0 h)),
      λ h. elim ((In-keys-insert k id a entries).0 h) [
        | inl p ↦ subst (λ x. In x order) (sym p) ((s.same id).1 ((has_key_iff id entries).0 old))
        | inr i ↦ (s.same k).1 i
      ],
    );
  }

  added :
      (id : Str) (a : A) (entries : Dict A) (order : List Str)
      → ¬ In id order
      → InStep entries order
      → InStep (insert id a entries) (order ++ id ∷ [])
  added id a entries order new s = record {
    once = NoDup-concat id order new s.once;
    one_entry = NoDup-keys-insert id a entries s.one_entry;
    same = λ k. (
      λ h. (In-keys-insert k id a entries).1 (elim ((In-append k order (id ∷ [])).0 h) [
        | inl i ↦ inr ((s.same k).0 i)
        | inr l ↦ elim l [ inl p ↦ inl p | inr r ↦ elim r [ ] ]
      ]),
      λ h. (In-append k order (id ∷ [])).1 (elim ((In-keys-insert k id a entries).0 h) [
        | inl p ↦ inr (inl p)
        | inr i ↦ inl ((s.same k).1 i)
      ]),
    );
  }

  -- Put keeps the cache valid, so that it never holds more than the allowed number of snapshots.
  pub put-IsValid : (id : Str) (a : A) (c : SnapshotCache A) → IsValid c → IsValid (put id a c)
  unfolding put
  put-IsValid id a c v = elim (Bool-cases (has_key id c.entries)) [
    | inl old ↦ rw old (record {
      has_room = v.has_room;
      in_step = rewritten id a c.entries (move_to_end id c.order) old (moved id c v.in_step);
      in_bounds = let n = length-insert id a c.entries in let b = v.in_bounds in grind arith;
    })
    | inr new ↦
        let (s, small, kept) = evict-InStep c.max_size c.entries c.order v.has_room v.in_step in
        let absent : ¬ In id c.order =
          λ h. cc ((has_key_iff id c.entries).1 ((v.in_step.same id).0 h)) in
        rw new (record {
          has_room = v.has_room;
          in_step =
              added id a (evict c.max_size c.entries c.order).0
                (evict c.max_size c.entries c.order).1 (λ h. absent (kept id h)) s;
          in_bounds =
              let n = length-insert id a (evict c.max_size c.entries c.order).0 in grind arith;
        })
  ]

  -- What a reader of the map finds.
  abbrev pub found : Str → SnapshotCache A → Option A
  found j c = (get j c).0

  pub found-lookup : (j : Str) (c : SnapshotCache A) → (get j c).0 ≡ lookup j c.entries
  unfolding get
  found-lookup j c = elim (Option-cases (lookup j c.entries)) [
    | inl e ↦ rw (get, e)
    | inr (snap, e) ↦ rw (get, e)
  ]

  evict_free :
      (n : ℕ) (entries : Dict A) (order : List Str)
      → length entries < n
      → evict n entries order ≡ (entries, order)
  unfolding evict
  evict_free n entries [] h = refl
  evict_free n entries (oldest ∷ order) h = ground arith

  -- A valid full cache evicts one key, the oldest.
  evict_full :
      (c : SnapshotCache A) (oldest : Str) (order : List Str)
      → IsValid c
      → c.order ≡ oldest ∷ order
      → length c.entries ≡ c.max_size
      → evict c.max_size c.entries c.order ≡ (delete oldest c.entries, order)
  unfolding evict
  evict_full c oldest order v e full =
      let s : InStep c.entries (oldest ∷ order) = subst (InStep c.entries) e v.in_step in
      let n = length-delete oldest c.entries s.one_entry ((s.same oldest).0 (inl refl)) in
      let room : leb c.max_size (length c.entries) ≡ true = ground arith in
      let free = evict_free c.max_size (delete oldest c.entries) order (omega (arith, n, full)) in
      rw (e, evict, room) free

  -- In a valid cache a snapshot that is put is found again. Putting a new key into a full cache
  -- loses the oldest key and no other; any other Put leaves what is found for other keys as it was.
  pub put_lem :
      (id : Str) (a : A) (c : SnapshotCache A)
      → IsValid c
      → (found id (put id a c) ≡ some a)
        × ((j oldest : Str) (order : List Str)
            → has_key id c.entries ≡ false
            → length c.entries ≡ c.max_size
            → c.order ≡ oldest ∷ order
            → id ≢ j
            → found j (put id a c) ≡ (if str_eq oldest j then none else found j c))
        × ((j : Str)
            → (has_key id c.entries ≡ true) ⊎ (length c.entries < c.max_size)
            → id ≢ j
            → found j (put id a c) ≡ found j c)
  unfolding put
  put_lem id a c v = (
    found-lookup id (put id a c) ∙ elim (Bool-cases (has_key id c.entries)) [
      | inl old ↦ rw (put, old) (grind (arith, lookup-insert id id a c.entries, str_eq_iff id id))
      | inr new ↦
          rw (put, new)
            (grind (
              arith,
              lookup-insert id id a (evict c.max_size c.entries c.order).0,
              str_eq_iff id id,
            ))
    ],
    λ j oldest order new full e n.
        let out = evict_full c oldest order v e full in
        found-lookup j (put id a c)
        ∙ rw (found-lookup j c, put, new, out)
            (grind (
              arith,
              lookup-insert id j a (delete oldest c.entries),
              str_eq_iff id j,
              lookup-delete oldest j c.entries,
            )),
    λ j h n.
        found-lookup j (put id a c)
        ∙ (elim h [
          | inl old ↦ rw (put, old) (grind (arith, lookup-insert id j a c.entries, str_eq_iff id j))
          | inr free ↦ elim (Bool-cases (has_key id c.entries)) [
            | inl old ↦
                rw (put, old) (grind (arith, lookup-insert id j a c.entries, str_eq_iff id j))
            | inr new ↦
                rw (put, new, evict_free c.max_size c.entries c.order free)
                  (grind (arith, lookup-insert id j a c.entries, str_eq_iff id j))
          ]
        ]
            ∙ sym (found-lookup j c)),
  )
