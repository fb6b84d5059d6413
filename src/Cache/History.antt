-- ===== src/Cache/History.antt =====
-- internal/api/cache.go: a cache after any calls of Get and Put.
use toposcope.Base.{
  ◌≤◌, ◌≡◌, ◌≢◌, refl, sym, ◌∙◌, ap, subst, inl, inr, List, [], ◌∷◌, some, arith, Str, keys, ltb,
  In, lookup, has_key, length, str_eq, str_eq_iff, Bool-cases, Option-cases, List-cases,
}
use toposcope.Base.Int.{ℤ}
use toposcope.Cache.{SnapshotCache, size_or_default, new_snapshot_cache, get, put}
use toposcope.Cache.Laws.{
  IsValid, new_snapshot_cache-IsValid, get-IsValid, put-IsValid, found, found-lookup, put_lem,
}

module _ {A : Type 0} where
  -- The caches that calls make of a new one. The list has what was put, the latest first.
  pub data Reaches (n : ℤ) : List (Str × A) → SnapshotCache A → Type 0 where
    fresh : Reaches n [] (new_snapshot_cache n)
    after_get :
        {puts : List (Str × A)} {c : SnapshotCache A} (id : Str)
        → Reaches n puts c
        → Reaches n puts (get id c).1
    after_put :
        {puts : List (Str × A)} {c : SnapshotCache A} (id : Str) (a : A)
        → Reaches n puts c
        → Reaches n ((id, a) ∷ puts) (put id a c)

  get-same :
      (id : Str) (c : SnapshotCache A)
      → ((get id c).1.entries ≡ c.entries) × ((get id c).1.max_size ≡ c.max_size)
  unfolding get
  get-same id c = elim (Option-cases (lookup id c.entries)) [
    | inl e ↦ rw (get, e) (refl, refl)
    | inr (snap, e) ↦ rw (get, e) (refl, refl)
  ]

  put-max_size : (id : Str) (a : A) (c : SnapshotCache A) → (put id a c).max_size ≡ c.max_size
  unfolding put
  put-max_size id a c = elim (Bool-cases (has_key id c.entries)) [
    | inl e ↦ rw (put, e) refl
    | inr e ↦ rw (put, e) refl
  ]

  has_oldest :
      (c : SnapshotCache A)
      → IsValid c
      → length c.entries ≡ c.max_size
      → (oldest : Str) × (order : List Str) × (c.order ≡ oldest ∷ order)
  has_oldest c v full = elim (List-cases c.order) [
    | inr (oldest, order, e) ↦ (oldest, order, e)
    | inl e ↦ elim (List-cases c.entries) [
      | inl nil ↦
          let z : length c.entries ≡ 0 = ap length nil in
          absurd (omega (arith, z, full, v.has_room))
      | inr ((k, a), rest, f) ↦
          let i = (v.in_step.same k).1 (subst (λ m. In k (keys m)) (sym f) (inl refl)) in
          elim (subst (In k) e i) [ ]
    ]
  ]

  -- A Put gives other keys nothing that they did not have.
  put_keeps :
      (id j : Str) (a b : A) (c : SnapshotCache A)
      → IsValid c
      → id ≢ j
      → found j (put id a c) ≡ some b
      → found j c ≡ some b
  put_keeps id j a b c v n h =
      let (hit, full, free) = put_lem id a c v in
      elim (Bool-cases (has_key id c.entries)) [
        | inl old ↦ sym (free j (inl old) n) ∙ h
        | inr new ↦ elim (Bool-cases (ltb (length c.entries) c.max_size)) [
          | inl room ↦ sym (free j (inr (ground (arith, room))) n) ∙ h
          | inr tight ↦
              let e : length c.entries ≡ c.max_size =
                let z = v.in_bounds in ground (arith, tight, z) in
              let (oldest, order, f) = has_oldest c v e in
              let g = sym (full j oldest order new e f n) ∙ h in
              elim (Bool-cases (str_eq oldest j)) [
                | inl s ↦ absurd (cc (rw s at g))
                | inr s ↦ rw s at g
              ]
        ]
      ]

  record IsCurrent (n : ℤ) (puts : List (Str × A)) (c : SnapshotCache A) : Type 0 where
    valid : IsValid c
    size : c.max_size ≡ size_or_default n
    current : (j : Str) (b : A) → found j c ≡ some b → lookup j puts ≡ some b

  reached :
      (n : ℤ) {puts : List (Str × A)} {c : SnapshotCache A} → Reaches n puts c → IsCurrent n puts c
  unfolding new_snapshot_cache get lookup
  reached n fresh = record {
    valid = new_snapshot_cache-IsValid n;
    size = refl;
    current = λ j b h. absurd (cc);
  }
  reached n (after_get {puts = rest} {c = d} id r) =
      let i = reached n r in
      let (same, max) = get-same id d in
      record {
        valid = get-IsValid id d i.valid;
        size = max ∙ i.size;
        current = λ j b h.
            i.current j b
              (found-lookup j d ∙ ap (lookup j) (sym same) ∙ sym (found-lookup j (get id d).1) ∙ h);
      }
  reached n (after_put {puts = rest} {c = d} id a r) =
      let i = reached n r in
      record {
        valid = put-IsValid id a d i.valid;
        size = put-max_size id a d ∙ i.size;
        current = λ j b h. elim (Bool-cases (str_eq id j)) [
          | inl e ↦
              let same = (str_eq_iff id j).0 e in
              let hit : found j (put id a d) ≡ some a =
                subst (λ k. found k (put id a d) ≡ some a) same (put_lem id a d i.valid).0 in
              rw e (sym hit ∙ h)
          | inr e ↦
              rw e
                (i.current j b (put_keeps id j a b d i.valid (λ q. cc ((str_eq_iff id j).1 q)) h))
        ];
      }

  -- After any calls the cache holds at most as many snapshots as it was made for (20 where that is not
  -- positive), each under one key and the keys those of the order; and what Get finds is what was last put
  -- under the key.
  pub reached_lem :
      (n : ℤ) (puts : List (Str × A)) (c : SnapshotCache A)
      → Reaches n puts c
      → IsValid c
        × (length c.entries ≤ size_or_default n)
        × ((j : Str) (b : A) → found j c ≡ some b → lookup j puts ≡ some b)
  reached_lem n puts c r =
      let i = reached n r in
      let v = i.valid in
      (v, (let z = i.size in let w = v.in_bounds in omega (arith, z, w)), i.current)
