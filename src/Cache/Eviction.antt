-- ===== src/Cache/Eviction.antt =====
-- internal/api/cache.go: what keeps the map and the order of a cache in step.
use toposcope.Base.{
  ℕ, suc, ◌+◌, ◌<◌, ◌≡◌, ◌≢◌, refl, sym, ap, ◌∙◌, subst, ◌↔◌, inl, inr, List, [], ◌∷◌, arith, tests,
  Str, Dict, keys, In, NoDup, NoDup-concat, In-append, has_key, insert, delete, contains,
  contains_iff, length, str_eq, str_eq_iff, leb, Bool-cases, if◌then◌else◌,
}
use toposcope.Cache.{remove_first, move_to_end, evict}

pub In-remove_first :
    (j id : Str) (order : List Str)
    → NoDup order
    → In j (remove_first id order) ↔ (In j order × (j ≢ id))
unfolding remove_first
In-remove_first j id [] d = (λ h. elim h [ ], λ h. elim h.0 [ ])
In-remove_first j id (k ∷ order) d = elim (Bool-cases (str_eq k id)) [
  | inl e ↦ rw e (
    λ h. (inr h, λ p. d.0 (subst (λ x. In x order) (p ∙ sym ((str_eq_iff k id).0 e)) h)),
    λ h. elim h.0 [ inl p ↦ absurd (h.1 (p ∙ (str_eq_iff k id).0 e)) | inr r ↦ r ],
  )
  | inr e ↦ rw e (
    λ h. elim h [
      | inl p ↦ (inl p, λ q. cc ((str_eq_iff k id).1 (sym p ∙ q)))
      | inr r ↦ let (i, n) = (In-remove_first j id order d.1).0 r in (inr i, n)
    ],
    λ h. elim h.0 [ inl p ↦ inl p | inr r ↦ inr ((In-remove_first j id order d.1).1 (r, h.1)) ],
  )
]

NoDup-remove_first : (id : Str) (order : List Str) → NoDup order → NoDup (remove_first id order)
unfolding remove_first
NoDup-remove_first id [] d = d
NoDup-remove_first id (k ∷ order) d = elim (Bool-cases (str_eq k id)) [
  | inl e ↦ rw e (d.1)
  | inr e ↦
      rw e (λ h. d.0 ((In-remove_first k id order d.1).0 h).0, NoDup-remove_first id order d.1)
]

pub NoDup-move_to_end : (id : Str) (order : List Str) → NoDup order → NoDup (move_to_end id order)
unfolding move_to_end
NoDup-move_to_end id order d = elim (Bool-cases (contains id order)) [
  | inl e ↦ rw e (
      NoDup-concat id (remove_first id order) (λ h. ((In-remove_first id id order d).0 h).1 refl)
        (NoDup-remove_first id order d))
  | inr e ↦ rw e d
]

pub In-move_to_end :
    (j id : Str) (order : List Str) → NoDup order → In j (move_to_end id order) ↔ In j order
unfolding move_to_end
In-move_to_end j id order d = elim (Bool-cases (contains id order)) [
  | inl e ↦ rw e (
    λ h. elim ((In-append j (remove_first id order) (id ∷ [])).0 h) [
      | inl old ↦ ((In-remove_first j id order d).0 old).0
      | inr new ↦ elim new [
        | inl p ↦ subst (λ x. In x order) (sym p) ((contains_iff id order).0 e)
        | inr r ↦ elim r [ ]
      ]
    ],
    λ h. (In-append j (remove_first id order) (id ∷ [])).1 (elim (Bool-cases (str_eq j id)) [
      | inl p ↦ inr (inl ((str_eq_iff j id).0 p))
      | inr p ↦ inl ((In-remove_first j id order d).1 (h, λ q. cc ((str_eq_iff j id).1 q)))
    ]),
  )
  | inr e ↦ rw e (λ h. h, λ h. h)
]

module _ {A : Type 0} where
  In-keys-delete :
      (j id : Str) (m : Dict A) → In j (keys (delete id m)) ↔ (In j (keys m) × (j ≢ id))
  unfolding delete
  In-keys-delete j id [] = (λ h. elim h [ ], λ h. elim h.0 [ ])
  In-keys-delete j id ((i, w) ∷ m) = ground (arith, str_eq_iff i id, In-keys-delete j id m)

  NoDup-keys-delete : (id : Str) (m : Dict A) → NoDup (keys m) → NoDup (keys (delete id m))
  unfolding delete
  NoDup-keys-delete id [] d = d
  NoDup-keys-delete id ((i, w) ∷ m) d = elim (Bool-cases (str_eq i id)) [
    | inl e ↦ rw e (NoDup-keys-delete id m d.1)
    | inr e ↦ rw e (λ h. d.0 ((In-keys-delete i id m).0 h).0, NoDup-keys-delete id m d.1)
  ]

  delete-absent : (id : Str) (m : Dict A) → ¬ In id (keys m) → delete id m ≡ m
  unfolding delete
  delete-absent id [] h = refl
  delete-absent id ((i, w) ∷ m) h = elim (Bool-cases (str_eq i id)) [
    | inl e ↦ absurd (h (inl (sym ((str_eq_iff i id).0 e))))
    | inr e ↦ rw e (ap (λ r. (i, w) ∷ r) (delete-absent id m (λ r. h (inr r))))
  ]

  pub length-delete :
      (id : Str) (m : Dict A)
      → NoDup (keys m)
      → In id (keys m)
      → suc (length (delete id m)) ≡ length m
  unfolding delete
  length-delete id [] d h = elim h [ ]
  length-delete id ((i, w) ∷ m) d h = elim (Bool-cases (str_eq i id)) [
    | inl e ↦ rw (e, delete-absent id m (subst (λ x. ¬ In x (keys m)) ((str_eq_iff i id).0 e) d.0))
    | inr e ↦ elim h [
      | inl p ↦ absurd (cc ((str_eq_iff i id).1 (sym p)))
      | inr r ↦ rw e (ap suc (length-delete id m d.1 r))
    ]
  ]

  pub length-insert :
      (id : Str) (v : A) (m : Dict A)
      → length (insert id v m) ≡ (if has_key id m then 0 else 1) + length m
  unfolding insert has_key
  length-insert id v [] = refl
  length-insert id v ((i, w) ∷ m) = ground (arith, length-insert id v m)

  -- The map and the order have the same keys, each once.
  pub record InStep (entries : Dict A) (order : List Str) : Type 0 where
    pub once : NoDup order
    pub one_entry : NoDup (keys entries)
    pub same : (k : Str) → In k order ↔ In k (keys entries)

  pub InStep-oldest :
      (entries : Dict A) (oldest : Str) (order : List Str)
      → InStep entries (oldest ∷ order)
      → InStep (delete oldest entries) order
  InStep-oldest entries oldest order s = record {
    once = s.once.1;
    one_entry = NoDup-keys-delete oldest entries s.one_entry;
    same = λ k. (
      λ h.
          (In-keys-delete k oldest entries).1
            ((s.same k).0 (inr h), λ p. s.once.0 (subst (λ x. In x order) p h)),
      λ h.
          let (i, n) = (In-keys-delete k oldest entries).0 h in
          elim ((s.same k).1 i) [ inl p ↦ absurd (n p) | inr r ↦ r ],
    );
  }

  pub no_entries : (entries : Dict A) → InStep entries [] → length entries ≡ 0
  no_entries [] s = refl
  no_entries ((k, v) ∷ m) s = elim ((s.same k).1 (inl refl)) [ ]

  -- After the eviction there is room for one more.
  pub evict-InStep :
      (n : ℕ) (entries : Dict A) (order : List Str)
      → 0 < n
      → InStep entries order
      → InStep (evict n entries order).0 (evict n entries order).1
        × (length (evict n entries order).0 < n)
        × ((k : Str) → In k (evict n entries order).1 → In k order)
  unfolding evict
  evict-InStep n entries [] room s = (s, omega (tests, no_entries entries s), λ k h. h)
  evict-InStep n entries (oldest ∷ order) room s = elim (Bool-cases (leb n (length entries))) [
    | inl full ↦
        let (t, small, kept) =
          evict-InStep n (delete oldest entries) order room
            (InStep-oldest entries oldest order s) in
        rw full (t, small, λ k h. inr (kept k h))
    | inr free ↦ rw free (s, ground arith, λ k h. h)
  ]
