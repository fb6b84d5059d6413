-- ===== src/Base/Dicts.antt =====
-- Go maps with string keys, as association lists. The order of the list stands for the order in
-- which a `range` loop meets the keys, which Go leaves open: what is proved of every list holds of
-- every order.
use Prim.Native.Nat.{ℕ, ◌+◌}
use mathlib.Core.Path.{◌≡◌, refl, ap, ap₂, sym, subst, ◌∙◌}
use mathlib.Core.Logic.{◌⊎◌, inl, inr, ◌↔◌}
use mathlib.Core.Bool.{Bool, true, false, ◌||◌}
use mathlib.Core.List.{List, [], ◌∷◌, ◌++◌}
use mathlib.Core.Option.{Option, none, some}
use native.Mathlib.Omega.{arith}
use toposcope.Base.Tests.{if◌then◌else◌, Bool-cases}
use toposcope.Base.Lists.{In, In-append}
use toposcope.Base.Strings.{Str, str_eq, str_eq_iff}

abbrev pub Dict {ℓ} : Type ℓ → Type ℓ
Dict V = List (Str × V)

module _ {ℓ} {V : Type ℓ} where
  abbrev pub keys : Dict V → List Str
  keys [] = []
  keys ((k, v) ∷ m) = k ∷ keys m

  abbrev pub values : Dict V → List V
  values [] = []
  values ((k, v) ∷ m) = v ∷ values m

  -- v, ok := m[k]
  unfoldable pub lookup : Str → Dict V → Option V
  lookup k [] = none
  lookup k ((j, v) ∷ m) = if str_eq j k then some v else lookup k m

  -- m[k], with the value of a missing key
  unfoldable pub get_or : Str → Dict V → V → V
  get_or k [] d = d
  get_or k ((j, v) ∷ m) d = if str_eq j k then v else get_or k m d

  -- _, ok := m[k]
  unfoldable pub has_key : Str → Dict V → Bool
  has_key k [] = false
  has_key k ((j, v) ∷ m) = str_eq j k || has_key k m

  -- m[k] = v
  unfoldable pub insert : Str → V → Dict V → Dict V
  insert k v [] = (k, v) ∷ []
  insert k v ((j, w) ∷ m) = if str_eq j k then (j, v) ∷ m else (j, w) ∷ insert k v m

  -- delete(m, k)
  unfoldable pub delete : Str → Dict V → Dict V
  delete k [] = []
  delete k ((j, w) ∷ m) = if str_eq j k then delete k m else (j, w) ∷ delete k m

  pub lookup-insert :
      (k j : Str) (v : V) (m : Dict V)
      → lookup j (insert k v m) ≡ (if str_eq k j then some v else lookup j m)
  unfolding lookup insert
  lookup-insert k j v [] = refl
  lookup-insert k j v ((i, w) ∷ m) =
      ground (arith, str_eq_iff k j, str_eq_iff i k, str_eq_iff i j, lookup-insert k j v m)

  pub get_or-insert :
      (k j : Str) (v d : V) (m : Dict V)
      → get_or j (insert k v m) d ≡ (if str_eq k j then v else get_or j m d)
  unfolding get_or insert
  get_or-insert k j v d [] = refl
  get_or-insert k j v d ((i, w) ∷ m) =
      ground (arith, str_eq_iff k j, str_eq_iff i k, str_eq_iff i j, get_or-insert k j v d m)

  pub has_key-insert :
      (k j : Str) (v : V) (m : Dict V) → has_key j (insert k v m) ≡ (str_eq k j || has_key j m)
  unfolding has_key insert
  has_key-insert k j v [] = ground arith
  has_key-insert k j v ((i, w) ∷ m) =
      ground (arith, str_eq_iff k j, str_eq_iff i k, str_eq_iff i j, has_key-insert k j v m)

  pub has_key_iff : (k : Str) (m : Dict V) → (has_key k m ≡ true) ↔ In k (keys m)
  unfolding has_key
  has_key_iff k [] = ground arith
  has_key_iff k ((j, v) ∷ m) = ground (arith, str_eq_iff j k, has_key_iff k m)

  pub lookup-eq-none : (k : Str) (m : Dict V) → (lookup k m ≡ none) ↔ (has_key k m ≡ false)
  unfolding lookup has_key
  lookup-eq-none k [] = ground arith
  lookup-eq-none k ((j, v) ∷ m) = ground (arith, lookup-eq-none k m)

  pub lookup-delete :
      (k j : Str) (m : Dict V) → lookup j (delete k m) ≡ (if str_eq k j then none else lookup j m)
  unfolding lookup delete
  lookup-delete k j [] = ground arith
  lookup-delete k j ((i, w) ∷ m) =
      ground (arith, str_eq_iff k j, str_eq_iff i k, str_eq_iff i j, lookup-delete k j m)

-- No key stands twice: what every Go map has.
abbrev pub NoDup : List Str → Type 0
NoDup [] = Unit
NoDup (k ∷ ks) = (¬ In k ks) × NoDup ks

module _ {V : Type 0} where
  In-keys-insert :
      (j k : Str) (v : V) (m : Dict V) → In j (keys (insert k v m)) → (j ≡ k) ⊎ In j (keys m)
  unfolding insert
  In-keys-insert j k v [] h = h
  In-keys-insert j k v ((i, w) ∷ m) h = ground (arith, str_eq_iff i k, In-keys-insert j k v m)

  pub NoDup-keys-insert :
      (k : Str) (v : V) (m : Dict V) → NoDup (keys m) → NoDup (keys (insert k v m))
  unfolding insert
  NoDup-keys-insert k v [] d = (λ h. elim h [ ], tt)
  NoDup-keys-insert k v ((i, w) ∷ m) d = elim (Bool-cases (str_eq i k)) [
    | inl e ↦ rw e d
    | inr e ↦ rw e (
      λ h. elim (In-keys-insert i k v m h) [
        | inl p ↦ cc ((str_eq_iff i k).1 p)
        | inr old ↦ d.0 old
      ],
      NoDup-keys-insert k v m d.1,
    )
  ]

  pub In-keys : (k : Str) (v : V) (m : Dict V) → In (k, v) m → In k (keys m)
  In-keys k v ((i, w) ∷ m) h = elim h [
    | inl e ↦ inl (ap (λ p. p.0) e)
    | inr r ↦ inr (In-keys k v m r)
  ]
  In-keys k v [] h = elim h [ ]

  -- Where no key stands twice, the entries of the list are what a lookup finds.
  pub In-iff_lookup :
      (k : Str) (v : V) (m : Dict V) → NoDup (keys m) → In (k, v) m ↔ (lookup k m ≡ some v)
  unfolding lookup
  In-iff_lookup k v [] d = (λ h. elim h [ ], λ h. absurd (cc))
  In-iff_lookup k v ((i, w) ∷ m) d = elim (Bool-cases (str_eq i k)) [
    | inl e ↦ rw e (
      λ h. elim h [
        | inl p ↦ ap some (ap (λ q. q.1) (sym p))
        | inr r ↦
            absurd (d.0 (subst (λ x. In x (keys m)) (sym ((str_eq_iff i k).0 e)) (In-keys k v m r)))
      ],
      λ h. inl (ap₂ (λ x y. (x, y)) (sym ((str_eq_iff i k).0 e)) (let q : v ≡ w = cc in q)),
    )
    | inr e ↦ rw e (
      λ h. elim h [
        | inl p ↦ absurd (cc ((str_eq_iff i k).1 (ap (λ q. q.0) (sym p))))
        | inr r ↦ (In-iff_lookup k v m d.1).0 r
      ],
      λ h. inr ((In-iff_lookup k v m d.1).1 h),
    )
  ]

-- An entry after a write is the one written, or one from before.
pub In-insert :
    {V : Type 0} (k j : Str) (w v : V) (m : Dict V)
    → In (k, w) (insert j v m)
    → ((k ≡ j) × (w ≡ v)) ⊎ In (k, w) m
unfolding insert
In-insert k j w v [] h = elim h [
  | inl e ↦ inl (ap (λ x. x.0) e, ap (λ x. x.1) e)
  | inr i ↦ elim i [ ]
]
In-insert k j w v ((i, u) ∷ m) h = elim (Bool-cases (str_eq i j)) [
  | inl e ↦ elim (rw (e, insert) at h) [
    | inl p ↦ inl (ap (λ x. x.0) p ∙ (str_eq_iff i j).0 e, ap (λ x. x.1) p)
    | inr q ↦ inr (inr q)
  ]
  | inr e ↦ elim (rw (e, insert) at h) [
    | inl p ↦ inr (inl p)
    | inr q ↦ elim (In-insert k j w v m q) [ inl p ↦ inl p | inr r ↦ inr (inr r) ]
  ]
]

pub In-of_lookup : {V : Type 0} (k : Str) (v : V) (m : Dict V) → lookup k m ≡ some v → In (k, v) m
unfolding lookup
In-of_lookup k v [] h = absurd (cc)
In-of_lookup k v ((j, w) ∷ m) h = elim (Bool-cases (str_eq j k)) [
  | inl e ↦
      let same : v ≡ w = ground arith in inl (ap₂ (λ x y. (x, y)) (sym ((str_eq_iff j k).0 e)) same)
  | inr e ↦ inr (In-of_lookup k v m (ground arith))
]

-- A key of the list has an entry.
pub In-entry : {V : Type 0} (k : Str) (m : Dict V) → In k (keys m) → (v : V) × In (k, v) m
In-entry k [] h = elim h [ ]
In-entry k ((j, w) ∷ m) h = elim h [
  | inl e ↦ (w, inl (ap (λ x. (x, w)) e))
  | inr i ↦ let (v, p) = In-entry k m i in (v, inr p)
]

-- A set `map[string]bool` whose values are all true: its keys.
unfoldable pub contains : Str → List Str → Bool
contains k [] = false
contains k (j ∷ s) = str_eq j k || contains k s

-- s[k] = true
unfoldable pub add : Str → List Str → List Str
add k s = if contains k s then s else s ++ k ∷ []

pub contains_iff : (k : Str) (s : List Str) → (contains k s ≡ true) ↔ In k s
unfolding contains
contains_iff k [] = ground arith
contains_iff k (j ∷ s) = ground (arith, str_eq_iff j k, contains_iff k s)

pub contains-append :
    (k : Str) (s t : List Str) → contains k (s ++ t) ≡ (contains k s || contains k t)
unfolding contains
contains-append k [] t = refl
contains-append k (j ∷ s) t = ground (arith, contains-append k s t)

pub contains-add : (j k : Str) (s : List Str) → contains j (add k s) ≡ (contains j s || str_eq k j)
unfolding add contains
contains-add j k s =
    ground (arith, str_eq_iff k j, contains-append j s (k ∷ []), contains_iff j s, contains_iff k s)

pub NoDup-concat : (k : Str) (s : List Str) → ¬ In k s → NoDup s → NoDup (s ++ k ∷ [])
NoDup-concat k [] h d = (λ h. elim h [ ], tt)
NoDup-concat k (j ∷ s) h d = (
  λ m. elim ((In-append j s (k ∷ [])).0 m) [
    | inl old ↦ d.0 old
    | inr new ↦ elim new [ inl e ↦ h (inl (sym e)) | inr e ↦ elim e [ ] ]
  ],
  NoDup-concat k s (λ m. h (inr m)) d.1,
)

pub NoDup-add : (k : Str) (s : List Str) → NoDup s → NoDup (add k s)
unfolding add
NoDup-add k s d = elim (Bool-cases (contains k s)) [
  | inl old ↦ rw old d
  | inr new ↦ rw new (NoDup-concat k s (λ m. cc ((contains_iff k s).1 m)) d)
]

-- m[k]++
unfoldable pub bump : Str → Dict ℕ → Dict ℕ
unfolding insert get_or
bump k m = insert k (get_or k m 0 + 1) m
