-- ===== src/Query/Packages/Edges.antt =====
-- pkg/graphquery/query.go: the edges between packages that AggregatePackages counts.
use toposcope.Base.{
  ℕ, ◌+◌, ◌≡◌, refl, sym, ◌∙◌, ap, ◌⊎◌, inl, inr, Bool, false, List, [], ◌∷◌, ◌++◌, Option, none,
  some, arith, Str, Dict, keys, bump, get_or, get_or-insert, In, In-insert, NoDup,
  NoDup-keys-insert, count, before, after, before-append, str_eq, str_eq_iff, Bool-cases,
  Option-cases,
}
use toposcope.Graph.{Node, Edge}
use toposcope.Query.Packages.{crossing, weight_key, edge_weights, second_part}

after-append : (sep : ℕ) (s t : Str) → ¬ In sep s → after sep (s ++ sep ∷ t) ≡ some t
unfolding after
after-append sep [] t h = ground arith
after-append sep (c ∷ s) t h =
    let fresh : ¬ In sep s = λ m. h (inr m) in
    let other : ¬ (c ≡ sep) = λ e. h (inl (sym e)) in ground (arith, after-append sep s t fresh)

-- The key of two packages gives them back, if the first has no '|'.
pub weight_key-parts :
    (f t : Str)
    → ¬ In b'|' f
    → (before b'|' (weight_key (f, t)) ≡ f) × (second_part (after b'|' (weight_key (f, t))) ≡ t)
unfolding weight_key second_part
weight_key-parts f t h = (before-append b'|' f t h, ap second_part (after-append b'|' f t h))

pub weight_key-injective :
    (f t g u : Str)
    → ¬ In b'|' f
    → ¬ In b'|' g
    → weight_key (f, t) ≡ weight_key (g, u)
    → (f ≡ g) × (t ≡ u)
weight_key-injective f t g u h k e =
    let (a, b) = weight_key-parts f t h in
    let (c, d) = weight_key-parts g u k in
    (sym a ∙ ap (before b'|') e ∙ c, sym b ∙ ap (λ x. second_part (after b'|' x)) e ∙ d)

module _ (nodes : Dict Node) (included : List Str) where
  abbrev pub has_key_of : Str → Option (Str × Str) → Bool
  has_key_of key none = false
  has_key_of key (some ends) = str_eq (weight_key ends) key

  pub get_or-edge_weights :
      (key : Str) (es : List Edge) (m : Dict ℕ)
      → get_or key (edge_weights nodes included es m) 0
        ≡ get_or key m 0 + count (λ e. has_key_of key (crossing nodes included e)) es
  unfolding edge_weights bump
  get_or-edge_weights key [] m = omega arith
  get_or-edge_weights key (e ∷ es) m = elim (Option-cases (crossing nodes included e)) [
    | inl c ↦ rw (edge_weights, c) (omega (arith, get_or-edge_weights key es m))
    | inr (ends, c) ↦
        let k = weight_key ends in
        let rest = get_or-edge_weights key es (bump k m) in
        elim (Bool-cases (str_eq k key)) [
          | inl s ↦
              let same = (str_eq_iff k key).0 s in
              let one : get_or key (bump k m) 0 ≡ get_or key m 0 + 1 =
                rw (get_or-insert, s, same) refl in
              rw (edge_weights, c, s) (omega (arith, rest, one))
          | inr s ↦
              let one : get_or key (bump k m) 0 ≡ get_or key m 0 = rw (get_or-insert, s) refl in
              rw (edge_weights, c, s) (omega (arith, rest, one))
        ]
  ]

  -- Every key in the map is that of an edge, or from before.
  pub keys-edge_weights :
      (key : Str) (w : ℕ) (es : List Edge) (m : Dict ℕ)
      → In (key, w) (edge_weights nodes included es m)
      → ((v : ℕ) × In (key, v) m)
        ⊎ ((e : Edge) × (ends : Str × Str) × (crossing nodes included e ≡ some ends)
            × (key ≡ weight_key ends))
  unfolding edge_weights bump
  keys-edge_weights key w [] m i = inl (w, i)
  keys-edge_weights key w (e ∷ es) m i = elim (Option-cases (crossing nodes included e)) [
    | inl c ↦ keys-edge_weights key w es m (rw (edge_weights, c) at i)
    | inr (ends, c) ↦
        let k = weight_key ends in
        elim (keys-edge_weights key w es (bump k m) (rw (edge_weights, c) at i)) [
          | inl (v, j) ↦ elim (In-insert key k v (get_or k m 0 + 1) m j) [
            | inl (same, x) ↦ inr (e, ends, c, same)
            | inr old ↦ inl (v, old)
          ]
          | inr found ↦ inr found
        ]
  ]

  pub NoDup-edge_weights :
      (es : List Edge) (m : Dict ℕ)
      → NoDup (keys m)
      → NoDup (keys (edge_weights nodes included es m))
  unfolding edge_weights bump
  NoDup-edge_weights [] m d = d
  NoDup-edge_weights (e ∷ es) m d = elim (Option-cases (crossing nodes included e)) [
    | inl c ↦ rw (edge_weights, c) (NoDup-edge_weights es m d)
    | inr (ends, c) ↦
        let k = weight_key ends in
        rw (edge_weights, c)
          (NoDup-edge_weights es (bump k m) (NoDup-keys-insert k (get_or k m 0 + 1) m d))
  ]
