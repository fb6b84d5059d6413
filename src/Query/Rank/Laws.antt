-- ===== src/Query/Rank/Laws.antt =====
-- pkg/graphquery/query.go: what the ranking keeps.
use toposcope.Base.{
  ℕ, ◌+◌, ◌≤◌, ◌≡◌, refl, sym, ◌∙◌, ap, subst, inl, inr, ◌↔◌, Bool, false, List, [], ◌∷◌, ◌++◌,
  arith, Str, Dict, get_or, In, In-append, In-map, In-take, NoDup, count, count-append, length,
  length-map, length-take, map, min, take, drop, take-append-drop, str_eq, str_eq_iff, Bool-cases,
}
use toposcope.Base.Sort.{SortSlice, Sorts, IsWeakOrder, sorted-take-drop}
use toposcope.Query.Rank.{rank, has_more, keep}

has_more-IsWeakOrder : IsWeakOrder has_more
unfolding has_more
has_more-IsWeakOrder = record {
  asym = λ x y h. ground arith;
  co_trans = λ x y z h k. ground (arith, h, k);
}

count-map :
    {A B : Type 0} (f : A → B) (p : B → Bool) (xs : List A)
    → count p (map f xs) ≡ count (λ x. p (f x)) xs
count-map f p [] = refl
count-map f p (x ∷ xs) = omega (arith, count-map f p xs)

count-absent : (k : Str) (ks : List Str) → ¬ In k ks → count (str_eq k) ks ≡ 0
count-absent k [] h = refl
count-absent k (j ∷ ks) h = elim (Bool-cases (str_eq k j)) [
  | inl e ↦ absurd (h (inl ((str_eq_iff k j).0 e)))
  | inr e ↦ rw e (let r = count-absent k ks (λ i. h (inr i)) in omega (arith, r))
]

count-present : (k : Str) (ks : List Str) → In k ks → 1 ≤ count (str_eq k) ks
count-present k [] h = elim h [ ]
count-present k (j ∷ ks) h = elim h [
  | inl e ↦ rw ((str_eq_iff k j).1 e) (omega arith)
  | inr i ↦ let r = count-present k ks i in omega (arith, r)
]

pub count-NoDup : (k : Str) (ks : List Str) → NoDup ks → count (str_eq k) ks ≤ 1
count-NoDup k [] d = omega arith
count-NoDup k (j ∷ ks) d = elim (Bool-cases (str_eq k j)) [
  | inl e ↦
      let same = (str_eq_iff k j).0 e in
      let r = count-absent k ks (λ i. d.0 (subst (λ x. In x ks) same i)) in rw e (omega (arith, r))
  | inr e ↦ rw e (let r = count-NoDup k ks d.1 in omega (arith, r))
]

NoDup-count : (ks : List Str) → ((k : Str) → count (str_eq k) ks ≤ 1) → NoDup ks
NoDup-count [] h = tt
NoDup-count (k ∷ ks) h = (
  λ i.
      let once = h k in
      let z = count-present k ks i in
      let e = (str_eq_iff k k).1 refl in
      let twice : 1 + count (str_eq k) ks ≤ 1 = rw e at once in absurd (omega (arith, twice, z)),
  NoDup-count ks (λ j. let r = h j in omega (arith, r)),
)

module _ (sort : SortSlice) (laws : Sorts sort) (cap : ℕ) (degree : Dict ℕ) (ks : List Str) where
  abbrev ordered : List (Str × ℕ)
  ordered = sort (Str × ℕ) has_more (rank degree ks)

  In-ordered : (x : Str × ℕ) → In x ordered ↔ ((k : Str) × In k ks × (x ≡ (k, get_or k degree 0)))
  unfolding rank
  In-ordered x =
      let m = laws.members (Str × ℕ) has_more (rank degree ks) x in
      let i = In-map (λ k. (k, get_or k degree 0)) x ks in (λ h. i.0 (m.0 h), λ h. m.1 (i.1 h))

  In-keep :
      (k : Str)
      → In k (keep sort cap degree ks)
      → In (k, get_or k degree 0) (take cap ordered) × In k ks
  unfolding keep
  In-keep k h =
      let (x, i, e) = (In-map (λ (x : Str × ℕ). x.0) k (take cap ordered)).0 h in
      let (j, m, f) = (In-ordered x).0 (In-take x cap ordered i) in
      let same : j ≡ k = sym (ap (λ y. y.0) f) ∙ sym e in
      (
        subst (λ y. In y (take cap ordered)) (f ∙ ap (λ y. (y, get_or y degree 0)) same) i,
        subst (λ y. In y ks) same m,
      )

  pub keep-subset : (k : Str) → In k (keep sort cap degree ks) → In k ks
  keep-subset k h = (In-keep k h).1

  pub length-keep : length (keep sort cap degree ks) ≡ min cap (length ks)
  unfolding keep rank
  length-keep =
      let a = length-map (λ (x : Str × ℕ). x.0) (take cap ordered) in
      let b = length-take cap ordered in
      let c = laws.size (Str × ℕ) has_more (rank degree ks) in
      let d = length-map (λ k. (k, get_or k degree 0)) ks in a ∙ b ∙ ap (min cap) (c ∙ d)

  pub keep-NoDup : NoDup ks → NoDup (keep sort cap degree ks)
  unfolding keep rank
  keep-NoDup d = NoDup-count (keep sort cap degree ks) (λ k.
      let p = λ (x : Str × ℕ). str_eq k x.0 in
      let a = count-map (λ (x : Str × ℕ). x.0) (str_eq k) (take cap ordered) in
      let b = count-append p (take cap ordered) (drop cap ordered) in
      let c = ap (count p) (take-append-drop cap ordered) in
      let e = laws.counts (Str × ℕ) has_more (rank degree ks) p in
      let f = count-map (λ k. (k, get_or k degree 0)) p ks in
      let g = count-NoDup k ks d in omega (arith, a, b, c, e, f, g))

  -- A key that is left out has no higher degree than one that is kept.
  pub keep-highest :
      (k j : Str)
      → In k (keep sort cap degree ks)
      → In j ks
      → ¬ In j (keep sort cap degree ks)
      → get_or j degree 0 ≤ get_or k degree 0
  unfolding keep has_more
  keep-highest k j h i out =
      let y : Str × ℕ = (j, get_or j degree 0) in
      let all : In y (take cap ordered ++ drop cap ordered) =
        subst (In y) (sym (take-append-drop cap ordered)) ((In-ordered y).1 (j, i, refl)) in
      elim ((In-append y (take cap ordered) (drop cap ordered)).0 all) [
        | inl kept ↦
            absurd (out ((In-map (λ (x : Str × ℕ). x.0) j (take cap ordered)).1 (y, kept, refl)))
        | inr dropped ↦
            let s =
              sorted-take-drop has_more cap ordered (k, get_or k degree 0) y
                (laws.sorted (Str × ℕ) has_more (rank degree ks) has_more-IsWeakOrder)
                (In-keep k h).0 dropped in
            less_le s
      ]
    where
      less_le :
          has_more (j, get_or j degree 0) (k, get_or k degree 0) ≡ false
          → get_or j degree 0 ≤ get_or k degree 0
      less_le s = ground (arith, s)
