-- ===== src/Tenant/Delete/Keys.antt =====
-- internal/tenant/service.go: the foreign keys that a DELETE checks.
use toposcope.Base.{
  ◌≡◌, refl, sym, ap, subst, inl, inr, ◌↔◌, Str, In, In-append, In-map, In-filter, contains_iff,
  Bool, true, List, [], ◌∷◌, ◌++◌, Option, none, some, map, filter, arith,
}
use toposcope.Tenant.{Tables}
use toposcope.Tenant.Delete.{
  given, are_present, snapshot_refs, delta_refs, score_refs, repo_refs, is_intact,
}

abbrev pub Within : {A : Type 0} → List A → List A → Type 0
Within {A} xs ys = (a : A) → In a xs → In a ys

pub Within-filter : {A : Type 0} (p : A → Bool) (xs : List A) → Within (filter p xs) xs
Within-filter p xs a i = ((In-filter a p xs).0 i).0

Within-append :
    {A : Type 0} (xs ys xs' ys' : List A)
    → Within xs xs'
    → Within ys ys'
    → Within (xs ++ ys) (xs' ++ ys')
Within-append xs ys xs' ys' f g a i = elim ((In-append a xs ys).0 i) [
  | inl l ↦ (In-append a xs' ys').1 (inl (f a l))
  | inr r ↦ (In-append a xs' ys').1 (inr (g a r))
]

Within-map :
    {A B : Type 0} (f : A → B) (xs ys : List A) → Within xs ys → Within (map f xs) (map f ys)
Within-map f xs ys h b i = let (a, j, e) = (In-map f b xs).0 i in (In-map f b ys).1 (a, h a j, e)

In-given : (x : Str) (os : List (Option Str)) → In x (given os) ↔ In (some x) os
unfolding given
In-given x [] = (λ i. i, λ i. i)
In-given x (none ∷ os) = (
  λ i. inr ((In-given x os).0 i),
  λ i. elim i [ inl e ↦ absurd (cc) | inr j ↦ (In-given x os).1 j ],
)
In-given x (some y ∷ os) = (
  λ i. elim i [ inl e ↦ inl (ap some e) | inr j ↦ inr ((In-given x os).0 j) ],
  λ i. elim i [ inl e ↦ inl (ground arith) | inr j ↦ inr ((In-given x os).1 j) ],
)

Within-given : (xs ys : List (Option Str)) → Within xs ys → Within (given xs) (given ys)
Within-given xs ys h x i = (In-given x ys).1 (h (some x) ((In-given x xs).0 i))

are_present_iff : (ks ids : List Str) → (are_present ks ids ≡ true) ↔ Within ks ids
unfolding are_present
are_present_iff [] ids = (λ e a i. elim i [ ], λ h. refl)
are_present_iff (k ∷ ks) ids = (
  λ e. λ a i. elim i [
    | inl same ↦ subst (λ x. In x ids) (sym same) ((contains_iff k ids).0 (ground arith))
    | inr j ↦ (are_present_iff ks ids).0 (ground arith) a j
  ],
  λ h.
      rw ((contains_iff k ids).1 (h k (inl refl)), (are_present_iff ks ids).1 (λ a i. h a (inr i)))
        refl,
)

-- Every foreign key holds.
abbrev pub IsIntact : Tables → Type 0
IsIntact t =
    Within (snapshot_refs t) (map (λ s. s.id) t.snapshots)
    × Within (delta_refs t) (map (λ d. d.id) t.deltas)
    × Within (score_refs t) (map (λ s. s.id) t.scores)
    × Within (repo_refs t) (map (λ r. r.id) t.repositories)

pub is_intact_iff : (t : Tables) → (is_intact t ≡ true) ↔ IsIntact t
unfolding is_intact
is_intact_iff t =
    let a = are_present_iff (snapshot_refs t) (map (λ s. s.id) t.snapshots) in
    let b = are_present_iff (delta_refs t) (map (λ d. d.id) t.deltas) in
    let c = are_present_iff (score_refs t) (map (λ s. s.id) t.scores) in
    let d = are_present_iff (repo_refs t) (map (λ r. r.id) t.repositories) in
    (
      λ e. (a.0 (ground arith), b.0 (ground arith), c.0 (ground arith), d.0 (ground arith)),
      λ (w, x, y, z). rw (a.1 w, b.1 x, c.1 y, d.1 z) refl,
    )

-- No row but those of `t`.
abbrev IsPartOf : Tables → Tables → Type 0
IsPartOf u t =
    Within u.snapshots t.snapshots
    × Within u.baselines t.baselines
    × Within u.deltas t.deltas
    × Within u.scores t.scores
    × Within u.ingestions t.ingestions

pub refs-Within :
    (u t : Tables)
    → IsPartOf u t
    → Within (snapshot_refs u) (snapshot_refs t)
      × Within (delta_refs u) (delta_refs t)
      × Within (score_refs u) (score_refs t)
      × Within (repo_refs u) (repo_refs t)
unfolding snapshot_refs delta_refs score_refs repo_refs
refs-Within u t (s, b, d, c, i) =
    let sb = Within-map (λ x. x.snapshot_id) u.baselines t.baselines b in
    let bd = Within-map (λ x. x.base_snapshot_id) u.deltas t.deltas d in
    let hd = Within-map (λ x. x.head_snapshot_id) u.deltas t.deltas d in
    let bs = Within-map (λ x. x.base_snapshot_id) u.scores t.scores c in
    let hs = Within-map (λ x. x.head_snapshot_id) u.scores t.scores c in
    let si = Within-given _ _ (Within-map (λ x. x.snapshot_id) u.ingestions t.ingestions i) in
    let ds = Within-map (λ x. x.delta_id) u.scores t.scores c in
    let di = Within-given _ _ (Within-map (λ x. x.delta_id) u.ingestions t.ingestions i) in
    let ci = Within-given _ _ (Within-map (λ x. x.score_id) u.ingestions t.ingestions i) in
    let rs = Within-map (λ x. x.repo_id) u.snapshots t.snapshots s in
    let rb = Within-map (λ x. x.repo_id) u.baselines t.baselines b in
    let rd = Within-map (λ x. x.repo_id) u.deltas t.deltas d in
    let rc = Within-map (λ x. x.repo_id) u.scores t.scores c in
    let ri = Within-map (λ x. x.repo_id) u.ingestions t.ingestions i in
    (
      Within-append _ _ _ _
          (Within-append _ _ _ _
            (Within-append _ _ _ _ (Within-append _ _ _ _ (Within-append _ _ _ _ sb bd) hd) bs) hs)
          si,
      Within-append _ _ _ _ ds di,
      ci,
      Within-append _ _ _ _
          (Within-append _ _ _ _ (Within-append _ _ _ _ (Within-append _ _ _ _ rs rb) rd) rc) ri,
    )
