-- ===== src/Tenant/Delete/Laws.antt =====
-- internal/tenant/service.go: DeleteRepo is all or nothing, and its order breaks no key on the way.
use toposcope.Base.{
  ◌≡◌, refl, sym, ◌∙◌, subst, inl, inr, Str, str_eq, true, false, not, List, [], ◌∷◌, some, filter,
  arith, Bool-cases, Option-cases,
}
use toposcope.Tenant.{Tables}
use toposcope.Tenant.Delete.{
  snapshot_refs, delta_refs, score_refs, is_intact, checked, delete_ingestions, delete_scores,
  delete_deltas, delete_baselines, delete_snapshots, delete_repositories, queries, exec_all,
  delete_repo,
}
use toposcope.Tenant.Delete.Keys.{Within, Within-filter, IsIntact, is_intact_iff, refs-Within}

-- The tables without the repository and the rows of it.
unfoldable pub without : Str → Tables → Tables
unfolding str_eq
without repo_id t = record {
  tenants = t.tenants;
  repositories = filter (λ r. not (str_eq r.id repo_id)) t.repositories;
  snapshots = filter (λ s. not (str_eq s.repo_id repo_id)) t.snapshots;
  baselines = filter (λ b. not (str_eq b.repo_id repo_id)) t.baselines;
  deltas = filter (λ d. not (str_eq d.repo_id repo_id)) t.deltas;
  scores = filter (λ s. not (str_eq s.repo_id repo_id)) t.scores;
  ingestions = filter (λ i. not (str_eq i.repo_id repo_id)) t.ingestions;
}

-- The tables after each query hold their keys.
abbrev AreIntact : Str → List (Str → Tables → Tables) → Tables → Type 0
AreIntact repo_id [] t = Unit
AreIntact repo_id (q ∷ qs) t = IsIntact (q repo_id t) × AreIntact repo_id qs (q repo_id t)

run_all : Str → List (Str → Tables → Tables) → Tables → Tables
run_all repo_id [] t = t
run_all repo_id (q ∷ qs) t = run_all repo_id qs (q repo_id t)

exec_all-some :
    (repo_id : Str) (qs : List (Str → Tables → Tables)) (t : Tables)
    → AreIntact repo_id qs t
    → exec_all repo_id qs t ≡ some (run_all repo_id qs t)
unfolding exec_all checked run_all
exec_all-some repo_id [] t h = refl
exec_all-some repo_id (q ∷ qs) t (h, hs) =
    rw (exec_all, checked, (is_intact_iff (q repo_id t)).1 h)
      (exec_all-some repo_id qs (q repo_id t) hs)

exec_all-IsIntact :
    (repo_id : Str) (q : Str → Tables → Tables) (qs : List (Str → Tables → Tables)) (t u : Tables)
    → exec_all repo_id (q ∷ qs) t ≡ some u
    → (u ≡ run_all repo_id (q ∷ qs) t) × (is_intact u ≡ true)
unfolding exec_all checked run_all
exec_all-IsIntact repo_id q [] t u e = elim (Bool-cases (is_intact (q repo_id t))) [
  | inl good ↦
      let same : some (q repo_id t) ≡ some u = rw (exec_all, checked, good) at e in
      let it : u ≡ q repo_id t = ground arith in (it, subst (λ x. is_intact x ≡ true) (sym it) good)
  | inr bad ↦ absurd (cc (rw (exec_all, checked, bad) at e))
]
exec_all-IsIntact repo_id q (p ∷ ps) t u e = elim (Bool-cases (is_intact (q repo_id t))) [
  | inl good ↦ exec_all-IsIntact repo_id p ps (q repo_id t) u (rw (exec_all, checked, good) at e)
  | inr bad ↦ absurd (cc (rw (exec_all, checked, bad) at e))
]

Within-trans : (xs ys zs : List Str) → Within xs ys → Within ys zs → Within xs zs
Within-trans xs ys zs f g a i = g a (f a i)

queries-AreIntact :
    (repo_id : Str) (t : Tables)
    → IsIntact t
    → IsIntact (without repo_id t)
    → AreIntact repo_id queries t
unfolding queries delete_ingestions delete_scores delete_deltas delete_baselines delete_snapshots
    delete_repositories without snapshot_refs delta_refs score_refs
queries-AreIntact repo_id t (old_s, old_d, old_c, old_r) (us, ud, uc, ur) =
    let t1 = delete_ingestions repo_id t in
    let t2 = delete_scores repo_id t1 in
    let t3 = delete_deltas repo_id t2 in
    let t4 = delete_baselines repo_id t3 in
    let t5 = delete_snapshots repo_id t4 in
    let less_i = Within-filter (λ i. not (str_eq i.repo_id repo_id)) t.ingestions in
    let less_c = Within-filter (λ s. not (str_eq s.repo_id repo_id)) t.scores in
    let less_d = Within-filter (λ d. not (str_eq d.repo_id repo_id)) t.deltas in
    let less_b = Within-filter (λ b. not (str_eq b.repo_id repo_id)) t.baselines in
    let less_s = Within-filter (λ s. not (str_eq s.repo_id repo_id)) t.snapshots in
    let (s1, d1, c1, r1) = refs-Within t1 t (λ a i. i, λ a i. i, λ a i. i, λ a i. i, less_i) in
    let (s2, d2, c2, r2) = refs-Within t2 t (λ a i. i, λ a i. i, λ a i. i, less_c, less_i) in
    let (s3, d3, c3, r3) = refs-Within t3 t (λ a i. i, λ a i. i, less_d, less_c, less_i) in
    let (s4, d4, c4, r4) = refs-Within t4 t (λ a i. i, less_b, less_d, less_c, less_i) in
    let (s5, d5, c5, r5) = refs-Within t5 t (less_s, less_b, less_d, less_c, less_i) in
    (
      (
        Within-trans _ _ _ s1 old_s,
        Within-trans _ _ _ d1 old_d,
        Within-trans _ _ _ c1 old_c,
        Within-trans _ _ _ r1 old_r,
      ),
      (
        (Within-trans _ _ _ s2 old_s, Within-trans _ _ _ d2 old_d, uc, Within-trans _ _ _ r2 old_r),
        (
          (Within-trans _ _ _ s3 old_s, ud, uc, Within-trans _ _ _ r3 old_r),
          (
            (Within-trans _ _ _ s4 old_s, ud, uc, Within-trans _ _ _ r4 old_r),
            ((us, ud, uc, Within-trans _ _ _ r5 old_r), ((us, ud, uc, ur), tt)),
          ),
        ),
      ),
    )

run_queries : (repo_id : Str) (t : Tables) → run_all repo_id queries t ≡ without repo_id t
unfolding run_all queries delete_ingestions delete_scores delete_deltas delete_baselines
    delete_snapshots delete_repositories without
run_queries repo_id t = refl

-- Where the foreign keys hold, DeleteRepo removes the repository and exactly the rows that have its identifier, all of
-- them at once, if the keys still hold without them; and otherwise it is an error and changes nothing. That the tables
-- are cleared one after the other fails no sooner.
pub delete_repo_lem :
    (repo_id : Str) (t : Tables)
    → IsIntact t
    → (IsIntact (without repo_id t) → delete_repo repo_id t ≡ (true, without repo_id t))
      × ((¬ IsIntact (without repo_id t)) → delete_repo repo_id t ≡ (false, t))
unfolding delete_repo
delete_repo_lem repo_id t intact = (
  λ after.
      rw
        (
          delete_repo,
          exec_all-some repo_id queries t (queries-AreIntact repo_id t intact after),
          run_queries repo_id t,
        )
        refl,
  λ broken. elim (Option-cases (exec_all repo_id queries t)) [
    | inl e ↦ rw (delete_repo, e) refl
    | inr (u, e) ↦
        let (same, good) = exec_all-IsIntact repo_id _ _ t u e in
        absurd (
          broken (
            (is_intact_iff (without repo_id t)).0
              (subst (λ x. is_intact x ≡ true) (same ∙ run_queries repo_id t) good)))
  ],
)
