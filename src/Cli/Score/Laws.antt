-- ===== src/Cli/Score/Laws.antt =====
-- cmd/toposcope/score.go: what holds of the checkout, of the caches and of the snapshots during runScore.
use toposcope.Base.{
  ◌<◌, ◌≡◌, refl, sym, ◌∙◌, subst, ◌⊎◌, inl, inr, Str, Bool, true, false, Option, none, some, arith,
  codes, str_eq, str_eq_iff, Bool-cases,
}
use toposcope.Base.Steps.{resume, ◌>>=◌, Ends, Meets, bind_meets, expect_meets}
use toposcope.Graph.{Snapshot}
use toposcope.Scoring.{ScoreResult}
use toposcope.Extract.Changes.{Command}
use toposcope.Cli.{Extractor, Workspace, CliError}
use toposcope.Cli.Score.{Run, go_to, go_back, obtain}

-- What is relied on. `head_of` is the ref that is checked out, a branch or a commit, and `IsOf` says which ref was
-- checked out where a snapshot was extracted. A checkout moves to its ref or stays; a file of the
-- cache is read back as it was written; nothing else moves or writes.
pub record IsGit {D W : Type 0} (w : Workspace D W) (head_of : D → Str)
    (IsOf : Str → Snapshot → Type 0) : Type 0 where
  pub checkout_moves :
      (ref : Str) (d : D) → (w.checkout ref d).0 ≡ true → head_of (w.checkout ref d).1 ≡ ref
  pub checkout_stays :
      (ref : Str) (d : D) → (w.checkout ref d).0 ≡ false → head_of (w.checkout ref d).1 ≡ head_of d
  pub extracts :
      (x : Extractor) (sha : Str) (d : D) (s : Snapshot)
      → w.extract_full x sha d ≡ some s
      → IsOf (head_of d) s
  pub saves :
      (sha other : Str) (s t : Snapshot) (d : D)
      → w.load_cached other (w.save_cached sha s d) ≡ some t
      → ((other ≡ sha) × (t ≡ s)) ⊎ (w.load_cached other d ≡ some t)
  pub branch : (d : D) (r : Str) → w.symbolic_ref d ≡ some r → head_of d ≡ r
  pub detached :
      (d : D) (r : Str)
      → w.symbolic_ref d ≡ none
      → w.rev_parse (codes "HEAD") d ≡ some r
      → head_of d ≡ r
  pub head_save : (sha : Str) (s : Snapshot) (d : D) → head_of (w.save_cached sha s d) ≡ head_of d
  pub head_score :
      (a b : Str) (r : ScoreResult W) (d : D) → head_of (w.save_score a b r d) ≡ head_of d
  pub head_render : (j : Bool) (r : ScoreResult W) (d : D) → head_of (w.render j r d).1 ≡ head_of d
  pub head_run : (dir : Str) (c : Command) (d : D) → head_of (w.tools.run dir c d).1 ≡ head_of d
  pub head_make_dir : (dir : Str) (d : D) → head_of (w.tools.make_dir dir d).1 ≡ head_of d
  pub cache_checkout : (s r : Str) (d : D) → w.load_cached s (w.checkout r d).1 ≡ w.load_cached s d
  pub cache_score :
      (s a b : Str) (r : ScoreResult W) (d : D)
      → w.load_cached s (w.save_score a b r d) ≡ w.load_cached s d
  pub cache_render :
      (s : Str) (j : Bool) (r : ScoreResult W) (d : D)
      → w.load_cached s (w.render j r d).1 ≡ w.load_cached s d
  pub cache_run :
      (s dir : Str) (c : Command) (d : D)
      → w.load_cached s (w.tools.run dir c d).1 ≡ w.load_cached s d
  pub cache_make_dir :
      (s dir : Str) (d : D) → w.load_cached s (w.tools.make_dir dir d).1 ≡ w.load_cached s d

module _ {D W : Type 0} (w : Workspace D W) (head_of : D → Str) (IsOf : Str → Snapshot → Type 0)
    (g : IsGit w head_of IsOf) where
  -- What is cached for a commit was extracted with it checked out.
  abbrev pub IsSound : D → Type 0
  IsSound d = (sha : Str) (s : Snapshot) → w.load_cached sha d ≡ some s → IsOf sha s

  pub same_cache :
      (d e : D) → ((s : Str) → w.load_cached s e ≡ w.load_cached s d) → IsSound d → IsSound e
  same_cache d e h c sha s l = c sha s (sym (h sha) ∙ l)

  saved-IsSound :
      (sha : Str) (s : Snapshot) (d : D) → IsOf sha s → IsSound d → IsSound (w.save_cached sha s d)
  saved-IsSound sha s d of c other t l = elim (g.saves sha other s t d l) [
    | inl (a, b) ↦ subst (λ x. IsOf x t) (sym a) (subst (IsOf sha) (sym b) of)
    | inr old ↦ c other t old
  ]

  module _ (orig_ref : Str) where
    -- The checkout is at the ref it started from, or a deferred call will take it there.
    abbrev pub IsRestorable : Run D → Type 0
    IsRestorable r = (head_of r.tree ≡ orig_ref) ⊎ (0 < r.deferred)

    abbrev pub IsHome : Run D → Type 0
    IsHome r = (head_of r.tree ≡ orig_ref) × IsSound r.tree

    abbrev IsAt : Str → Run D → Type 0
    IsAt sha r = (head_of r.tree ≡ sha) × IsSound r.tree × IsRestorable r

    abbrev pub HasFailed : Run D → Type 0
    HasFailed r = IsSound r.tree × IsRestorable r

    go_to-IsAt : (sha : Str) → Meets IsHome (go_to w sha orig_ref) (λ u. IsAt sha) HasFailed
    unfolding go_to ◌>>=◌ resume
    go_to-IsAt sha r (h, c) = elim (Bool-cases (str_eq sha orig_ref)) [
      | inl e ↦ rw e (h ∙ sym ((str_eq_iff sha orig_ref).0 e), c, inl h)
      | inr e ↦
          let d = r.tree in
          let c' = same_cache d (w.checkout sha d).1 (λ s. g.cache_checkout s sha d) c in
          elim (Bool-cases (w.checkout sha d).0) [
            | inl good ↦ rw (e, good) (g.checkout_moves sha d good, c', inr (omega arith))
            | inr bad ↦ rw (e, bad) (c', inl (g.checkout_stays sha d bad ∙ h))
          ]
    ]

    go_back-IsHome : (sha : Str) → Meets (IsAt sha) (go_back w sha orig_ref) (λ u. IsHome) HasFailed
    unfolding go_back
    go_back-IsHome sha r (h, c, back) = elim (Bool-cases (str_eq sha orig_ref)) [
      | inl e ↦ rw e (h ∙ (str_eq_iff sha orig_ref).0 e, c)
      | inr e ↦
          let d = r.tree in
          let c' = same_cache d (w.checkout orig_ref d).1 (λ s. g.cache_checkout s orig_ref d) c in
          elim (Bool-cases (w.checkout orig_ref d).0) [
            | inl good ↦ rw (e, good) (g.checkout_moves orig_ref d good, c')
            | inr bad ↦
                rw (e, bad)
                  (
                    c',
                    elim back [
                      | inl home ↦ inl (g.checkout_stays orig_ref d bad ∙ home)
                      | inr more ↦ inr more
                    ],
                  )
          ]
    ]

    -- A snapshot is obtained for a commit, and the checkout is back.
    pub obtain-IsHome :
        (x : Extractor) (sha : Str) (cached : Option Snapshot)
        → ((s : Snapshot) → cached ≡ some s → IsOf sha s)
        → Meets IsHome (obtain w x orig_ref sha cached) (λ s r. IsOf sha s × IsHome r) HasFailed
    unfolding obtain
    obtain-IsHome x sha (some s) h = λ r home. (h s refl, home)
    obtain-IsHome x sha none h =
        bind_meets IsHome (λ u. IsAt sha) _ HasFailed _ _ (go_to-IsAt sha)
          (λ u.
            bind_meets (IsAt sha) (λ s r. IsOf sha s × IsAt sha r) _ HasFailed _ _
              (expect_meets (IsAt sha) (λ s r. IsOf sha s × IsAt sha r) HasFailed
                CliError.extraction (λ r. w.extract_full x sha r.tree) (λ r (a, c, back). (c, back))
                (λ r s (a, c, back) e.
                  (subst (λ y. IsOf y s) a (g.extracts x sha r.tree s e), (a, c, back))))
              (λ s.
                bind_meets (λ r. IsOf sha s × IsAt sha r) (λ v r. IsOf sha s × IsAt sha r) _
                  HasFailed _ _
                  (λ r (of, (a, c, back)). (
                    of,
                    (
                      g.head_save sha s r.tree ∙ a,
                      saved-IsSound sha s r.tree of c,
                      moved r s a back,
                    ),
                  ))
                  (λ v.
                    bind_meets (λ r. IsOf sha s × IsAt sha r) (λ z r. IsOf sha s × IsHome r) _
                      HasFailed _ _
                      (λ r (of, at).
                        with_of s of (go_back w sha orig_ref r) (go_back-IsHome sha r at))
                      (λ z r q. q))))
      where
        moved :
            (r : Run D) (s : Snapshot)
            → head_of r.tree ≡ sha
            → IsRestorable r
            → IsRestorable (record r { tree = w.save_cached sha s r.tree })
        moved r s a back = elim back [
          | inl home ↦ inl (g.head_save sha s r.tree ∙ home)
          | inr more ↦ inr more
        ]

        with_of :
            {A : Type 0} (s : Snapshot)
            → IsOf sha s
            → (p : (CliError ⊎ A) × Run D) → Ends (λ u. IsHome) HasFailed p
            → Ends (λ u r. IsOf sha s × IsHome r) HasFailed p
        with_of s of (inl e, r) h = h
        with_of s of (inr u, r) h = (of, h)
