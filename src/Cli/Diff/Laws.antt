-- ===== src/Cli/Diff/Laws.antt =====
-- cmd/toposcope/diff.go: which snapshots runDiff compares.
use toposcope.Base.{
  ◌≡◌, refl, sym, ◌∙◌, subst, ◌⊎◌, inl, inr, Str, List, Option, some, Option-cases,
}
use toposcope.Base.Steps.{resume, ◌>>=◌, Ends, Meets, bind_meets, Ends-value}
use toposcope.Graph.{Snapshot, Delta}
use toposcope.Graph.Diff.{compute_delta}
use toposcope.Cli.{
  Options, ExtractionConfig, Extractor, Workspace, CliError, extractor_of, with_impacted,
}
use toposcope.Cli.Score.Laws.{IsGit}
use toposcope.Cli.Diff.{load_or_extract, diff_commits, run_diff}

module _ {D W : Type 0} (w : Workspace D W) (head_of : D → Str) (IsOf : Str → Snapshot → Type 0)
    (g : IsGit w head_of IsOf) (d : D) where
  -- The snapshot that was cached for the commit, or one of whatever ref was checked out.
  abbrev pub IsTaken : Str → Snapshot → Type 0
  IsTaken sha s = (w.load_cached sha d ≡ some s) ⊎ IsOf (head_of d) s

  -- The delta between two such snapshots.
  abbrev pub IsDiff : Str → Str → Str → Delta → Type 0
  IsDiff new_id base_sha head_sha delta =
      (targets : Option (List Str)) × (base : Snapshot) × (head : Snapshot) × IsTaken base_sha base
      × IsTaken head_sha head
      × (delta ≡ with_impacted targets (compute_delta new_id base head))

  -- What is cached now is such a snapshot.
  abbrev pub IsWithin : D → Type 0
  IsWithin e =
      (head_of e ≡ head_of d)
      × ((sha : Str) (s : Snapshot) → w.load_cached sha e ≡ some s → IsTaken sha s)

  extracted-IsWithin :
      (sha : Str) (s : Snapshot) (e : D)
      → IsOf (head_of d) s
      → IsWithin e
      → IsWithin (w.save_cached sha s e)
  extracted-IsWithin sha s e of (same, cached) = (
    g.head_save sha s e ∙ same,
    λ other t l. elim (g.saves sha other s t e l) [
      | inl (a, b) ↦ inr (subst (IsOf (head_of d)) (sym b) of)
      | inr old ↦ cached other t old
    ],
  )

  load_or_extract-IsWithin :
      (x : Extractor) (sha : Str)
      → Meets IsWithin (load_or_extract w x sha) (λ s e. IsTaken sha s × IsWithin e) IsWithin
  unfolding load_or_extract
  load_or_extract-IsWithin x sha e within = elim (Option-cases (w.load_cached sha e)) [
    | inr (s, hit) ↦ rw (load_or_extract, hit) (within.1 sha s hit, within)
    | inl miss ↦ elim (Option-cases (w.extract_full x sha e)) [
      | inl failed ↦ rw (load_or_extract, miss, failed) within
      | inr (s, got) ↦
          let of = subst (λ r. IsOf r s) within.0 (g.extracts x sha e s got) in
          rw (load_or_extract, miss, got) (inr of, extracted-IsWithin sha s e of within)
    ]
  ]

  diff_commits-IsDiff :
      (new_id : Str) (x : Extractor) (cache_dir base_sha head_sha : Str)
      → Meets IsWithin
          (diff_commits w new_id x cache_dir base_sha head_sha)
          (λ delta e. IsDiff new_id base_sha head_sha delta)
          (λ e. Unit)
  unfolding diff_commits ◌>>=◌
  diff_commits-IsDiff new_id x cache_dir base_sha head_sha =
      bind_meets IsWithin (λ base e. IsTaken base_sha base × IsWithin e) _ (λ e. Unit) _ _
        (weaken base_sha)
        (λ base e (at_base, within).
          bind_meets IsWithin (λ head e. IsTaken head_sha head × Unit {0})
            (λ delta e. IsDiff new_id base_sha head_sha delta) (λ e. Unit) _ _
            (λ e i. drop_state head_sha _ (weaken head_sha e i))
            (λ head e (at_head, u). (_, base, head, at_base, at_head, refl)) e within)
    where
      drop_state :
          (sha : Str) (p : (CliError ⊎ Snapshot) × D)
          → Ends (λ s e. IsTaken sha s × IsWithin e) (λ e. Unit) p
          → Ends (λ s e. IsTaken sha s × Unit {0}) (λ e. Unit) p
      drop_state sha (inl e, f) u = tt
      drop_state sha (inr s, f) (t, i) = (t, tt)

      weaken :
          (sha : Str)
          → Meets IsWithin (load_or_extract w x sha) (λ s e. IsTaken sha s × IsWithin e) (λ e. Unit)
      weaken sha e i = at _ (load_or_extract-IsWithin x sha e i)
        where
          at :
              (p : (CliError ⊎ Snapshot) × D)
              → Ends (λ s e. IsTaken sha s × IsWithin e) IsWithin p
              → Ends (λ s e. IsTaken sha s × IsWithin e) (λ e. Unit) p
          at (inl e, f) h = tt
          at (inr s, f) h = h

  -- Where the two refs name commits and runDiff succeeds, it prints the delta between two snapshots, each either the
  -- one that was cached for its commit or one extracted with the ref checked out that was checked out
  -- when it started: there is no checkout. Git, the extractor and the files behave as `IsGit` says.
  pub run_diff-IsDiff :
      (new_id ws_root cache_dir : Str) (cfg : ExtractionConfig) (opts : Options)
      (base_sha head_sha : Str) (delta : Delta)
      → w.rev_parse opts.base_ref d ≡ some base_sha
      → w.rev_parse opts.head_ref d ≡ some head_sha
      → (run_diff w new_id ws_root cache_dir cfg opts d).0 ≡ inr delta
      → IsDiff new_id base_sha head_sha delta
  unfolding run_diff ◌>>=◌ resume
  run_diff-IsDiff new_id ws_root cache_dir cfg opts base_sha head_sha delta b h e =
      Ends-value (λ delta e. IsDiff new_id base_sha head_sha delta) (λ e. Unit)
        (diff_commits w new_id (extractor_of ws_root opts cfg) cache_dir base_sha head_sha d) delta
        (diff_commits-IsDiff new_id (extractor_of ws_root opts cfg) cache_dir base_sha head_sha d
          (refl, λ sha s l. inl l))
        (rw (run_diff, b, h) at e)
