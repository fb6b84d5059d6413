-- ===== src/Cli/Score/Dirty.antt =====
-- cmd/toposcope/score.go: with uncommitted changes, runScore checks nothing out.
use toposcope.Base.{
  ◌≡◌, refl, ◌⊎◌, inl, inr, Str, str_eq, Bool, true, false, ◌&&◌, not, List, Option, none, some,
  arith, Bool-cases, Option-cases,
}
use toposcope.Base.Steps.{resume, ◌>>=◌, Ends, Meets, bind_meets, expect_meets}
use toposcope.Base.Float.{Float}
use toposcope.Base.Sort.{SortSlice}
use toposcope.Graph.{Snapshot}
use toposcope.Graph.Diff.{compute_delta}
use toposcope.Scoring.{ScoreResult}
use toposcope.Scoring.Engine.{score, default_metrics}
use toposcope.Cli.{Extractor, Workspace, CliError, with_impacted}
use toposcope.Cli.Score.{
  Run, Plan, is_none, needs_checkout, scored, perform, go_to, go_back, obtain, run_deferred, leave,
  score_delta, extract_and_score, current_ref, score_commits,
}

module _ {D W : Type 0} ⦃fl : Float W⦄ (w : Workspace D W) (sort : SortSlice) (new_id : Str)
    (U : D → Type 0) (saved : (sha : Str) (s : Snapshot) (d : D) → U d → U (w.save_cached sha s d))
    (kept : (a b : Str) (r : ScoreResult W) (d : D) → U d → U (w.save_score a b r d))
    (shown : (j : Bool) (r : ScoreResult W) (d : D) → U d → U (w.render j r d).1) where
  -- `U` holds, and no call is deferred.
  abbrev Quiet : Run D → Type 0
  Quiet r = U r.tree × (r.deferred ≡ 0)

  obtain-Quiet :
      (x : Extractor) (orig_ref sha : Str) (cached : Option Snapshot)
      → (is_none cached && not (str_eq sha orig_ref)) ≡ false
      → Meets Quiet (obtain w x orig_ref sha cached) (λ s. Quiet) Quiet
  unfolding obtain is_none go_to go_back
  obtain-Quiet x orig_ref sha (some s) e = λ r q. q
  obtain-Quiet x orig_ref sha none e =
      bind_meets Quiet (λ u. Quiet) (λ s. Quiet) Quiet _ _ there
        (λ u.
          bind_meets Quiet (λ s. Quiet) (λ s. Quiet) Quiet _ _
            (expect_meets Quiet (λ s. Quiet) Quiet CliError.extraction
              (λ r. w.extract_full x sha r.tree) (λ r q. q) (λ r s q e. q))
            (λ s.
              bind_meets Quiet (λ u. Quiet) (λ s. Quiet) Quiet _ _
                (λ r (u, z). (saved sha s r.tree u, z))
                (λ v. bind_meets Quiet (λ u. Quiet) (λ s. Quiet) Quiet _ _ back (λ u r q. q))))
    where
      here : str_eq sha orig_ref ≡ true
      here = ground arith

      there : Meets Quiet (go_to w sha orig_ref) (λ u. Quiet) Quiet
      there r q = rw here q

      back : Meets Quiet (go_back w sha orig_ref) (λ u. Quiet) Quiet
      back r q = rw here q

  score_delta-Quiet :
      (as_json : Bool) (p : Plan) (targets : Option (List Str)) (base head : Snapshot)
      → Meets Quiet (score_delta w sort new_id as_json p targets base head) (λ result. Quiet) Quiet
  unfolding score_delta
  score_delta-Quiet as_json p targets base head =
      bind_meets Quiet (λ result. Quiet) (λ result. Quiet) Quiet _ _
        (expect_meets Quiet (λ result. Quiet) Quiet CliError.scoring
          (λ _. scored {W = W} (
            score sort (default_metrics sort)
              (some (with_impacted targets (compute_delta new_id base head))) (some base)
              (some head)))
          (λ r q. q) (λ r result q e. q))
        (λ result.
          bind_meets Quiet (λ u. Quiet) (λ result. Quiet) Quiet _ _
            (λ r (u, z). (kept p.base_sha p.head_sha result r.tree u, z))
            (λ u.
              bind_meets Quiet (λ u. Quiet) (λ result. Quiet) Quiet _ _ (λ r q. rendered result r q)
                (λ v r q. q)))
    where
      rendered :
          (result : ScoreResult W) (r : Run D)
          → Quiet r
          → Ends (λ u. Quiet) Quiet (perform w CliError.rendering (w.render as_json result) r)
      rendered result r (u, z) = elim (Bool-cases (w.render as_json result r.tree).0) [
        | inl good ↦ rw good (shown as_json result r.tree u, z)
        | inr bad ↦ rw bad (shown as_json result r.tree u, z)
      ]

  extract_and_score-Quiet :
      (as_json : Bool) (x : Extractor) (p : Plan) (targets : Option (List Str))
      → Meets Quiet
          (extract_and_score w sort new_id as_json x p true targets)
          (λ result. Quiet)
          Quiet
  unfolding extract_and_score needs_checkout
  extract_and_score-Quiet as_json x p targets r q = elim (Bool-cases (needs_checkout p)) [
    | inl stop ↦ rw (extract_and_score, stop) q
    | inr on ↦
        rw (extract_and_score, on)
          (bind_meets Quiet (λ base. Quiet) (λ result. Quiet) Quiet _ _
            (obtain-Quiet x p.orig_ref p.base_sha p.cached_base (ground arith))
            (λ base.
              bind_meets Quiet (λ head. Quiet) (λ result. Quiet) Quiet _ _
                (obtain-Quiet x p.orig_ref p.head_sha p.cached_head (ground arith))
                (λ head. score_delta-Quiet as_json p targets base head))
            r q)
  ]

  leave-Quiet :
      {A : Type 0} (orig_ref : Str) (p : (CliError ⊎ A) × Run D)
      → Ends (λ a. Quiet) Quiet p
      → U (leave w orig_ref p).1
  unfolding leave run_deferred
  leave-Quiet orig_ref (inl e, r) (u, z) = rw z u
  leave-Quiet orig_ref (inr a, r) (u, z) = rw z u

  -- With uncommitted changes, what follows once the commits are known makes no checkout, whatever its outcome: a
  -- property of the state that saving a snapshot, saving a score and rendering one keep still holds
  -- afterwards, also if a checkout would not keep it.
  pub score_commits-dirty :
      (as_json : Bool) (x : Extractor) (targets : Option (List Str)) (base_sha head_sha : Str)
      (d : D)
      → w.is_dirty d ≡ some true
      → U d
      → U (score_commits w sort new_id as_json x targets base_sha head_sha d).1
  unfolding score_commits ◌>>=◌ resume
  score_commits-dirty as_json x targets base_sha head_sha d dirty u =
      elim (Option-cases (current_ref w d)) [
        | inl e ↦ rw (score_commits, e) u
        | inr (r, e) ↦
            rw (score_commits, e, dirty)
              (let p : Plan = record {
                base_sha = base_sha;
                head_sha = head_sha;
                orig_ref = r;
                cached_base = w.load_cached base_sha d;
                cached_head = w.load_cached head_sha d;
              } in
                leave-Quiet r
                  (extract_and_score w sort new_id as_json x p true targets
                    (record { tree = d; deferred = 0 }))
                  (extract_and_score-Quiet as_json x p targets (record { tree = d; deferred = 0 })
                    (u, refl)))
      ]
