-- ===== src/Cli/Score/Whole.antt =====
-- cmd/toposcope/score.go: the whole of runScore.
use toposcope.Base.{
  ◌≡◌, refl, sym, ◌∙◌, ap, ◌⊎◌, inl, inr, Str, Bool, true, List, [], ◌∷◌, Option, some, codes,
  str_eq, Option-cases,
}
use toposcope.Base.Steps.{or_fail, resume, ◌>>=◌, Ends, Meets, bind_meets, expect_meets, Ends-value}
use toposcope.Base.Float.{Float}
use toposcope.Base.Sort.{SortSlice}
use toposcope.Graph.{Snapshot}
use toposcope.Scoring.{ScoreResult}
use toposcope.Cli.{
  Options, ExtractionConfig, Extractor, Workspace, CliError, first_non_empty, extractor_of,
}
use toposcope.Cli.Score.{
  Plan, detect, current_ref, leave, extract_and_score, score_commits, run_score,
}
use toposcope.Cli.Score.Laws.{IsGit, IsSound}
use toposcope.Cli.Score.Still
use toposcope.Cli.Score.Still.{current_ref-head}
use toposcope.Cli.Score.Correct.{IsScoreOf, IsSettled, extract_and_score-Home, leave-IsSettled}

module _ {D W : Type 0} ⦃fl : Float W⦄ (w : Workspace D W) (head_of : D → Str)
    (IsOf : Str → Snapshot → Type 0) (g : IsGit w head_of IsOf) (sort : SortSlice) (new_id : Str)
    (h : Str) where
  abbrev IsStill : D → Type 0
  IsStill = Still.IsStill w head_of IsOf g h

  abbrev Settled : D → Type 0
  Settled = IsSettled w head_of IsOf g sort new_id h

  still-Settled : (d : D) → IsStill d → Settled d
  still-Settled d (a, c) = (c, λ go. a)

  from_cache :
      (sha : Str) (d : D) → IsStill d → (s : Snapshot) → w.load_cached sha d ≡ some s → IsOf sha s
  from_cache sha d (a, c) s e = c sha s e

  abbrev Scores : Str → Str → ScoreResult W → D → Type 0
  Scores base_sha head_sha result d =
      IsScoreOf w head_of IsOf g sort new_id base_sha head_sha result × Settled d

  planned_meets :
      (as_json : Bool) (x : Extractor) (targets : Option (List Str)) (p : Plan)
      → p.orig_ref ≡ h
      → ((s : Snapshot) → p.cached_base ≡ some s → IsOf p.base_sha s)
      → ((s : Snapshot) → p.cached_head ≡ some s → IsOf p.head_sha s)
      → Meets IsStill
          ((λ d. (or_fail CliError.working_tree (w.is_dirty d), d)) >>= λ dirty d. leave w h (
            extract_and_score w sort new_id as_json x p dirty targets
              (record { tree = d; deferred = 0 })))
          (Scores p.base_sha p.head_sha)
          Settled
  planned_meets as_json x targets p same base head =
      bind_meets IsStill (λ dirty. IsStill) (Scores p.base_sha p.head_sha) Settled _ _
        (expect_meets IsStill (λ dirty. IsStill) Settled CliError.working_tree w.is_dirty
          still-Settled (λ d dirty still e. still))
        (λ dirty d still.
          leave-IsSettled w head_of IsOf g sort new_id h
            (IsScoreOf w head_of IsOf g sort new_id p.base_sha p.head_sha) _
            (extract_and_score-Home w head_of IsOf g sort new_id h as_json x p dirty targets same
              base head (record { tree = d; deferred = 0 }) still))

  score_commits_meets :
      (as_json : Bool) (x : Extractor) (targets : Option (List Str)) (base_sha head_sha : Str)
      → Meets IsStill
          (score_commits w sort new_id as_json x targets base_sha head_sha)
          (Scores base_sha head_sha)
          Settled
  unfolding score_commits ◌>>=◌ resume
  score_commits_meets as_json x targets base_sha head_sha d still =
      elim (Option-cases (current_ref w d)) [
        | inl e ↦ rw (score_commits, e) (still-Settled d still)
        | inr (r, e) ↦
            rw
              (
                score_commits,
                e ∙ ap some (sym (current_ref-head w head_of IsOf g h d r e) ∙ still.0),
              )
              (planned_meets as_json x targets
                (record {
                  base_sha = base_sha;
                  head_sha = head_sha;
                  orig_ref = h;
                  cached_base = w.load_cached base_sha d;
                  cached_head = w.load_cached head_sha d;
                })
                refl (from_cache base_sha d still) (from_cache head_sha d still) d still)
      ]

  run_score_meets :
      (ws_root cache_dir : Str) (cfg : ExtractionConfig) (opts : Options) (d : D)
      (base_sha head_sha : Str)
      → IsStill d
      → w.rev_parse opts.base_ref d ≡ some base_sha
      → w.rev_parse opts.head_ref d ≡ some head_sha
      → Ends
          (Scores base_sha head_sha)
          Settled
          (run_score w sort new_id ws_root cache_dir cfg opts d)
  unfolding run_score ◌>>=◌ resume
  run_score_meets ws_root cache_dir cfg opts d base_sha head_sha still b c =
      rw (run_score, b, c)
        (let x = extractor_of ws_root opts cfg in
          let jar =
            first_non_empty (opts.bazel_diff_jar ∷ cfg.bazel_diff_jar ∷ w.find_jar d ∷ []) in
          let (found, d') = detect w x jar cache_dir base_sha head_sha d in
          score_commits_meets (str_eq opts.output (codes "json")) x found base_sha head_sha d'
            (Still.detect-IsStill w head_of IsOf g h x jar cache_dir base_sha head_sha d still))

  run_score_settles :
      (ws_root cache_dir : Str) (cfg : ExtractionConfig) (opts : Options) (d : D)
      → IsStill d
      → Settled (run_score w sort new_id ws_root cache_dir cfg opts d).1
  unfolding run_score ◌>>=◌ resume
  run_score_settles ws_root cache_dir cfg opts d still =
      elim (Option-cases (w.rev_parse opts.base_ref d)) [
        | inl b ↦ rw (run_score, b) (still-Settled d still)
        | inr (x, b) ↦ elim (Option-cases (w.rev_parse opts.head_ref d)) [
          | inl c ↦ rw (run_score, b, c) (still-Settled d still)
          | inr (y, c) ↦ settled x y _ (run_score_meets ws_root cache_dir cfg opts d x y still b c)
        ]
      ]
    where
      settled :
          (x y : Str) (p : (CliError ⊎ ScoreResult W) × D)
          → Ends (Scores x y) Settled p
          → Settled p.1
      settled x y (inl e, d) s = s
      settled x y (inr r, d) s = s.1

module _ {D W : Type 0} ⦃fl : Float W⦄ (w : Workspace D W) (head_of : D → Str)
    (IsOf : Str → Snapshot → Type 0) (g : IsGit w head_of IsOf) (sort : SortSlice)
    (new_id : Str) where
  -- Whatever the outcome of runScore, the error returns included, the ref that was checked out at its start is
  -- checked out at its end, and what is cached for a commit was extracted with that commit checked out. The
  -- hypotheses: the cache was so at the start, checkouts of the starting ref succeed, and git, the
  -- extractor and the files behave as `IsGit` says.
  pub run_score-restores :
      (ws_root cache_dir : Str) (cfg : ExtractionConfig) (opts : Options) (d : D)
      → IsSound w head_of IsOf g d
      → ((x : D) → (w.checkout (head_of d) x).0 ≡ true)
      → (head_of (run_score w sort new_id ws_root cache_dir cfg opts d).1 ≡ head_of d)
        × IsSound w head_of IsOf g (run_score w sort new_id ws_root cache_dir cfg opts d).1
  run_score-restores ws_root cache_dir cfg opts d sound go =
      let (c, back) =
        run_score_settles w head_of IsOf g sort new_id (head_of d) ws_root cache_dir cfg opts d
          (refl, sound) in
      (back go, c)

  -- Where the two refs name commits and runScore succeeds, its result is the score of the delta between a snapshot
  -- extracted with the base commit checked out and one extracted with the head commit checked out,
  -- although it may take either from the cache, check the commit out, or find it checked out; where
  -- the cache is sound at the start, and git, the extractor and the files behave as `IsGit` says.
  pub run_score-IsScoreOf :
      (ws_root cache_dir : Str) (cfg : ExtractionConfig) (opts : Options) (d : D)
      (base_sha head_sha : Str) (result : ScoreResult W)
      → IsSound w head_of IsOf g d
      → w.rev_parse opts.base_ref d ≡ some base_sha
      → w.rev_parse opts.head_ref d ≡ some head_sha
      → (run_score w sort new_id ws_root cache_dir cfg opts d).0 ≡ inr result
      → IsScoreOf w head_of IsOf g sort new_id base_sha head_sha result
  run_score-IsScoreOf ws_root cache_dir cfg opts d base_sha head_sha result sound b c e =
      (Ends-value _ _ _ result
        (run_score_meets w head_of IsOf g sort new_id (head_of d) ws_root cache_dir cfg opts d
          base_sha head_sha (refl, sound) b c)
        e).0
