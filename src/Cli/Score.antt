-- ===== src/Cli/Score.antt =====
-- cmd/toposcope/score.go: runScore, once the workspace and its configuration are found. The deferred calls
-- that restore the checkout are counted in the state.
pub mod Laws
pub mod Still
pub mod Correct
pub mod Whole
pub mod Dirty
use toposcope.Base.{
  ℕ, zero, suc, ◌+◌, Str, Bool, true, false, ◌&&◌, ◌||◌, not, List, [], ◌∷◌, Option, none, some,
  ◌⊎◌, inl, inr, codes, is_empty, str_eq, if◌then◌else◌,
}
use toposcope.Base.Steps.{or_fail, ◌>>=◌, ◌>>◌, done, expect, exec}
use toposcope.Base.Float.{Float}
use toposcope.Base.Sort.{SortSlice}
use toposcope.Graph.{Snapshot, Delta}
use toposcope.Graph.Diff.{compute_delta}
use toposcope.Scoring.{ScoreResult}
use toposcope.Scoring.Engine.{Result, ok, err, score, default_metrics}
use toposcope.Extract.Changes.{detect_changes}
use toposcope.Cli.{
  Options, ExtractionConfig, Extractor, Workspace, CliError, first_non_empty, extractor_of,
  runner_of, request_for, with_impacted,
}

-- The state, and how many calls are deferred.
pub record Run (D : Type 0) : Type 0 where
  pub tree : D
  pub deferred : ℕ

abbrev pub C : Type 0 → Type 0 → Type 0
C D A = Run D → (CliError ⊎ A) × Run D

-- Both commits, the ref to return to, and what the caches have.
pub record Plan : Type 0 where
  pub base_sha : Str
  pub head_sha : Str
  pub orig_ref : Str
  pub cached_base : Option Snapshot
  pub cached_head : Option Snapshot

unfoldable pub is_none : {A : Type 0} → Option A → Bool
is_none none = true
is_none (some a) = false

unfoldable pub needs_checkout : Plan → Bool
unfolding is_none str_eq
needs_checkout p =
    (is_none p.cached_base && not (str_eq p.base_sha p.orig_ref))
    || (is_none p.cached_head && not (str_eq p.head_sha p.orig_ref))

unfoldable pub scored : {W : Type 0} → Result (ScoreResult W) → Option (ScoreResult W)
scored (ok r) = some r
scored (err e) = none

module _ {D W : Type 0} (w : Workspace D W) where
  abbrev pub ask : {A : Type 0} → CliError → (D → Option A) → C D A
  ask e o r = (or_fail e (o r.tree), r)

  abbrev pub perform : CliError → (D → Bool × D) → C D (Unit {0})
  perform e f r = let (b, d) = f r.tree in (if b then inr tt else inl e, record r { tree = d })

  abbrev pub write : (D → D) → C D (Unit {0})
  write f r = (inr tt, record r { tree = f r.tree })

  abbrev pub defer : C D (Unit {0})
  defer r = (inr tt, record r { deferred = r.deferred + 1 })

  -- Where a jar is configured or found; a failure is only a warning.
  unfoldable pub detect : Extractor → Str → Str → Str → Str → D → Option (List Str) × D
  unfolding is_empty detect_changes runner_of request_for
  detect x jar cache_dir base_sha head_sha d =
      if is_empty jar
      then (none, d)
      else (let (out, r, d') =
            detect_changes w.tools (runner_of x jar cache_dir)
              (request_for x cache_dir base_sha head_sha) d in
          (elim out [ inl e ↦ none | inr found ↦ some found.impacted_targets ], d'))

  -- git symbolic-ref, or git rev-parse HEAD
  unfoldable pub current_ref : D → Option Str
  current_ref d = elim (w.symbolic_ref d) [
    | none ↦ w.rev_parse (codes "HEAD") d
    | some ref ↦ some ref
  ]

  unfoldable pub go_to : Str → Str → C D (Unit {0})
  unfolding str_eq
  go_to sha orig_ref r =
      if str_eq sha orig_ref
      then done tt r
      else (perform CliError.checkout (w.checkout sha) >> defer) r

  unfoldable pub go_back : Str → Str → C D (Unit {0})
  unfolding str_eq
  go_back sha orig_ref r =
      if str_eq sha orig_ref then done tt r else perform CliError.restore (w.checkout orig_ref) r

  -- "Extract base snapshot", and "Extract head snapshot": the same code twice.
  unfoldable pub obtain : Extractor → Str → Str → Option Snapshot → C D Snapshot
  unfolding go_to go_back
  obtain x orig_ref sha (some snap) = done snap
  obtain x orig_ref sha none = do
    go_to sha orig_ref
    snap ← ask CliError.extraction (w.extract_full x sha)
    write (w.save_cached sha snap)
    go_back sha orig_ref
    done snap

  unfoldable pub run_deferred : Str → ℕ → D → D
  run_deferred orig_ref zero d = d
  run_deferred orig_ref (suc n) d = run_deferred orig_ref n (w.checkout orig_ref d).1

  -- The end of runScore: what was deferred is done, whatever the outcome.
  unfoldable pub leave : {A : Type 0} → Str → (CliError ⊎ A) × Run D → (CliError ⊎ A) × D
  unfolding run_deferred
  leave orig_ref (out, r) = (out, run_deferred orig_ref r.deferred r.tree)

  module _ ⦃fl : Float W⦄ (sort : SortSlice) (new_id : Str) where
    -- Steps 3 and 4.
    unfoldable pub score_delta :
        Bool → Plan → Option (List Str) → Snapshot → Snapshot → C D (ScoreResult W)
    unfolding compute_delta with_impacted score default_metrics scored
    score_delta as_json p targets base head = do
      let delta = with_impacted targets (compute_delta new_id base head)
      result ←
          expect CliError.scoring
            (scored (score sort (default_metrics sort) (some delta) (some base) (some head)))
      write (w.save_score p.base_sha p.head_sha result)
      perform CliError.rendering (w.render as_json result)
      done result

    -- Step 2, with the check of the working tree before it.
    unfoldable pub extract_and_score :
        Bool → Extractor → Plan → Bool → Option (List Str) → C D (ScoreResult W)
    unfolding needs_checkout obtain score_delta
    extract_and_score as_json x p dirty targets r =
        if needs_checkout p && dirty
        then (inl CliError.uncommitted_changes, r)
        else (obtain x p.orig_ref p.base_sha p.cached_base >>= λ base.
              obtain x p.orig_ref p.head_sha p.cached_head >>= λ head.
              score_delta as_json p targets base head)
            r

    -- What follows once the commits are known.
    unfoldable pub score_commits :
        Bool → Extractor → Option (List Str) → Str → Str → D → (CliError ⊎ ScoreResult W) × D
    unfolding current_ref extract_and_score leave
    score_commits as_json x targets base_sha head_sha = do
      plan ← (λ d. (or_fail CliError.current_head (current_ref d), d)) >>= λ orig_ref d. (
        inr (record {
          base_sha = base_sha;
          head_sha = head_sha;
          orig_ref = orig_ref;
          cached_base = w.load_cached base_sha d;
          cached_head = w.load_cached head_sha d;
        }),
        d,
      )
      dirty ← (λ d. (or_fail CliError.working_tree (w.is_dirty d), d))
      (λ d.
          leave plan.orig_ref
            (extract_and_score as_json x plan dirty targets (record { tree = d; deferred = 0 })))

    -- runScore
    unfoldable pub run_score :
        Str → Str → ExtractionConfig → Options → D → (CliError ⊎ ScoreResult W) × D
    unfolding extractor_of first_non_empty detect score_commits str_eq
    run_score ws_root cache_dir cfg opts = do
      let x = extractor_of ws_root opts cfg
      jar ← (λ d.
          (inr (first_non_empty (opts.bazel_diff_jar ∷ cfg.bazel_diff_jar ∷ w.find_jar d ∷ [])), d))
      base_sha ← (λ d. (or_fail CliError.base_ref (w.rev_parse opts.base_ref d), d))
      head_sha ← (λ d. (or_fail CliError.head_ref (w.rev_parse opts.head_ref d), d))
      targets ←
          (λ d. let (found, d') = detect x jar cache_dir base_sha head_sha d in (inr found, d'))
      score_commits (str_eq opts.output (codes "json")) x targets base_sha head_sha
