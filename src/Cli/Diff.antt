-- ===== src/Cli/Diff.antt =====
-- cmd/toposcope/diff.go: runDiff, once the workspace and its configuration are found; its result is the delta that it
-- prints.
pub mod Laws
use toposcope.Base.{Str, List, Option, none, some, [], ◌∷◌, ◌⊎◌, inl, inr}
use toposcope.Base.Steps.{or_fail, ◌>>=◌, ◌>>◌, done, expect}
use toposcope.Graph.{Snapshot, Delta}
use toposcope.Graph.Diff.{compute_delta}
use toposcope.Extract.Changes.{detect_changes}
use toposcope.Cli.{
  Options, ExtractionConfig, Extractor, Workspace, CliError, extractor_of, runner_of, request_for,
  with_impacted,
}

module _ {D W : Type 0} (w : Workspace D W) where
  -- "Try to load cached snapshots", for the base and for the head: the same code twice.
  unfoldable pub load_or_extract : Extractor → Str → D → (CliError ⊎ Snapshot) × D
  load_or_extract x sha d = elim (w.load_cached sha d) [
    | none ↦ elim (w.extract_full x sha d) [
      | none ↦ (inl CliError.extraction, d)
      | some snap ↦ (inr snap, w.save_cached sha snap d)
    ]
    | some snap ↦ (inr snap, d)
  ]

  -- The runner has no jar; a failure is only a warning.
  unfoldable pub detect_without_jar : Extractor → Str → Str → Str → D → Option (List Str) × D
  unfolding detect_changes runner_of request_for
  detect_without_jar x cache_dir base_sha head_sha d =
      let (out, r, d') =
        detect_changes w.tools (runner_of x [] cache_dir)
          (request_for x cache_dir base_sha head_sha) d in
      (elim out [ inl e ↦ none | inr found ↦ some found.impacted_targets ], d')

  unfoldable pub diff_commits : Str → Extractor → Str → Str → Str → D → (CliError ⊎ Delta) × D
  unfolding load_or_extract detect_without_jar compute_delta with_impacted
  diff_commits new_id x cache_dir base_sha head_sha = do
    base ← load_or_extract x base_sha
    head ← load_or_extract x head_sha
    targets ← (λ d.
        let (found, d') = detect_without_jar x cache_dir base_sha head_sha d in (inr found, d'))
    done (with_impacted targets (compute_delta new_id base head))

  unfoldable pub run_diff :
      Str → Str → Str → ExtractionConfig → Options → D → (CliError ⊎ Delta) × D
  unfolding extractor_of diff_commits
  run_diff new_id ws_root cache_dir cfg opts = do
    let x = extractor_of ws_root opts cfg
    base_sha ← (λ d. (or_fail CliError.base_ref (w.rev_parse opts.base_ref d), d))
    head_sha ← (λ d. (or_fail CliError.head_ref (w.rev_parse opts.head_ref d), d))
    diff_commits new_id x cache_dir base_sha head_sha
