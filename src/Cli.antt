-- ===== src/Cli.antt =====
-- cmd/toposcope: the commands that extract, compare and score. Git, the extractor, the caches on disk and the
-- renderer are one interface, `Workspace`, on a state `D` of any type; what goes to standard error
-- is left out.
pub mod Score
pub mod Diff
use toposcope.Base.{
  ℕ, Str, Bool, true, false, ◌&&◌, ◌||◌, not, List, [], ◌∷◌, Option, none, some, codes, is_empty,
  length, if◌then◌else◌,
}
use toposcope.Graph.{Snapshot, Delta}
use toposcope.Scoring.{ScoreResult}
use toposcope.Extract.Changes.{
  Tools, Runner, ChangeDetectionRequest, ChangeDetectionResult, detect_changes,
}

-- scoreOpts; the options of the other commands are among these.
pub record Options : Type 0 where
  pub base_ref : Str
  pub head_ref : Str
  pub bazel_path : Str
  pub bazel_rc : Str
  pub use_cquery : Bool
  pub bazel_diff_jar : Str
  pub output : Str

-- config.ExtractionConfig, without the timeout.
pub record ExtractionConfig : Type 0 where
  pub bazel_path : Str
  pub bazel_rc : Str
  pub use_cquery : Bool
  pub bazel_diff_jar : Str

-- subgraph.Extractor
pub record Extractor : Type 0 where
  pub workspace_path : Str
  pub bazel_path : Str
  pub bazel_rc : Str
  pub use_cquery : Bool

-- `none` and `false` are errors.
pub record Workspace (D W : Type 0) : Type 0 where
  -- git rev-parse, git symbolic-ref --short HEAD, and whether git status --porcelain prints anything
  pub rev_parse : Str → D → Option Str
  pub symbolic_ref : D → Option Str
  pub is_dirty : D → Option Bool
  pub checkout : Str → D → Bool × D
  -- ExtractFull, for the commit that it is told
  pub extract_full : Extractor → Str → D → Option Snapshot
  -- the file of a commit in config.SnapshotDir
  pub load_cached : Str → D → Option Snapshot
  pub save_cached : Str → Snapshot → D → D
  pub find_jar : D → Str
  pub save_score : Str → Str → ScoreResult W → D → D
  -- printing the result
  pub render : Bool → ScoreResult W → D → Bool × D
  pub tools : Tools D

pub data CliError : Type 0 where
  base_ref head_ref current_head working_tree uncommitted_changes checkout extraction restore
        scoring rendering :
      CliError

-- firstNonEmpty
unfoldable pub first_non_empty : List Str → Str
unfolding is_empty
first_non_empty [] = []
first_non_empty (v ∷ vals) = if is_empty v then first_non_empty vals else v

unfoldable pub extractor_of : Str → Options → ExtractionConfig → Extractor
unfolding first_non_empty
extractor_of ws_root opts cfg = record {
  workspace_path = ws_root;
  bazel_path = first_non_empty (opts.bazel_path ∷ cfg.bazel_path ∷ codes "bazelisk" ∷ []);
  bazel_rc = first_non_empty (opts.bazel_rc ∷ cfg.bazel_rc ∷ []);
  use_cquery = opts.use_cquery || cfg.use_cquery;
}

-- The runner of bazel-diff, and the request that it is given.
unfoldable pub runner_of : Extractor → Str → Str → Runner
runner_of x jar cache_dir = record {
  bazel_diff_jar_path = jar;
  workspace_path = x.workspace_path;
  bazel_path = x.bazel_path;
  bazel_rc = x.bazel_rc;
  use_cquery = x.use_cquery;
  cache_dir = cache_dir;
}

unfoldable pub request_for : Extractor → Str → Str → Str → ChangeDetectionRequest
request_for x cache_dir base_sha head_sha = record {
  base_sha = base_sha;
  head_sha = head_sha;
  bazel_path = x.bazel_path;
  cache_dir = cache_dir;
}

-- The impacted targets, where there are any to add.
unfoldable pub with_impacted : Option (List Str) → Delta → Delta
with_impacted none delta = delta
with_impacted (some targets) delta = record delta {
  impacted_targets = targets;
  stats = record (delta.stats) { impacted_target_count = length targets };
}
