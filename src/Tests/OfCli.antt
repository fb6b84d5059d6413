-- ===== src/Tests/OfCli.antt =====
-- cmd/toposcope on a working tree that is a ref and a cache: what is extracted is a snapshot of the ref.
use toposcope.Base.{
  ◌≡◌, refl, ◌⊎◌, inl, inr, Str, true, false, [], Option, none, some, arith, codes, str_eq,
  str_eq_iff, Bool-cases, if◌then◌else◌,
}
use toposcope.Base.Int.{ℤ, pos}
use toposcope.Base.Tenths.{tenths_float}
use toposcope.Base.Sort.{by_insertion}
use toposcope.Base.Steps.{◌>>=◌}
use toposcope.Graph.{Snapshot}
use toposcope.Scoring.{Grade, ScoreResult}
use toposcope.Extract.Changes.{Tools}
use toposcope.Cli.{Options, ExtractionConfig, Extractor, Workspace, CliError}
use toposcope.Graph.{Delta}
use toposcope.Cli.Diff.{run_diff}
use toposcope.Cli.Diff.Laws.{IsDiff, run_diff-IsDiff}
use toposcope.Cli.Score.{run_score, score_commits}
use toposcope.Cli.Score.Dirty.{score_commits-dirty}
use toposcope.Cli.Score.Laws.{IsGit, IsSound}
use toposcope.Cli.Score.Correct.{IsScoreOf}
use toposcope.Cli.Score.Whole.{run_score-restores, run_score-IsScoreOf}
use toposcope.Tests.Samples.{base, head, change}

abbrev Tree : Type 0
Tree = Str × (Str → Option Snapshot)

abbrev idle : Tools Tree
idle = record {
  join = λ a b. a;
  exists = λ f d. false;
  make_dir = λ dir d. (true, d);
  run = λ dir c d. (none, d);
  trim_space = λ s. s;
}

-- The snapshot of a ref.
abbrev at_ref : Str → Snapshot
at_ref sha = if str_eq sha (codes "b1") then base else record head { commit_sha = sha }

abbrev tree : Workspace Tree ℤ
tree = record {
  rev_parse = λ r d. some (if str_eq r (codes "HEAD") then d.0 else r);
  symbolic_ref = λ d. none;
  is_dirty = λ d. some false;
  checkout = λ r d. (true, (r, d.1));
  extract_full = λ x sha d. some (at_ref d.0);
  load_cached = λ sha d. d.1 sha;
  save_cached = λ sha s d. (d.0, λ o. if str_eq o sha then some s else d.1 o);
  find_jar = λ d. codes "/jar";
  save_score = λ a b r d. d;
  render = λ j r d. (true, d);
  tools = idle;
}

abbrev IsOf : Str → Snapshot → Type 0
IsOf sha s = s ≡ at_ref sha

tree-saves :
    (sha other : Str) (s t : Snapshot) (d : Tree)
    → tree.load_cached other (tree.save_cached sha s d) ≡ some t
    → ((other ≡ sha) × (t ≡ s)) ⊎ (tree.load_cached other d ≡ some t)
tree-saves sha other s t d e = elim (Bool-cases (str_eq other sha)) [
  | inl same ↦
      inl ((str_eq_iff other sha).0 same, (let it : some s ≡ some t = rw same at e in ground arith))
  | inr other_one ↦ inr (rw other_one at e)
]

tree-IsGit : IsGit tree (λ d. d.0) IsOf
unfolding str_eq
tree-IsGit = record {
  checkout_moves = λ ref d e. refl;
  checkout_stays = λ ref d e. absurd (cc);
  extracts = λ x sha d s e. ground arith;
  saves = tree-saves;
  branch = λ d r e. absurd (cc);
  detached = λ d r e f. (let it : some d.0 ≡ some r = f in ground arith);
  head_save = λ sha s d. refl;
  head_score = λ a b r d. refl;
  head_render = λ j r d. refl;
  head_run = λ dir c d. refl;
  head_make_dir = λ dir d. refl;
  cache_checkout = λ s r d. refl;
  cache_score = λ s a b r d. refl;
  cache_render = λ s j r d. refl;
  cache_run = λ s dir c d. refl;
  cache_make_dir = λ s dir d. refl;
}

-- On the head, with nothing cached.
abbrev fresh : Tree
fresh = (codes "h1", λ sha. none)

fresh-IsSound : IsSound tree (λ d. d.0) IsOf tree-IsGit fresh
fresh-IsSound sha s e = absurd (cc)

abbrev no_config : ExtractionConfig
no_config = record { bazel_path = []; bazel_rc = []; use_cquery = false; bazel_diff_jar = [] }

abbrev b1_h1 : Options
b1_h1 = record {
  base_ref = codes "b1";
  head_ref = codes "HEAD";
  bazel_path = [];
  bazel_rc = [];
  use_cquery = false;
  bazel_diff_jar = [];
  output = codes "json";
}

abbrev scored_run : (CliError ⊎ ScoreResult ℤ) × Tree
scored_run =
    run_score tree by_insertion (codes "id") (codes "/w") (codes "/c") no_config b1_h1 fresh

run_score-restores_example :
    (scored_run.1.0 ≡ codes "h1") × IsSound tree (λ d. d.0) IsOf tree-IsGit scored_run.1
run_score-restores_example =
    run_score-restores tree (λ d. d.0) IsOf tree-IsGit by_insertion (codes "id") (codes "/w")
      (codes "/c") no_config b1_h1 fresh fresh-IsSound (λ x. refl)

abbrev nothing : ScoreResult ℤ
nothing = record {
  total_score = pos 0;
  grade = Grade.f;
  breakdown = [];
  hotspots = [];
  suggested_actions = [];
  delta_stats = record {
    impacted_targets = 0;
    added_nodes = 0;
    removed_nodes = 0;
    added_edges = 0;
    removed_edges = 0;
  };
  base_commit = [];
  head_commit = [];
}

-- What the run gives, or else nothing.
abbrev its_result : ScoreResult ℤ
its_result = elim scored_run.0 [ inl e ↦ nothing | inr r ↦ r ]

run_score-IsScoreOf_example :
    IsScoreOf tree
      (λ d. d.0)
      IsOf
      tree-IsGit
      by_insertion
      (codes "id")
      (codes "b1")
      (codes "h1")
      its_result
unfolding run_score ◌>>=◌
run_score-IsScoreOf_example =
    run_score-IsScoreOf tree (λ d. d.0) IsOf tree-IsGit by_insertion (codes "id") (codes "/w")
      (codes "/c") no_config b1_h1 fresh (codes "b1") (codes "h1") its_result fresh-IsSound refl
      refl refl

abbrev diff_run : (CliError ⊎ Delta) × Tree
diff_run = run_diff tree (codes "id") (codes "/w") (codes "/c") no_config b1_h1 fresh

abbrev no_delta : Delta
no_delta = change

abbrev its_delta : Delta
its_delta = elim diff_run.0 [ inl e ↦ no_delta | inr delta ↦ delta ]

run_diff-IsDiff_example :
    IsDiff tree (λ d. d.0) IsOf tree-IsGit fresh (codes "id") (codes "b1") (codes "h1") its_delta
unfolding run_diff ◌>>=◌ str_eq
run_diff-IsDiff_example =
    run_diff-IsDiff tree (λ d. d.0) IsOf tree-IsGit fresh (codes "id") (codes "/w") (codes "/c")
      no_config b1_h1 (codes "b1") (codes "h1") its_delta refl refl refl

-- Of two commits whose snapshots differ, nothing cached, it finds no node added.
no_node_added : its_delta.added_nodes ≡ []
unfolding run_diff ◌>>=◌ str_eq
no_node_added = refl

-- Uncommitted changes on the head, with the base cached.
abbrev dirty_tree : Workspace Tree ℤ
dirty_tree = record tree { is_dirty = λ d. some true }

abbrev base_cached : Tree
base_cached = (codes "h1", λ sha. if str_eq sha (codes "b1") then some base else none)

abbrev tool : Extractor
tool = record { workspace_path = codes "/w"; bazel_path = []; bazel_rc = []; use_cquery = false }

score_commits-dirty_example :
    (score_commits dirty_tree by_insertion
      (codes "id")
      true
      tool
      none
      (codes "b1")
      (codes "h1")
      base_cached).1.0
    ≡ codes "h1"
score_commits-dirty_example =
    score_commits-dirty dirty_tree by_insertion (codes "id") (λ d. d.0 ≡ codes "h1")
      (λ sha s d h. h) (λ a b r d h. h) (λ j r d h. h) true tool none (codes "b1") (codes "h1")
      base_cached refl refl

-- It scores: the head is extracted where it stands.
dirty_head_cached :
    (score_commits dirty_tree by_insertion
        (codes "id")
        true
        tool
        none
        (codes "b1")
        (codes "h1")
        base_cached).1.1
      (codes "h1")
    ≡ some (at_ref (codes "h1"))
unfolding score_commits ◌>>=◌ str_eq
dirty_head_cached = refl
