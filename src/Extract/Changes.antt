-- ===== src/Extract/Changes.antt =====
-- pkg/extract/bazeldiff/bazeldiff.go: the detection of impacted targets. The file system, the running of a
-- command and strings.TrimSpace are one interface, `Tools`, on a state of any type.
pub mod Laws
use toposcope.Base.{
  ℕ, ◌==◌, Str, Bool, true, false, not, ◌&&◌, List, [], ◌∷◌, ◌++◌, Option, none, some, ◌⊎◌, inl,
  inr, codes, has_prefix, is_empty, filter, map, if◌then◌else◌,
}
use toposcope.Base.Steps.{◌>>=◌, ◌>>◌, done, call, exec}

pub record Runner : Type 0 where
  pub bazel_diff_jar_path : Str
  pub workspace_path : Str
  pub bazel_path : Str
  pub bazel_rc : Str
  pub use_cquery : Bool
  pub cache_dir : Str

-- The fields of ChangeDetectionRequest that are read.
pub record ChangeDetectionRequest : Type 0 where
  pub base_sha : Str
  pub head_sha : Str
  pub bazel_path : Str
  pub cache_dir : Str

pub record ChangeDetectionResult : Type 0 where
  pub impacted_targets : List Str
  pub base_hash_file : Str
  pub head_hash_file : Str

pub data ChangeError : Type 0 where
  create_cache_dir run_generate_hashes run_impacted_targets : ChangeError

-- exec.Cmd: the program and its arguments.
pub record Command : Type 0 where
  pub program : Str
  pub args : List Str

pub record Tools (D : Type 0) : Type 0 where
  -- filepath.Join of two elements
  pub join : Str → Str → Str
  pub exists : Str → D → Bool
  pub make_dir : Str → D → Bool × D
  -- a command in a directory gives its output
  pub run : Str → Command → D → Option Str × D
  pub trim_space : Str → Str

unfoldable pub or_bazelisk : Str → Str
unfolding is_empty
or_bazelisk bazel = if is_empty bazel then codes "bazelisk" else bazel

unfoldable pub build_command : Runner → Str → List Str → Command
unfolding is_empty or_bazelisk
build_command r subcommand extra_args =
    if is_empty r.bazel_diff_jar_path
    then record {
      program = or_bazelisk r.bazel_path;
      args = codes "run" ∷ codes "@bazel_diff//:bazel-diff" ∷ codes "--" ∷ subcommand ∷ extra_args;
    }
    else record {
      program = codes "java";
      args = codes "-jar" ∷ r.bazel_diff_jar_path ∷ subcommand ∷ extra_args;
    }

unfoldable pub build_generate_hashes_args : Runner → Str → List Str
unfolding is_empty or_bazelisk
build_generate_hashes_args r output_file =
    (codes "-w" ∷ r.workspace_path ∷ codes "--excludeExternalTargets" ∷ [])
    ++ (codes "-b" ∷ or_bazelisk r.bazel_path ∷ [])
    ++ (if is_empty r.bazel_rc
        then codes "-so" ∷ codes "--nohome_rc" ∷ []
        else codes "-so"
          ∷ codes "--nohome_rc"
          ∷ codes "-so"
          ∷ (codes "--bazelrc=" ++ r.bazel_rc)
          ∷ [])
    ++ (if r.use_cquery then codes "--useCquery" ∷ [] else [])
    ++ (codes "-o" ∷ output_file ∷ [])

-- strings.Split at a one-byte separator
unfoldable pub on_first : ℕ → List Str → List Str
on_first c [] = (c ∷ []) ∷ []
on_first c (s ∷ ss) = (c ∷ s) ∷ ss

unfoldable pub split : ℕ → Str → List Str
unfolding on_first
split sep [] = [] ∷ []
split sep (c ∷ s) = if c == sep then [] ∷ split sep s else on_first c (split sep s)

abbrev pub external_target_prefixes : List Str
external_target_prefixes = codes "@pip" ∷ codes "@maven" ∷ codes "@com_" ∷ codes "." ∷ []

unfoldable pub should_keep : List Str → Str → Bool
unfolding has_prefix
should_keep [] target = true
should_keep (prefix ∷ prefixes) target =
    if has_prefix target prefix then false else should_keep prefixes target

unfoldable pub filter_targets : List Str → List Str
unfolding should_keep
filter_targets targets = filter (should_keep external_target_prefixes) targets

module _ {D : Type 0} (t : Tools D) where
  unfoldable pub parse_target_list : Str → List Str
  unfolding split is_empty
  parse_target_list output =
      filter (λ line. not (is_empty line)) (map t.trim_space (split b'\n' output))

  unfoldable pub hash_file : Runner → Str → Str
  hash_file r commit_sha = t.join r.cache_dir (commit_sha ++ codes ".json")

  unfoldable pub generate_hashes : Runner → Str → D → (ChangeError ⊎ Str) × D
  unfolding hash_file build_command build_generate_hashes_args
  generate_hashes r commit_sha d =
      let file = hash_file r commit_sha in
      let command = build_command r (codes "generate-hashes") (build_generate_hashes_args r file) in
      if t.exists file d
      then (inr file, d)
      else (exec ChangeError.create_cache_dir (t.make_dir r.cache_dir) >>= λ _.
            call ChangeError.run_generate_hashes (t.run r.workspace_path command) >>= λ output.
            done file)
          d

  unfoldable pub get_impacted_targets : Runner → Str → Str → D → (ChangeError ⊎ List Str) × D
  unfolding build_command filter_targets parse_target_list
  get_impacted_targets r base head = do
    output ← call ChangeError.run_impacted_targets (
        t.run r.workspace_path (
          build_command r (codes "get-impacted-targets")
            (codes "-sh" ∷ base ∷ codes "-fh" ∷ head ∷ [])))
    done (filter_targets (parse_target_list output))

  -- The steps of DetectChanges, once the runner is chosen.
  unfoldable pub detect_with :
      Runner → ChangeDetectionRequest → D → (ChangeError ⊎ ChangeDetectionResult) × D
  unfolding generate_hashes get_impacted_targets
  detect_with r req = do
    base ← generate_hashes r req.base_sha
    head ← generate_hashes r req.head_sha
    targets ← get_impacted_targets r base head
    done (record { impacted_targets = targets; base_hash_file = base; head_hash_file = head })

  -- A copy with the bazel path of the request, or the receiver itself; then its cache directory is
  -- written. The runner of the result is the receiver after the call.
  unfoldable pub with_cache_dir : Str → Runner → Runner
  unfolding is_empty
  with_cache_dir dir r = if is_empty dir then r else record r { cache_dir = dir }

  unfoldable pub detect_changes :
      Runner → ChangeDetectionRequest → D → (ChangeError ⊎ ChangeDetectionResult) × Runner × D
  unfolding detect_with with_cache_dir is_empty
  detect_changes r req d =
      if is_empty req.bazel_path
      then (let own = with_cache_dir req.cache_dir r in
          let (out, d') = detect_with own req d in (out, own, d'))
      else (let copy = with_cache_dir req.cache_dir (record r { bazel_path = req.bazel_path }) in
          let (out, d') = detect_with copy req d in (out, r, d'))
