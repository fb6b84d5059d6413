-- ===== src/Tests/OfChanges.antt =====
-- pkg/extract/bazeldiff/bazeldiff.go on a disk that is the list of its files.
use toposcope.Base.{
  ◌≡◌, refl, true, false, List, [], ◌∷◌, ◌++◌, some, inl, inr, Str, In, codes, contains,
  contains_iff, str_eq,
}
use toposcope.Extract.Changes.{
  Runner, ChangeDetectionRequest, ChangeDetectionResult, Tools, generate_hashes, hash_file,
  build_command, build_generate_hashes_args, detect_with, detect_changes,
}
use toposcope.Extract.Changes.Laws.{IsKeeping, IsWanted, detect_with_lem}
use toposcope.Base.Steps.{◌>>=◌}

abbrev last_of : List Str → Str
last_of [] = []
last_of (x ∷ []) = x
last_of (x ∷ y ∷ xs) = last_of (y ∷ xs)

-- A command writes the file that its last argument names.
abbrev disk : Tools (List Str)
disk = record {
  join = λ a b. a ++ b'/' ∷ b;
  exists = contains;
  make_dir = λ dir d. (true, d);
  run = λ dir c d. (some (codes "//a:a" ++ b'\n' ∷ codes "@pip//b"), last_of c.args ∷ d);
  trim_space = λ s. s;
}

abbrev runner : Runner
runner = record {
  bazel_diff_jar_path = [];
  workspace_path = codes "/w";
  bazel_path = [];
  bazel_rc = [];
  use_cquery = false;
  cache_dir = codes "/c";
}

stays : (f g : Str) (d : List Str) → contains f d ≡ true → contains f (g ∷ d) ≡ true
stays f g d h = (contains_iff f (g ∷ d)).1 (inr ((contains_iff f d).0 h))

written : (f : Str) (d : List Str) → contains f (f ∷ d) ≡ true
written f d = (contains_iff f (f ∷ d)).1 (inl refl)

disk-IsKeeping : IsKeeping disk runner
unfolding build_command build_generate_hashes_args
disk-IsKeeping = record {
  make_dir_keeps = λ f d h. h;
  join_absolute = λ dir name (rest, e). (rest ++ b'/' ∷ name, rw e refl);
  hashes_keep = λ sha sha' d h. stays (hash_file disk runner sha') _ d h;
  hashes_write = λ sha o d a h. written (hash_file disk runner sha) d;
  impacted_keeps = λ base head sha d h. stays (hash_file disk runner sha) _ d h;
}

abbrev two_commits : ChangeDetectionRequest
two_commits = record {
  base_sha = codes "b";
  head_sha = codes "h";
  bazel_path = [];
  cache_dir = codes "/d";
}

abbrev detected : ChangeDetectionResult
detected = record {
  impacted_targets = codes "//a:a" ∷ [];
  base_hash_file = codes "/c/b.json";
  head_hash_file = codes "/c/h.json";
}

-- The cache directory of a request stays with the runner.
keeps_cache_dir : (detect_changes disk runner two_commits []).1.cache_dir ≡ codes "/d"
unfolding detect_changes
keeps_cache_dir = refl

detect_with_example :
    (generate_hashes disk runner (codes "b") (detect_with disk runner two_commits []).1
      ≡ (inr detected.base_hash_file, (detect_with disk runner two_commits []).1))
    × (generate_hashes disk runner (codes "h") (detect_with disk runner two_commits []).1
        ≡ (inr detected.head_hash_file, (detect_with disk runner two_commits []).1))
    × (detected.base_hash_file ≡ hash_file disk runner (codes "b"))
    × (detected.head_hash_file ≡ hash_file disk runner (codes "h"))
    × ((x : Str) → In x detected.impacted_targets → IsWanted x)
unfolding detect_with ◌>>=◌ contains str_eq
detect_with_example =
    detect_with_lem disk runner disk-IsKeeping (codes "c", refl) two_commits [] detected refl
