-- ===== src/Extract/Changes/Laws.antt =====
-- pkg/extract/bazeldiff/bazeldiff.go: what a detection that succeeds leaves behind.
use toposcope.Base.{
  ◌≡◌, ◌≢◌, refl, sym, ◌∙◌, ap, subst, Str, true, false, not, List, [], ◌∷◌, ◌++◌, Option, none,
  some, ◌⊎◌, inl, inr, arith, In, In-filter, codes, has_prefix, is_empty, map, Bool-cases,
}
use toposcope.Base.Steps.{resume, ◌>>=◌, call, done, or_fail}
use toposcope.Extract.Changes.{
  Runner, ChangeDetectionRequest, ChangeDetectionResult, ChangeError, Command, Tools, build_command,
  build_generate_hashes_args, external_target_prefixes, split, should_keep, filter_targets,
  parse_target_list, hash_file, generate_hashes, get_impacted_targets, detect_with,
}

module _ {E D A B : Type 0} where
  resume-inv :
      (f : A → D → (E ⊎ B) × D) (p : (E ⊎ A) × D) (c : B)
      → (resume f p).0 ≡ inr c
      → (a : A) × (p.0 ≡ inr a) × (resume f p ≡ f a p.1)
  unfolding resume
  resume-inv f (inl e, d) c h = absurd (cc)
  resume-inv f (inr a, d) c h = (a, refl, refl)

  -- A sequence that succeeds went through its first step.
  bind-inv :
      (m : D → (E ⊎ A) × D) (f : A → D → (E ⊎ B) × D) (d : D) (c : B)
      → ((m >>= f) d).0 ≡ inr c
      → (a : A) × ((m d).0 ≡ inr a) × ((m >>= f) d ≡ f a (m d).1)
  unfolding ◌>>=◌
  bind-inv m f d c h = resume-inv f (m d) c h

should_keep-prefix :
    (prefixes : List Str) (x p : Str)
    → should_keep prefixes x ≡ true
    → In p prefixes
    → has_prefix x p ≡ false
unfolding should_keep
should_keep-prefix [] x p h i = elim i [ ]
should_keep-prefix (q ∷ qs) x p h i = elim (Bool-cases (has_prefix x q)) [
  | inl e ↦ absurd (cc (rw (should_keep, e) at h))
  | inr e ↦ elim i [
    | inl s ↦ rw s e
    | inr j ↦ should_keep-prefix qs x p (rw (should_keep, e) at h) j
  ]
]

abbrev pub IsAbsolute : Str → Type 0
IsAbsolute path = (rest : Str) × (path ≡ b'/' ∷ rest)

-- The two commands of bazel-diff that a runner starts.
abbrev pub hash_command : {D : Type 0} (t : Tools D) → Runner → Str → Command
hash_command t r sha =
    build_command r (codes "generate-hashes") (build_generate_hashes_args r (hash_file t r sha))

abbrev pub impacted_command : Runner → Str → Str → Command
impacted_command r base head =
    build_command r (codes "get-impacted-targets") (codes "-sh" ∷ base ∷ codes "-fh" ∷ head ∷ [])

-- What the file system and bazel-diff are relied on for, with the settings of one runner: a directory that is made takes
-- no file away, a path below an absolute one is absolute, generate-hashes leaves the file of an absolute path that it
-- was asked for, and neither command removes a file of hashes. A relative path would be one of the command's own
-- directory.
pub record IsKeeping {D : Type 0} (t : Tools D) (r : Runner) : Type 0 where
  pub make_dir_keeps :
      (f : Str) (d : D) → t.exists f d ≡ true → t.exists f (t.make_dir r.cache_dir d).1 ≡ true
  pub join_absolute : (dir name : Str) → IsAbsolute dir → IsAbsolute (t.join dir name)
  pub hashes_keep :
      (sha sha' : Str) (d : D)
      → t.exists (hash_file t r sha') d ≡ true
      → t.exists (hash_file t r sha') (t.run r.workspace_path (hash_command t r sha) d).1 ≡ true
  pub hashes_write :
      (sha o : Str) (d : D)
      → IsAbsolute (hash_file t r sha)
      → (t.run r.workspace_path (hash_command t r sha) d).0 ≡ some o
      → t.exists (hash_file t r sha) (t.run r.workspace_path (hash_command t r sha) d).1 ≡ true
  pub impacted_keeps :
      (base head sha : Str) (d : D)
      → t.exists (hash_file t r sha) d ≡ true
      → t.exists (hash_file t r sha) (t.run r.workspace_path (impacted_command r base head) d).1
        ≡ true

or_fail-some : {E A : Type 0} (e : E) (o : Option A) (a : A) → or_fail e o ≡ inr a → o ≡ some a
or_fail-some e none a h = absurd (cc)
or_fail-some e (some b) a h = let same : b ≡ a = ground arith in ap some same

-- A target that is neither empty nor external.
abbrev pub IsWanted : Str → Type 0
IsWanted x = (x ≢ []) × ((p : Str) → In p external_target_prefixes → has_prefix x p ≡ false)

module _ {D : Type 0} (t : Tools D) (r : Runner) (laws : IsKeeping t r)
    (absolute : IsAbsolute r.cache_dir) where
  hash_file-IsAbsolute : (sha : Str) → IsAbsolute (hash_file t r sha)
  unfolding hash_file
  hash_file-IsAbsolute sha = laws.join_absolute r.cache_dir (sha ++ codes ".json") absolute

  generate_hashes_lem :
      (sha : Str) (d : D) (f : Str)
      → (generate_hashes t r sha d).0 ≡ inr f
      → (f ≡ hash_file t r sha)
        × (t.exists (hash_file t r sha) (generate_hashes t r sha d).1 ≡ true)
        × ((sha' : Str)
            → t.exists (hash_file t r sha') d ≡ true
            → t.exists (hash_file t r sha') (generate_hashes t r sha d).1 ≡ true)
  unfolding generate_hashes
  generate_hashes_lem sha d f h = elim (Bool-cases (t.exists (hash_file t r sha) d)) [
    | inl hit ↦
        let e : inr (hash_file t r sha) ≡ inr f = rw (generate_hashes, hit) at h in
        (ground arith, rw (generate_hashes, hit) hit, rw (generate_hashes, hit) (λ g i. i))
    | inr miss ↦
        let file = hash_file t r sha in
        let command = hash_command t r sha in
        let d1 = (t.make_dir r.cache_dir d).1 in
        let (u, e1, p1) = bind-inv _ _ d f (rw (generate_hashes, miss) at h) in
        let (o, e2, p2) =
          bind-inv (call ChangeError.run_generate_hashes (t.run r.workspace_path command))
            (λ output. done file) d1 f
            (ap (λ x. x.0) (sym p1) ∙ (rw (generate_hashes, miss) at h)) in
        let path : generate_hashes t r sha d ≡ (inr file, (t.run r.workspace_path command d1).1) =
          rw (generate_hashes, miss) (p1 ∙ p2) in
        let e : inr file ≡ inr f = ap (λ x. x.0) (sym path) ∙ h in
        (
          ground arith,
          subst (λ x. t.exists file x.1 ≡ true) (sym path)
              (laws.hashes_write sha o d1 (hash_file-IsAbsolute sha) (or_fail-some _ _ o e2)),
          λ g i.
              subst (λ x. t.exists (hash_file t r g) x.1 ≡ true) (sym path)
                (laws.hashes_keep sha g d1 (laws.make_dir_keeps (hash_file t r g) d i)),
        )
  ]

  cached :
      (sha : Str) (d : D)
      → t.exists (hash_file t r sha) d ≡ true
      → generate_hashes t r sha d ≡ (inr (hash_file t r sha), d)
  unfolding generate_hashes
  cached sha d h = rw (generate_hashes, h) refl

  targets-IsWanted :
      (output x : Str) → In x (filter_targets (parse_target_list t output)) → IsWanted x
  unfolding filter_targets parse_target_list is_empty
  targets-IsWanted output x i =
      let (j, keep) =
        (In-filter x (should_keep external_target_prefixes) (parse_target_list t output)).0 i in
      let (k, full) =
        (In-filter x (λ line. not (is_empty line)) (map t.trim_space (split b'\n' output))).0 j in
      (nonempty x full, λ p m. should_keep-prefix external_target_prefixes x p keep m)
    where
      nonempty : (x : Str) → not (is_empty x) ≡ true → x ≢ []
      nonempty [] h = absurd (cc)
      nonempty (c ∷ x) h = λ e. absurd (cc)

  get_impacted_targets_lem :
      (base head : Str) (d : D) (ts : List Str)
      → (get_impacted_targets t r base head d).0 ≡ inr ts
      → ((x : Str) → In x ts → IsWanted x)
        × ((sha : Str)
            → t.exists (hash_file t r sha) d ≡ true
            → t.exists (hash_file t r sha) (get_impacted_targets t r base head d).1 ≡ true)
  unfolding get_impacted_targets
  get_impacted_targets_lem base head d ts h =
      let (o, e, p) = bind-inv _ _ d ts h in
      let same : inr (filter_targets (parse_target_list t o)) ≡ inr ts =
        ap (λ x. x.0) (sym p) ∙ h in
      let eq : filter_targets (parse_target_list t o) ≡ ts = ground arith in
      (
        λ x i. targets-IsWanted o x (subst (In x) (sym eq) i),
        λ sha i.
            subst (λ x. t.exists (hash_file t r sha) x.1 ≡ true) (sym p)
              (laws.impacted_keeps base head sha d i),
      )

  -- Where a detection succeeds and the cache directory is an absolute path, the result names the hash files of the two
  -- commits, and asking for either again gives the file and changes nothing; no impacted target is empty or has a prefix
  -- of an external one. It is taken that generate-hashes leaves the file that it was asked for, that it,
  -- get-impacted-targets and the making of the directory remove no hash file of it, and that filepath.Join of an
  -- absolute path is one.
  pub detect_with_lem :
      (req : ChangeDetectionRequest) (d : D) (out : ChangeDetectionResult)
      → (detect_with t r req d).0 ≡ inr out
      → (generate_hashes t r req.base_sha (detect_with t r req d).1
          ≡ (inr out.base_hash_file, (detect_with t r req d).1))
        × (generate_hashes t r req.head_sha (detect_with t r req d).1
            ≡ (inr out.head_hash_file, (detect_with t r req d).1))
        × (out.base_hash_file ≡ hash_file t r req.base_sha)
        × (out.head_hash_file ≡ hash_file t r req.head_sha)
        × ((x : Str) → In x out.impacted_targets → IsWanted x)
  unfolding detect_with
  detect_with_lem req d out h =
      let (base, e1, p1) = bind-inv _ _ d out h in
      let d1 = (generate_hashes t r req.base_sha d).1 in
      let (f1, x1, k1) = generate_hashes_lem req.base_sha d base e1 in
      let (head, e2, p2) = bind-inv _ _ d1 out (ap (λ x. x.0) (sym p1) ∙ h) in
      let d2 = (generate_hashes t r req.head_sha d1).1 in
      let (f2, x2, k2) = generate_hashes_lem req.head_sha d1 head e2 in
      let (ts, e3, p3) = bind-inv _ _ d2 out (ap (λ x. x.0) (sym (p1 ∙ p2)) ∙ h) in
      let d3 = (get_impacted_targets t r base head d2).1 in
      let (wanted, k3) = get_impacted_targets_lem base head d2 ts e3 in
      let path = p1 ∙ p2 ∙ p3 in
      let result : ChangeDetectionResult = record {
        impacted_targets = ts;
        base_hash_file = base;
        head_hash_file = head;
      } in
      let same : inr result ≡ inr out = ap (λ x. x.0) (sym path) ∙ h in
      let eq : result ≡ out = ground arith in
      subst
        (λ y.
          (generate_hashes t r req.base_sha y ≡ (inr out.base_hash_file, y))
          × (generate_hashes t r req.head_sha y ≡ (inr out.head_hash_file, y))
          × (out.base_hash_file ≡ hash_file t r req.base_sha)
          × (out.head_hash_file ≡ hash_file t r req.head_sha)
          × ((x : Str) → In x out.impacted_targets → IsWanted x))
        (ap (λ x. x.1) (sym path))
        (subst
          (λ (o : ChangeDetectionResult).
            (generate_hashes t r req.base_sha d3 ≡ (inr o.base_hash_file, d3))
            × (generate_hashes t r req.head_sha d3 ≡ (inr o.head_hash_file, d3))
            × (o.base_hash_file ≡ hash_file t r req.base_sha)
            × (o.head_hash_file ≡ hash_file t r req.head_sha)
            × ((x : Str) → In x o.impacted_targets → IsWanted x))
          eq
          (
            cached req.base_sha d3 (k3 _ (k2 _ x1)) ∙ ap (λ f. (inr f, d3)) (sym f1),
            cached req.head_sha d3 (k3 _ x2) ∙ ap (λ f. (inr f, d3)) (sym f2),
            f1,
            f2,
            wanted,
          ))
