-- ===== src/Cli/Score/Still.antt =====
-- cmd/toposcope/score.go: the detection of changes leaves the checkout and the cache alone.
use toposcope.Base.{
  ◌≡◌, ◌∙◌, ◌⊎◌, inl, inr, Str, Option, none, some, is_empty, Bool-cases, Option-cases,
}
use toposcope.Base.Steps.{or_fail, exec, call, Ends, Meets, bind_meets}
use toposcope.Graph.{Snapshot}
use toposcope.Extract.Changes.{
  Runner, ChangeDetectionRequest, ChangeError, Command, generate_hashes, get_impacted_targets,
  detect_with, detect_changes, with_cache_dir, hash_file,
}
use toposcope.Cli.{Extractor, Workspace, runner_of, request_for}
use toposcope.Cli.Score.{detect, current_ref}
use toposcope.Cli.Score.Laws.{IsGit, IsSound, same_cache}

module _ {D W : Type 0} (w : Workspace D W) (head_of : D → Str) (IsOf : Str → Snapshot → Type 0)
    (g : IsGit w head_of IsOf) (h : Str) where
  -- The checkout is at the ref `h`, and the cache is sound.
  abbrev pub IsStill : D → Type 0
  IsStill d = (head_of d ≡ h) × IsSound w head_of IsOf g d

  run-IsStill :
      {E : Type 0} (e : E) (dir : Str) (c : Command)
      → Meets IsStill (call e (w.tools.run dir c)) (λ o. IsStill) IsStill
  run-IsStill e dir c d (a, b) = at (w.tools.run dir c d).0
    where
      after : IsStill (w.tools.run dir c d).1
      after = (
        g.head_run dir c d ∙ a,
        same_cache w head_of IsOf g d (w.tools.run dir c d).1 (λ s. g.cache_run s dir c d) b,
      )

      at : (o : Option Str) → Ends (λ x. IsStill) IsStill (or_fail e o, (w.tools.run dir c d).1)
      at none = after
      at (some x) = after

  make_dir-IsStill :
      {E : Type 0} (e : E) (dir : Str)
      → Meets IsStill (exec e (w.tools.make_dir dir)) (λ u. IsStill) IsStill
  make_dir-IsStill e dir d (a, b) = elim (Bool-cases (w.tools.make_dir dir d).0) [
    | inl x ↦ rw x after
    | inr x ↦ rw x after
  ]
    where
      after : IsStill (w.tools.make_dir dir d).1
      after = (
        g.head_make_dir dir d ∙ a,
        same_cache w head_of IsOf g d (w.tools.make_dir dir d).1 (λ s. g.cache_make_dir s dir d) b,
      )

  generate_hashes-IsStill :
      (r : Runner) (sha : Str)
      → Meets IsStill (generate_hashes w.tools r sha) (λ f. IsStill) IsStill
  unfolding generate_hashes
  generate_hashes-IsStill r sha d still =
      elim (Bool-cases (w.tools.exists (hash_file w.tools r sha) d)) [
        | inl hit ↦ rw (generate_hashes, hit) still
        | inr miss ↦
            rw (generate_hashes, miss)
              (bind_meets IsStill (λ u. IsStill) (λ u. IsStill) IsStill _ _
                (make_dir-IsStill ChangeError.create_cache_dir r.cache_dir)
                (λ u.
                  bind_meets IsStill (λ o. IsStill) (λ f. IsStill) IsStill _ _
                    (run-IsStill ChangeError.run_generate_hashes r.workspace_path _) (λ o d s. s))
                d still)
      ]

  detect_with-IsStill :
      (r : Runner) (req : ChangeDetectionRequest)
      → Meets IsStill (detect_with w.tools r req) (λ f. IsStill) IsStill
  unfolding detect_with get_impacted_targets
  detect_with-IsStill r req =
      bind_meets IsStill (λ f. IsStill) (λ f. IsStill) IsStill _ _
        (generate_hashes-IsStill r req.base_sha)
        (λ base.
          bind_meets IsStill (λ f. IsStill) (λ f. IsStill) IsStill _ _
            (generate_hashes-IsStill r req.head_sha)
            (λ head.
              bind_meets IsStill (λ f. IsStill) (λ f. IsStill) IsStill _ _
                (bind_meets IsStill (λ f. IsStill) (λ f. IsStill) IsStill _ _
                  (run-IsStill ChangeError.run_impacted_targets r.workspace_path _) (λ o d s. s))
                (λ ts d s. s)))

  Ends-state : {E A : Type 0} (p : (E ⊎ A) × D) → Ends (λ a. IsStill) IsStill p → IsStill p.1
  Ends-state (inl e, d) s = s
  Ends-state (inr a, d) s = s

  detect_changes-IsStill :
      (r : Runner) (req : ChangeDetectionRequest) (d : D)
      → IsStill d
      → IsStill (detect_changes w.tools r req d).2
  unfolding detect_changes
  detect_changes-IsStill r req d still = elim (Bool-cases (is_empty req.bazel_path)) [
    | inl e ↦
        rw (detect_changes, e)
          (Ends-state _ (detect_with-IsStill (with_cache_dir w.tools req.cache_dir r) req d still))
    | inr e ↦
        rw (detect_changes, e)
          (Ends-state _ (
            detect_with-IsStill
              (with_cache_dir w.tools req.cache_dir (record r { bazel_path = req.bazel_path })) req
              d still))
  ]

  pub detect-IsStill :
      (x : Extractor) (jar cache_dir base head : Str) (d : D)
      → IsStill d
      → IsStill (detect w x jar cache_dir base head d).1
  unfolding detect
  detect-IsStill x jar cache_dir base head d still = elim (Bool-cases (is_empty jar)) [
    | inl e ↦ rw (detect, e) still
    | inr e ↦
        rw (detect, e)
          (detect_changes-IsStill (runner_of x jar cache_dir) (request_for x cache_dir base head) d
            still)
  ]

  pub current_ref-head : (d : D) (r : Str) → current_ref w d ≡ some r → head_of d ≡ r
  unfolding current_ref
  current_ref-head d r e = elim (Option-cases (w.symbolic_ref d)) [
    | inl free ↦ g.detached d r free (rw (current_ref, free) at e)
    | inr (b, on) ↦
        let same : some b ≡ some r = rw (current_ref, on) at e in g.branch d r (on ∙ same)
  ]
