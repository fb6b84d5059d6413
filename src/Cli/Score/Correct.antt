-- ===== src/Cli/Score/Correct.antt =====
-- cmd/toposcope/score.go: runScore returns to where it started, and scores the commits it names.
use toposcope.Base.{
  ℕ, zero, suc, ◌<◌, ◌≡◌, ◌∙◌, ◌⊎◌, inl, inr, Str, Bool, true, ◌&&◌, List, Option, some, arith,
  Bool-cases,
}
use toposcope.Base.Steps.{Ends, Meets, bind_meets, expect_meets}
use toposcope.Base.Float.{Float}
use toposcope.Base.Sort.{SortSlice}
use toposcope.Graph.{Snapshot}
use toposcope.Graph.Diff.{compute_delta}
use toposcope.Scoring.{ScoreResult}
use toposcope.Scoring.Engine.{score, default_metrics}
use toposcope.Cli.{Extractor, Workspace, CliError, with_impacted}
use toposcope.Cli.Score.{
  Run, Plan, needs_checkout, scored, perform, run_deferred, leave, score_delta, extract_and_score,
}
use toposcope.Cli.Score.Laws.{IsGit, IsSound, same_cache, IsHome, HasFailed, obtain-IsHome}

module _ {D W : Type 0} ⦃fl : Float W⦄ (w : Workspace D W) (head_of : D → Str)
    (IsOf : Str → Snapshot → Type 0) (g : IsGit w head_of IsOf) (sort : SortSlice)
    (new_id : Str) where
  -- The score of the change between two snapshots.
  abbrev pub IsScore : Option (List Str) → Snapshot → Snapshot → ScoreResult W → Type 0
  IsScore targets base head result =
      scored (
        score sort (default_metrics sort)
          (some (with_impacted targets (compute_delta new_id base head))) (some base) (some head))
      ≡ some result

  -- Two snapshots, extracted with the one and with the other commit checked out, have this score.
  abbrev pub IsScoreOf : Str → Str → ScoreResult W → Type 0
  IsScoreOf base_sha head_sha result =
      (targets : Option (List Str)) × (base : Snapshot) × (head : Snapshot) × IsOf base_sha base
      × IsOf head_sha head
      × IsScore targets base head result

  module _ (orig_ref : Str) where
    abbrev Home : Run D → Type 0
    Home = IsHome w head_of IsOf g orig_ref

    abbrev Failed : Run D → Type 0
    Failed = HasFailed w head_of IsOf g orig_ref

    score_delta-Home :
        (as_json : Bool) (p : Plan) (targets : Option (List Str)) (base head : Snapshot)
        → Meets Home
            (score_delta w sort new_id as_json p targets base head)
            (λ result r. IsScore targets base head result × Home r)
            Failed
    unfolding score_delta
    score_delta-Home as_json p targets base head =
        bind_meets Home (λ result r. IsScore targets base head result × Home r) _ Failed _ _
          (expect_meets Home (λ result r. IsScore targets base head result × Home r) Failed
            CliError.scoring
            (λ _. scored {W = W} (
              score sort (default_metrics sort)
                (some (with_impacted targets (compute_delta new_id base head))) (some base)
                (some head)))
            (λ r (h, c). (c, inl h)) (λ r result home e. (e, home)))
          (λ result.
            bind_meets (λ r. IsScore targets base head result × Home r)
              (λ u r. IsScore targets base head result × Home r) _ Failed _ _
              (λ r (s, (h, c)). (
                s,
                (
                  g.head_score p.base_sha p.head_sha result r.tree ∙ h,
                  same_cache w head_of IsOf g r.tree
                      (w.save_score p.base_sha p.head_sha result r.tree)
                      (λ x. g.cache_score x p.base_sha p.head_sha result r.tree) c,
                ),
              ))
              (λ u.
                bind_meets (λ r. IsScore targets base head result × Home r)
                  (λ v r. IsScore targets base head result × Home r) _ Failed _ _
                  (λ r (s, (h, c)). rendered result r s h c) (λ v r q. q)))
      where
        rendered :
            (result : ScoreResult W) (r : Run D)
            → IsScore targets base head result
            → head_of r.tree ≡ orig_ref
            → IsSound w head_of IsOf g r.tree
            → Ends
                (λ v r'. IsScore targets base head result × Home r')
                Failed
                (perform w CliError.rendering (w.render as_json result) r)
        rendered result r s h c =
            let h' = g.head_render as_json result r.tree ∙ h in
            let c' =
              same_cache w head_of IsOf g r.tree (w.render as_json result r.tree).1
                (λ x. g.cache_render x as_json result r.tree) c in
            elim (Bool-cases (w.render as_json result r.tree).0) [
              | inl good ↦ rw good (s, (h', c'))
              | inr bad ↦ rw bad (c', inl h')
            ]

    pub extract_and_score-Home :
        (as_json : Bool) (x : Extractor) (p : Plan) (dirty : Bool) (targets : Option (List Str))
        → p.orig_ref ≡ orig_ref
        → ((s : Snapshot) → p.cached_base ≡ some s → IsOf p.base_sha s)
        → ((s : Snapshot) → p.cached_head ≡ some s → IsOf p.head_sha s)
        → Meets Home
            (extract_and_score w sort new_id as_json x p dirty targets)
            (λ result r. IsScoreOf p.base_sha p.head_sha result × Home r)
            Failed
    unfolding extract_and_score
    extract_and_score-Home as_json x p dirty targets same hb hh r home =
        elim (Bool-cases (needs_checkout p && dirty)) [
          | inl stop ↦ rw stop (home.1, inl home.0)
          | inr on ↦
              rw (on, same)
                (bind_meets Home (λ base r. IsOf p.base_sha base × Home r)
                  (λ result r. IsScoreOf p.base_sha p.head_sha result × Home r) Failed _ _
                  (obtain-IsHome w head_of IsOf g orig_ref x p.base_sha p.cached_base hb)
                  (λ base r (of_base, home).
                    bind_meets Home (λ head r. IsOf p.head_sha head × Home r)
                      (λ result r. IsScoreOf p.base_sha p.head_sha result × Home r) Failed _ _
                      (obtain-IsHome w head_of IsOf g orig_ref x p.head_sha p.cached_head hh)
                      (λ head r (of_head, home).
                        named base head of_base of_head _
                          (score_delta-Home as_json p targets base head r home))
                      r home)
                  r home)
        ]
      where
        named :
            (base head : Snapshot)
            → IsOf p.base_sha base
            → IsOf p.head_sha head
            → (q : (CliError ⊎ ScoreResult W) × Run D)
            → Ends (λ result r. IsScore targets base head result × Home r) Failed q
            → Ends (λ result r. IsScoreOf p.base_sha p.head_sha result × Home r) Failed q
        named base head a b (inl e, r) h = h
        named base head a b (inr result, r) (s, h) = ((targets, base, head, a, b, s), h)

    -- The cache is sound; and if every checkout of the ref succeeds, it is checked out.
    abbrev pub IsSettled : D → Type 0
    IsSettled d =
        IsSound w head_of IsOf g d
        × (((x : D) → (w.checkout orig_ref x).0 ≡ true) → head_of d ≡ orig_ref)

    deferred_home :
        (n : ℕ) (d : D)
        → ((x : D) → (w.checkout orig_ref x).0 ≡ true)
        → head_of d ≡ orig_ref
        → head_of (run_deferred w orig_ref n d) ≡ orig_ref
    unfolding run_deferred
    deferred_home zero d go h = h
    deferred_home (suc n) d go h =
        deferred_home n (w.checkout orig_ref d).1 go (g.checkout_moves orig_ref d (go d))

    deferred-IsSound :
        (n : ℕ) (d : D)
        → IsSound w head_of IsOf g d
        → IsSound w head_of IsOf g (run_deferred w orig_ref n d)
    unfolding run_deferred
    deferred-IsSound zero d c = c
    deferred-IsSound (suc n) d c = deferred-IsSound n (w.checkout orig_ref d).1 (
        same_cache w head_of IsOf g d (w.checkout orig_ref d).1 (λ s. g.cache_checkout s orig_ref d)
          c)

    deferred_back :
        (n : ℕ) (d : D)
        → ((x : D) → (w.checkout orig_ref x).0 ≡ true)
        → (head_of d ≡ orig_ref) ⊎ (0 < n)
        → head_of (run_deferred w orig_ref n d) ≡ orig_ref
    unfolding run_deferred
    deferred_back n d go (inl h) = deferred_home n d go h
    deferred_back zero d go (inr z) = absurd (omega (arith, z))
    deferred_back (suc n) d go (inr z) =
        deferred_home n (w.checkout orig_ref d).1 go (g.checkout_moves orig_ref d (go d))

    pub leave-IsSettled :
        {A : Type 0} (Q : A → Type 0) (p : (CliError ⊎ A) × Run D)
        → Ends (λ a r. Q a × Home r) Failed p
        → Ends (λ a d. Q a × IsSettled d) IsSettled (leave w orig_ref p)
    unfolding leave
    leave-IsSettled Q (inl e, r) (c, back) =
        (deferred-IsSound r.deferred r.tree c, λ go. deferred_back r.deferred r.tree go back)
    leave-IsSettled Q (inr a, r) (q, (h, c)) = (
      q,
      (deferred-IsSound r.deferred r.tree c, λ go. deferred_back r.deferred r.tree go (inl h)),
    )
