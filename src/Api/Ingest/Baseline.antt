-- ===== src/Api/Ingest/Baseline.antt =====
-- internal/api/ingest.go: the baseline after an accepted request.
use toposcope.Base.{
  ℕ, Str, Option, none, some, ◌≡◌, refl, sym, ap, ◌∙◌, subst, ◌⊎◌, inl, inr, arith, str_eq_iff,
}
use toposcope.Graph.{Snapshot}
use toposcope.Scoring.{ScoreResult}
use toposcope.Ingestion.{IngestionRequest, Backend, IngestError, ◌>>=◌, resume, or_fail}
use toposcope.Ingestion.Blobs.{Ensures, skip}
use toposcope.Api.Ingest.{
  IngestBody, IngestResponse, Refusal, as_internal, org_name, or_main, request_of, compare_with,
  update_baseline, store_all, handle_ingest,
}

right_eq : {E A : Type 0} {x y : A} → ◌≡◌ {A = E ⊎ A} (inr x) (inr y) → x ≡ y
right_eq h = ground arith

some_eq : {A : Type 0} {x y : A} → some x ≡ some y → x ≡ y
some_eq h = ground arith

or_fail-known :
    {E A : Type 0} (e : E) (o : Option A) (a : A)
    → ◌≡◌ {A = E ⊎ A} (or_fail e o) (inr a)
    → o ≡ some a
or_fail-known e none a h = absurd (cc)
or_fail-known e (some c) a h = ap some (right_eq h)

module _ {D W : Type 0} (b : Backend D W)
    (ensure_tenant_and_repo : Str → Str → Str → D → Option (Str × Str) × D)
    (parse_time : Str → Option ℕ) where
  -- What a run that succeeds gives, with the state that it leaves.
  abbrev Leads : {E A : Type 0} → (D → (E ⊎ A) × D) → (A → D → Type 0) → Type 0
  Leads {E} {A} m Q = (d : D) (a : A) → (m d).0 ≡ inr a → Q a (m d).1

  resume_leads :
      {E A B : Type 0} (P : A → Type 0) (Q : B → D → Type 0) (f : A → D → (E ⊎ B) × D)
      (p : (E ⊎ A) × D)
      → ((a : A) → p.0 ≡ inr a → P a)
      → ((a : A) → P a → Leads (f a) Q)
      → (c : B) → (resume f p).0 ≡ inr c
      → Q c (resume f p).1
  unfolding resume
  resume_leads P Q f (inl e, d) h k c r = absurd (cc)
  resume_leads P Q f (inr a, d) h k c r = k a (h a refl) d c r

  bind_leads :
      {E A B : Type 0} (P : A → Type 0) (Q : B → D → Type 0) (m : D → (E ⊎ A) × D)
      (f : A → D → (E ⊎ B) × D)
      → ((d : D) (a : A) → (m d).0 ≡ inr a → P a)
      → ((a : A) → P a → Leads (f a) Q)
      → Leads (m >>= f) Q
  unfolding ◌>>=◌
  bind_leads P Q m f h k d = resume_leads P Q f (m d) (h d) k

  then_leads :
      {E A B : Type 0} (Q : B → D → Type 0) (m : D → (E ⊎ A) × D) (f : A → D → (E ⊎ B) × D)
      → ((a : A) → Leads (f a) Q)
      → Leads (m >>= f) Q
  then_leads Q m f k = bind_leads (λ _. Unit {0}) Q m f (λ d a h. tt) (λ a _. k a)

  -- The response names the head snapshot.
  names_head :
      (req : IngestionRequest) (head_id : Str) (head : Snapshot) (base : Option Snapshot)
      (score : Option (ScoreResult W))
      → Ensures
          (compare_with b ensure_tenant_and_repo parse_time req head_id head base score)
          (λ r. r.snapshot_id ≡ head_id)
  unfolding compare_with
  names_head req h head (some base) score = skip _ _ _ (λ base_id. skip _ _ _ (λ bytes.
      skip _ _ _
        (λ delta_id. skip _ _ _ (λ score_id d a e. ap (λ r. r.snapshot_id) (sym (right_eq e))))))
  names_head req h head none (some result) =
      skip _ _ _ (λ score_id d a e. ap (λ r. r.snapshot_id) (sym (right_eq e)))
  names_head req h head none none = λ d a e. ap (λ r. r.snapshot_id) (sym (right_eq e))

  -- The response names the baseline.
  abbrev Named : (Str → D → Option Str) → Str → IngestResponse → D → Type 0
  Named baseline r out d = baseline r d ≡ some out.snapshot_id

  at-Named :
      (baseline : Str → D → Option Str) (k r : Str) (o : IngestResponse) (x : D)
      → k ≡ r
      → Named baseline k o x
      → Named baseline r o x
  at-Named baseline k r o x e h = subst (λ i. Named baseline i o x) e h

  module _ (baseline : Str → D → Option Str)
      (writes : (r i : Str) (d : D) → baseline r (b.set_baseline r i d).1 ≡ some i) where
    stored_baseline :
        (body : IngestBody W) (given : Snapshot) (base : Option Snapshot) (req : IngestionRequest)
        → body.branch ≡ req.base_branch
        → Leads
            (store_all b ensure_tenant_and_repo parse_time body given base req)
            (Named baseline req.repo_id)
    unfolding store_all update_baseline
    stored_baseline body given base req same =
        then_leads (Named baseline req.repo_id) _ _ (λ head_id.
          bind_leads (λ r. r.snapshot_id ≡ head_id) (Named baseline req.repo_id) _ _
            (names_head req head_id
              (record given { commit_sha = body.commit_sha; branch = body.branch }) base body.score)
            (λ r named d a e.
              let hit = (str_eq_iff body.branch req.base_branch).1 same in
              let got : r ≡ a = right_eq e in
              rw hit (
                writes req.repo_id head_id d
                ∙ ap some (sym named ∙ ap (λ (x : IngestResponse). x.snapshot_id) got))))

    leads_internal :
        {A : Type 0} (Q : A → D → Type 0) (p : (IngestError ⊎ A) × D) (a : A)
        → ((c : A) → p.0 ≡ inr c → Q c p.1)
        → (as_internal p).0 ≡ inr a
        → Q a (as_internal p).1
    unfolding as_internal
    leads_internal Q (inl e, d) a h r = absurd (cc)
    leads_internal Q (inr c, d) a h r = h a (ap inr (right_eq r))

    -- After an accepted request for the default branch ("main" where it is not given) the baseline of
    -- the repository is the snapshot that the response names, where the tenant service gives the
    -- repository and the statement that sets a baseline has its effect.
    pub handle_ingest_baseline :
        (body : IngestBody W) (d : D) (t r : Str) (out : IngestResponse)
        → ((x : D)
            → (ensure_tenant_and_repo
                (org_name body.repo_full_name)
                body.repo_full_name
                (or_main body.default_branch)
                x).0
              ≡ some (t, r))
        → body.branch ≡ or_main body.default_branch
        → (handle_ingest b ensure_tenant_and_repo parse_time body d).0 ≡ inr out
        → baseline r (handle_ingest b ensure_tenant_and_repo parse_time body d).1
          ≡ some out.snapshot_id
    unfolding handle_ingest request_of
    handle_ingest_baseline body d t r out known same =
        then_leads (Named baseline r) _ _
          (λ given. then_leads (Named baseline r) _ _ (λ base.
            then_leads (Named baseline r) _ _ (λ head.
              bind_leads (λ ids. ids ≡ (t, r)) (Named baseline r) _ _
                (λ x ids e. some_eq (sym (or_fail-known Refusal.ensure_failed _ ids e) ∙ known x))
                (λ ids p x a. leads_internal (Named baseline r) _ a (λ c e.
                  at-Named baseline ids.1 r c _ (ap (λ k. k.1) p) (
                    stored_baseline body head base
                      (request_of b ensure_tenant_and_repo parse_time body ids) same x c e))))))
          d out
