-- ===== src/Ingestion/Outcome.antt =====
-- internal/ingestion/service.go: the status that ProcessPR leaves behind.
use toposcope.Base.{
  Str, Option, none, some, ◌≡◌, refl, sym, ◌∙◌, ◌⊎◌, inl, inr, true, false, arith, Bool-cases, ap,
  subst,
}
use toposcope.Scoring.{ScoreResult}
use toposcope.Graph.{Snapshot, Delta}
use toposcope.Ingestion.{
  IngestionRequest, Status, SnapshotRow, DeltaRow, ScoreRow, BaselineQuery, Backend, IngestError, M,
  resume, ◌>>=◌, exec, nil_if_empty,
}
use toposcope.Ingestion.Store.{
  store_snapshot, store_delta, store_score, extract_baseline, baseline_of, ensure_baseline,
  compute_changes,
}
use toposcope.Ingestion.Process.{
  with_elapsed, with_ends, create_ingestion, store_score_or_nil, ingest, finish, on_failure,
  deferred, process_pr,
}

resume-ok :
    {D A B : Type 0} (f : A → M D B) (p : (IngestError ⊎ A) × D) (a : A)
    → p.0 ≡ inr a
    → resume f p ≡ f a p.1
unfolding resume
resume-ok f (inl e, d) a h = absurd (cc)
resume-ok f (inr c, d) a h = let same : c ≡ a = ground arith in ap (λ x. f x d) same

pub bind-ok :
    {D A B : Type 0} (m : M D A) (f : A → M D B) (d : D) (a : A)
    → (m d).0 ≡ inr a
    → (m >>= f) d ≡ f a (m d).1
unfolding ◌>>=◌
bind-ok m f d a h = resume-ok f (m d) a h

-- The status that a reader of the database sees. A statement that fails changes none, and the
-- statements on other tables and the blob storage leave it alone.
pub record Observes {D W : Type 0} (b : Backend D W) (status_of : Str → D → Option Status)
    : Type 0 where
  pub set-ok :
      (i : Str) (st : Status) (m : Option Str) (d : D)
      → (b.set_status i st m d).0 ≡ true
      → status_of i (b.set_status i st m d).1 ≡ some st
  pub finalize-ok :
      (i h x : Str) (s : Option Str) (d : D)
      → (b.finalize i h x s d).0 ≡ true
      → status_of i (b.finalize i h x s d).1 ≡ some Status.completed
  pub finalize_fails :
      (i h x : Str) (s : Option Str) (d : D)
      → (b.finalize i h x s d).0 ≡ false
      → status_of i (b.finalize i h x s d).1 ≡ status_of i d
  pub keeps_baseline : (i r x : Str) (d : D) → status_of i (b.set_baseline r x d).1 ≡ status_of i d
  pub keeps_snapshot :
      (i : Str) (r : SnapshotRow) (d : D) → status_of i (b.insert_snapshot r d).1 ≡ status_of i d
  pub keeps_delta :
      (i : Str) (r : DeltaRow) (d : D) → status_of i (b.insert_delta r d).1 ≡ status_of i d
  pub keeps_score :
      (i : Str) (r : ScoreRow W) (d : D) → status_of i (b.insert_score r d).1 ≡ status_of i d
  pub keeps_blob : (i t x y : Str) (d : D) → status_of i (b.put_snapshot t x y d).1 ≡ status_of i d
  pub keeps_delta_blob :
      (i t x y : Str) (d : D) → status_of i (b.put_delta t x y d).1 ≡ status_of i d

-- The status that goes with a result.
abbrev pub final_status : IngestError ⊎ Unit {0} → Status
final_status (inr _) = Status.completed
final_status (inl IngestError.unmarshal_base) = Status.running
final_status (inl _) = Status.failed

module _ {D W : Type 0} (b : Backend D W) (text_of : IngestError → Str)
    (status_of : Str → D → Option Status) (o : Observes b status_of) where
  abbrev Keeps : {A : Type 0} → Str → M D A → Type 0
  Keeps i m = (d : D) → status_of i (m d).1 ≡ status_of i d

  resume-Keeps :
      {A B : Type 0} (i : Str) (f : A → M D B) (p : (IngestError ⊎ A) × D)
      → ((a : A) → Keeps i (f a))
      → status_of i (resume f p).1 ≡ status_of i p.1
  unfolding resume
  resume-Keeps i f (inl e, d) h = refl
  resume-Keeps i f (inr a, d) h = h a d

  bind-Keeps :
      {A B : Type 0} (i : Str) (m : M D A) (f : A → M D B)
      → Keeps i m
      → ((a : A) → Keeps i (f a))
      → Keeps i (m >>= f)
  unfolding ◌>>=◌
  bind-Keeps i m f h k d = resume-Keeps i f (m d) k ∙ h d

  store_snapshot-Keeps :
      (i : Str) (req : IngestionRequest) (s : Snapshot) (y : Str)
      → Keeps i (store_snapshot b req s y)
  unfolding store_snapshot
  store_snapshot-Keeps i req s y =
      bind-Keeps i _ _ (o.keeps_blob i req.tenant_id s.id y) (λ _. o.keeps_snapshot i _)

  store_delta-Keeps :
      (i : Str) (req : IngestionRequest) (x : Delta) (y : Str) → Keeps i (store_delta b req x y)
  unfolding store_delta
  store_delta-Keeps i req x y =
      bind-Keeps i _ _ (o.keeps_delta_blob i req.tenant_id x.id y) (λ _. o.keeps_delta i _)

  store_score-Keeps :
      (i : Str) (req : IngestionRequest) (x y z : Str) (r : Option (ScoreResult W))
      → Keeps i (store_score_or_nil b text_of req x y z r)
  unfolding store_score_or_nil store_score
  store_score-Keeps i req x y z none = λ d. refl
  store_score-Keeps i req x y z (some r) =
      bind-Keeps i _ _ (λ d. refl)
        (λ _.
          bind-Keeps i _ _ (λ d. refl) (λ _. bind-Keeps i _ _ (λ d. refl) (λ _. o.keeps_score i _)))

  extract_baseline-Keeps : (i : Str) (req : IngestionRequest) → Keeps i (extract_baseline b req)
  unfolding extract_baseline
  extract_baseline-Keeps i req =
      bind-Keeps i _ _ (λ d. refl)
        (λ s.
          bind-Keeps i _ _ (λ d. refl)
            (λ y.
              bind-Keeps i _ _
                (store_snapshot-Keeps i req (record s { branch = req.base_branch }) y)
                (λ x. bind-Keeps i _ _ (o.keeps_baseline i req.repo_id x) (λ _ d. refl))))

  baseline_of-Keeps :
      (i : Str) (req : IngestionRequest) (q : BaselineQuery) → Keeps i (baseline_of b req q)
  unfolding baseline_of
  baseline_of-Keeps i req (BaselineQuery.found x) = λ d. refl
  baseline_of-Keeps i req BaselineQuery.no_rows = extract_baseline-Keeps i req
  baseline_of-Keeps i req BaselineQuery.query_failed = λ d. refl

  ingest-Keeps : (i : Str) (req : IngestionRequest) → Keeps i (ingest b text_of req)
  unfolding ingest ensure_baseline
  ingest-Keeps i req =
      bind-Keeps i _ _ (λ d. baseline_of-Keeps i req (b.find_baseline req.repo_id d) d)
        (λ base_id.
          bind-Keeps i _ _ (λ d. refl)
            (λ e.
              bind-Keeps i _ _ (λ d. refl)
                (λ y. bind-Keeps i _ _ (store_snapshot-Keeps i req (with_elapsed b e) y) (λ head_id.
                  bind-Keeps i _ _ (λ d. refl)
                    (λ z.
                      bind-Keeps i _ _ (λ d. refl)
                        (λ base.
                          bind-Keeps i _ _ (λ d. refl)
                            (λ u.
                              bind-Keeps i _ _
                                (store_delta-Keeps i req
                                  (with_ends base_id head_id
                                    (compute_changes base (with_elapsed b e)))
                                  u)
                                (λ x.
                                  bind-Keeps i _ _ (λ d. refl)
                                    (λ r.
                                      bind-Keeps i _ _ (store_score-Keeps i req base_id head_id x r)
                                        (λ _ d. refl))))))))))

  -- The status after a result, given the one before.
  abbrev after : IngestError ⊎ Unit {0} → Option Status → Option Status
  after (inr _) s = some Status.completed
  after (inl _) s = s

  finish_status :
      (i : Str) (x : Str × Str × Str) (d : D)
      → status_of i (finish b text_of i x d).1 ≡ after (finish b text_of i x d).0 (status_of i d)
  unfolding finish nil_if_empty
  finish_status i (head_id, delta_id, score_id) d =
      elim (Bool-cases (b.finalize i head_id delta_id (nil_if_empty score_id) d).0) [
        | inl e ↦ rw e (o.finalize-ok i head_id delta_id (nil_if_empty score_id) d e)
        | inr e ↦ rw e (o.finalize_fails i head_id delta_id (nil_if_empty score_id) d e)
      ]

  resume_status :
      (i : Str) (p : (IngestError ⊎ (Str × Str × Str)) × D)
      → status_of i (resume (finish b text_of i) p).1
        ≡ after (resume (finish b text_of i) p).0 (status_of i p.1)
  unfolding resume
  resume_status i (inl e, d) = refl
  resume_status i (inr x, d) = finish_status i x d

  body_status :
      (i : Str) (req : IngestionRequest) (d : D)
      → status_of i d ≡ some Status.running
      → status_of i ((ingest b text_of req >>= finish b text_of i) d).1
        ≡ after ((ingest b text_of req >>= finish b text_of i) d).0 (some Status.running)
  unfolding ◌>>=◌
  body_status i req d h =
      resume_status i (ingest b text_of req d)
      ∙ ap (after (resume (finish b text_of i) (ingest b text_of req d)).0)
          (ingest-Keeps i req d ∙ h)

  deferred_status :
      (i : Str) (p : (IngestError ⊎ Unit {0}) × D)
      → ((j : Str) (st : Status) (m : Option Str) (d : D) → (b.set_status j st m d).0 ≡ true)
      → status_of i p.1 ≡ after p.0 (some Status.running)
      → status_of i (deferred b text_of i p).1 ≡ some (final_status (deferred b text_of i p).0)
  unfolding deferred on_failure
  deferred_status i (inr u, d) w h = h
  deferred_status i (inl IngestError.unmarshal_base, d) w h = h
  deferred_status i (inl e, d) w h =
      o.set-ok i Status.failed (some (text_of e)) d (w i Status.failed (some (text_of e)) d)

  -- Where the record is created and the statements that set a status succeed, the record ends as
  -- COMPLETED if ProcessPR succeeds and as FAILED if it returns an error, with one exception: it
  -- stays RUNNING if the stored base snapshot cannot be decoded.
  pub process_pr_status :
      (req : IngestionRequest) (d : D) (i : Str)
      → (create_ingestion b text_of req d).0 ≡ inr i
      → ((j : Str) (st : Status) (m : Option Str) (x : D) → (b.set_status j st m x).0 ≡ true)
      → status_of i (process_pr b text_of req d).1
        ≡ some (final_status (process_pr b text_of req d).0)
  unfolding process_pr create_ingestion
  process_pr_status req d i e w =
      let d1 = (create_ingestion b text_of req d).1 in
      let d2 = (b.set_status i Status.running none d1).1 in
      let started = o.set-ok i Status.running none d1 (w i Status.running none d1) in
      let path : process_pr b text_of req d
          ≡ deferred b text_of i ((ingest b text_of req >>= finish b text_of i) d2) =
        bind-ok _ _ d i e
        ∙ bind-ok (exec IngestError.update_status (b.set_status i Status.running none)) _ d1 tt
            (rw (w i Status.running none d1) refl) in
      subst (λ r. status_of i r.1 ≡ some (final_status r.0)) (sym path)
        (deferred_status i _ w (body_status i req d2 started))
