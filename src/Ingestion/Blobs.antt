-- ===== src/Ingestion/Blobs.antt =====
-- internal/ingestion/service.go: blobs are written under the identifier of the snapshot, and ProcessPR
-- reads the base snapshot under the identifier of its database row.
use toposcope.Base.{
  Str, arith, ◌≢◌, Option, none, some, ◌≡◌, refl, ◌⊎◌, inl, inr, ap, ◌∙◌, sym, subst,
}
use toposcope.Graph.{Snapshot}
use toposcope.Ingestion.{
  IngestionRequest, SnapshotRow, BaselineQuery, Backend, IngestError, M, resume, ◌>>=◌, or_fail,
}
use toposcope.Ingestion.Store.{
  store_snapshot, snapshot_row, extract_baseline, baseline_of, ensure_baseline,
}
use toposcope.Ingestion.Process.{ingest, finish, deferred, process_pr}

-- The identifiers that the database draws for its rows are under no blob of the storage.
pub record DrawsIds {D W : Type 0} (b : Backend D W) (IsRowId : Str → Type 0) : Type 0 where
  pub of_baseline : (r i : Str) (d : D) → b.find_baseline r d ≡ BaselineQuery.found i → IsRowId i
  pub of_snapshot :
      (r : SnapshotRow) (i : Str) (d : D) → (b.insert_snapshot r d).0 ≡ some i → IsRowId i
  pub no_blob : (t i : Str) (d : D) → IsRowId i → b.get_snapshot t i d ≡ none

module _ {D : Type 0} where
  -- What holds of the value of every run that succeeds.
  abbrev pub Ensures : {A : Type 0} → M D A → (A → Type 0) → Type 0
  Ensures {A} m P = (d : D) (a : A) → (m d).0 ≡ inr a → P a

  resume_ensures :
      {A B : Type 0} (P : A → Type 0) (Q : B → Type 0) (f : A → M D B) (p : (IngestError ⊎ A) × D)
      → ((a : A) → p.0 ≡ inr a → P a)
      → ((a : A) → P a → Ensures (f a) Q)
      → (c : B) → (resume f p).0 ≡ inr c
      → Q c
  unfolding resume
  resume_ensures P Q f (inl e, d) h k c r = absurd (cc)
  resume_ensures P Q f (inr a, d) h k c r = k a (h a refl) d c r

  pub bind_ensures :
      {A B : Type 0} (P : A → Type 0) (Q : B → Type 0) (m : M D A) (f : A → M D B)
      → Ensures m P
      → ((a : A) → P a → Ensures (f a) Q)
      → Ensures (m >>= f) Q
  unfolding ◌>>=◌
  bind_ensures P Q m f h k d = resume_ensures P Q f (m d) (h d) k

  pub skip :
      {A B : Type 0} (Q : B → Type 0) (m : M D A) (f : A → M D B)
      → ((a : A) → Ensures (f a) Q)
      → Ensures (m >>= f) Q
  skip Q m f k = bind_ensures (λ _. Unit {0}) Q m f (λ d a h. tt) (λ a _. k a)

pub or_fail-ok :
    {A : Type 0} (e : IngestError) (o : Option A) (a : A) → or_fail e o ≡ inr a → o ≡ some a
or_fail-ok e none a h = absurd (cc)
or_fail-ok e (some c) a h = let same : c ≡ a = ground arith in ap some same

module _ {D W : Type 0} (b : Backend D W) (IsRowId : Str → Type 0) (l : DrawsIds b IsRowId) where
  store_snapshot_ensures :
      (req : IngestionRequest) (s : Snapshot) (y : Str) → Ensures (store_snapshot b req s y) IsRowId
  unfolding store_snapshot
  store_snapshot_ensures req s y =
      skip IsRowId _ _ (λ _ d i h. l.of_snapshot (snapshot_row b req s) i d (or_fail-ok _ _ i h))

  extract_baseline_ensures : (req : IngestionRequest) → Ensures (extract_baseline b req) IsRowId
  unfolding extract_baseline
  extract_baseline_ensures req = skip IsRowId _ _ (λ s. skip IsRowId _ _ (λ y.
      bind_ensures IsRowId IsRowId _ _
        (store_snapshot_ensures req (record s { branch = req.base_branch }) y)
        (λ i row.
          skip IsRowId _ _ (λ _ d c h. let same : i ≡ c = ground arith in subst IsRowId same row))))

  baseline_of_ensures :
      (req : IngestionRequest) (x : D) (q : BaselineQuery)
      → b.find_baseline req.repo_id x ≡ q
      → Ensures (baseline_of b req q) IsRowId
  unfolding baseline_of
  baseline_of_ensures req x (BaselineQuery.found j) e d i h =
      let same : j ≡ i = ground arith in subst IsRowId same (l.of_baseline req.repo_id j x e)
  baseline_of_ensures req x BaselineQuery.no_rows e d i h = extract_baseline_ensures req d i h
  baseline_of_ensures req x BaselineQuery.query_failed e d i h = absurd (cc)

  ensure_baseline_ensures : (req : IngestionRequest) → Ensures (ensure_baseline b req) IsRowId
  unfolding ensure_baseline
  ensure_baseline_ensures req d i h =
      baseline_of_ensures req d (b.find_baseline req.repo_id d) refl d i h

  never :
      (text_of : IngestError → Str) (req : IngestionRequest)
      → Ensures (ingest b text_of req) (λ _. ⊥)
  unfolding ingest
  never text_of req =
      bind_ensures IsRowId (λ _. ⊥) _ _ (ensure_baseline_ensures req)
        (λ base_id row. skip _ _ _ (λ e. skip _ _ _ (λ y. skip _ _ _ (λ head_id.
          bind_ensures (λ _. ⊥) (λ _. ⊥) _ _
            (λ d z h. cc (
              l.no_blob req.tenant_id base_id d row,
              or_fail-ok IngestError.load_base (b.get_snapshot req.tenant_id base_id d) z h,
            ))
            (λ z no. absurd no)))))

  result-deferred :
      (text_of : IngestError → Str) (i : Str) (p : (IngestError ⊎ Unit {0}) × D)
      → (deferred b text_of i p).0 ≡ p.0
  unfolding deferred
  result-deferred text_of i (inl e, d) = refl
  result-deferred text_of i (inr u, d) = refl

  -- If the identifiers of rows name no blobs, ProcessPR succeeds for no request and in no state:
  -- it does not get past the base snapshot.
  pub process_pr_fails :
      (text_of : IngestError → Str) (req : IngestionRequest) (d : D) (u : Unit {0})
      → (process_pr b text_of req d).0 ≢ inr u
  unfolding process_pr
  process_pr_fails text_of req =
      skip (λ _. ⊥) _ _
        (λ i.
          skip (λ _. ⊥) _ _
            (λ _ d u h.
              bind_ensures (λ _. ⊥) (λ _. ⊥) _ _ (never text_of req) (λ x no. absurd no) d u
                (sym (result-deferred text_of i ((ingest b text_of req >>= finish b text_of i) d))
                  ∙ h)))
