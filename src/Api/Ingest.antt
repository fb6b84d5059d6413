-- ===== src/Api/Ingest.antt =====
-- internal/api/ingest.go: handleIngest, once the body has been decoded, and handleUploadSnapshot,
-- once it has been read. The tenant service, the clock's parser and uuid.New() are arguments.
pub mod Refused
pub mod Baseline
use toposcope.Base.{
  Str, Option, none, some, ◌⊎◌, inl, inr, Bool, true, false, ◌||◌, [], codes, str_eq, is_empty,
  before, ℕ, if◌then◌else◌, Option-cases,
}
use toposcope.Base.Int.{pos}
use toposcope.Graph.{Snapshot, Delta}
use toposcope.Scoring.{ScoreResult}
use toposcope.Ingestion.{
  IngestionRequest, BaselineQuery, Backend, IngestError, M, ◌>>=◌, ◌>>◌, done, or_fail, expect,
  exec, call,
}
use toposcope.Ingestion.Store.{store_snapshot, store_delta, store_score, compute_changes}
use toposcope.Ingestion.Process.{with_ends}

pub record IngestBody (W : Type 0) : Type 0 where
  pub repo_full_name : Str
  pub default_branch : Str
  pub commit_sha : Str
  pub branch : Str
  pub committed_at : Str
  pub snapshot : Option Snapshot
  pub score : Option (ScoreResult W)
  pub base_snapshot : Option Snapshot
  pub snapshot_id : Str
  pub base_snapshot_id : Str

pub record IngestResponse : Type 0 where
  pub snapshot_id : Str
  pub base_snapshot_id : Str
  pub delta_id : Str
  pub score_id : Str

-- 400 with what was wrong with the request, or 500 with the step that failed.
pub data Refusal : Type 0 where
  referenced_snapshot missing_fields invalid_snapshot : Refusal
  internal : IngestError → Refusal
  ensure_failed : Refusal

abbrev pub status_code : Refusal → ℕ
status_code (Refusal.internal e) = 500
status_code Refusal.ensure_failed = 500
status_code _ = 400

-- if err != nil { writeError(w, 500, …) }
unfoldable pub as_internal : {D A : Type 0} → (IngestError ⊎ A) × D → (Refusal ⊎ A) × D
as_internal (inl e, d) = (inl (Refusal.internal e), d)
as_internal (inr a, d) = (inr a, d)

-- idx := strings.Index(name, "/"); idx > 0
unfoldable pub org_name : Str → Str
unfolding before is_empty
org_name full = let org = before b'/' full in if is_empty org then full else org

unfoldable pub or_main : Str → Str
unfolding is_empty
or_main branch = if is_empty branch then codes "main" else branch

unfoldable pub uploads : Str
uploads = codes "_uploads"

module _ {D W : Type 0} (b : Backend D W)
    (ensure_tenant_and_repo : Str → Str → Str → D → Option (Str × Str) × D)
    (parse_time : Str → Option ℕ) where
  -- Reference mode: a snapshot that the body lacks, by its identifier.
  unfoldable pub fetch : Str → D → Option Snapshot
  unfolding uploads
  fetch id d = elim (b.get_snapshot uploads id d) [
    | none ↦ none
    | some bytes ↦ b.unmarshal_snapshot bytes
  ]

  unfoldable pub resolve : Str → Option Snapshot → D → (Refusal ⊎ Option Snapshot) × D
  unfolding is_empty fetch
  resolve id (some s) d = (inr (some s), d)
  resolve id none d = if is_empty id then (inr none, d) else elim (fetch id d) [
    | none ↦ (inl Refusal.referenced_snapshot, d)
    | some s ↦ (inr (some s), d)
  ]

  unfoldable pub request_of : IngestBody W → Str × Str → IngestionRequest
  unfolding or_main is_empty
  request_of body (tenant_id, repo_id) = record {
    tenant_id = tenant_id;
    repo_id = repo_id;
    repo_full_name = body.repo_full_name;
    commit_sha = body.commit_sha;
    base_branch = or_main body.default_branch;
    pr_number = none;
    installation_id = pos 0;
    committed_at = if is_empty body.committed_at then none else parse_time body.committed_at;
  }

  unfoldable pub store_marshalled : IngestError → IngestionRequest → Snapshot → M D Str
  unfolding store_snapshot
  store_marshalled e req snap = do
    bytes ← expect e (b.marshal_snapshot snap)
    store_snapshot b req snap bytes

  unfoldable pub store_given_score :
      IngestionRequest → Str → Str → Str → Option (ScoreResult W) → M D Str
  unfolding store_score
  store_given_score req base_id head_id delta_id none = done []
  store_given_score req base_id head_id delta_id (some result) =
      store_score b req base_id head_id delta_id result

  -- A score with no base snapshot goes to the baseline of the repository, if it has one.
  unfoldable pub score_on_baseline :
      IngestionRequest → Str → ScoreResult W → BaselineQuery → M D Str
  unfolding store_given_score is_empty
  score_on_baseline req head_id result (BaselineQuery.found id) =
      if is_empty id then done [] else store_given_score req id head_id [] (some result)
  score_on_baseline req head_id result _ = done []

  unfoldable pub compare_with :
      IngestionRequest
      → Str
      → Snapshot
      → Option Snapshot
      → Option (ScoreResult W)
      → M D IngestResponse
  unfolding store_marshalled store_delta store_given_score compute_changes score_on_baseline
  compare_with req head_id head (some base) score = do
    base_id ← store_marshalled IngestError.marshal_baseline req base
    let delta = with_ends base_id head_id (compute_changes base head)
    bytes ← expect IngestError.marshal_delta (b.marshal_delta delta)
    delta_id ← store_delta b req delta bytes
    score_id ← store_given_score req base_id head_id delta_id score
    done (record {
      snapshot_id = head_id;
      base_snapshot_id = base_id;
      delta_id = delta_id;
      score_id = score_id;
    })
  compare_with req head_id head none (some result) = do
    score_id ← (λ d. score_on_baseline req head_id result (b.find_baseline req.repo_id d) d)
    done (record {
      snapshot_id = head_id;
      base_snapshot_id = [];
      delta_id = [];
      score_id = score_id;
    })
  compare_with req head_id head none none =
      done (record { snapshot_id = head_id; base_snapshot_id = []; delta_id = []; score_id = [] })

  -- The baseline follows the default branch; an error of the statement is only logged.
  unfoldable pub update_baseline : IngestionRequest → Str → Str → D → D
  unfolding str_eq
  update_baseline req branch head_id d =
      if str_eq branch req.base_branch then (b.set_baseline req.repo_id head_id d).1 else d

  unfoldable pub store_all :
      IngestBody W → Snapshot → Option Snapshot → IngestionRequest → M D IngestResponse
  unfolding store_marshalled compare_with update_baseline
  store_all body given base req = do
    let head : Snapshot = record given { commit_sha = body.commit_sha; branch = body.branch }
    head_id ← store_marshalled IngestError.marshal_head req head
    response ← compare_with req head_id head base body.score
    (λ d. (inr response, update_baseline req body.branch head_id d))

  unfoldable pub check : IngestBody W → Option Snapshot → D → (Refusal ⊎ Snapshot) × D
  unfolding is_empty
  check body none d = (inl Refusal.missing_fields, d)
  check body (some s) d =
      if is_empty body.repo_full_name || is_empty body.commit_sha
      then (inl Refusal.missing_fields, d)
      else (inr s, d)

  -- Handler.handleIngest
  unfoldable pub handle_ingest : IngestBody W → D → (Refusal ⊎ IngestResponse) × D
  unfolding resolve check org_name or_main request_of store_all as_internal
  handle_ingest body = do
    given ← resolve body.snapshot_id body.snapshot
    base ← resolve body.base_snapshot_id body.base_snapshot
    head ← check body given
    ids ← call Refusal.ensure_failed (
        ensure_tenant_and_repo (org_name body.repo_full_name) body.repo_full_name
          (or_main body.default_branch))
    (λ d. as_internal (store_all body head base (request_of body ids) d))

  -- Handler.handleUploadSnapshot: the identifier under which the bytes are stored.
  unfoldable pub handle_upload_snapshot : Str → Str → D → (Refusal ⊎ Str) × D
  unfolding uploads
  handle_upload_snapshot new_id bytes = do
    expect Refusal.invalid_snapshot (b.unmarshal_snapshot bytes)
    exec (Refusal.internal IngestError.put_blob) (b.put_snapshot uploads new_id bytes)
    done new_id
