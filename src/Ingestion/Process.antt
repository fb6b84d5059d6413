-- ===== src/Ingestion/Process.antt =====
-- internal/ingestion/service.go: CreateIngestion and ProcessPR. The text of an error is an argument.
use toposcope.Base.{suc, Str, Option, none, some, ◌⊎◌, inl, inr, ◌++◌, codes, decimal, []}
use toposcope.Base.Int.{ℤ, pos, negsuc}
use toposcope.Graph.{Snapshot, Delta}
use toposcope.Scoring.{ScoreResult}
use toposcope.Ingestion.{
  IngestionRequest, Status, Scored, Backend, IngestError, M, ◌>>=◌, ◌>>◌, done, or_fail, expect,
  call, exec, nil_if_empty,
}
use toposcope.Ingestion.Store.{
  store_snapshot, store_delta, store_score, ensure_baseline, compute_changes,
}

-- Sprintf("%d", …)
unfoldable pub decimal_ℤ : ℤ → Str
unfolding decimal
decimal_ℤ (pos n) = decimal n
decimal_ℤ (negsuc n) = codes "-" ++ decimal (suc n)

unfoldable pub with_pr_number : Str → Option ℤ → Str
unfolding decimal_ℤ
with_pr_number key none = key
with_pr_number key (some n) = key ++ (codes ":pr" ++ decimal_ℤ n)

unfoldable pub idempotency_key : IngestionRequest → Str
unfolding with_pr_number
idempotency_key req = with_pr_number (req.repo_id ++ (codes ":" ++ req.commit_sha)) req.pr_number

-- The fields that ProcessPR sets itself.
abbrev pub with_elapsed : {D W : Type 0} → Backend D W → Snapshot → Snapshot
with_elapsed b s = record s { stats = record (s.stats) { extraction_ms = b.elapsed_ms } }

abbrev pub with_ends : Str → Str → Delta → Delta
with_ends base_id head_id delta = record delta {
  base_snapshot_id = base_id;
  head_snapshot_id = head_id;
}

module _ {D W : Type 0} (b : Backend D W) (text_of : IngestError → Str) where
  unfoldable pub create_ingestion : IngestionRequest → M D Str
  unfolding idempotency_key
  create_ingestion req =
      call IngestError.create_ingestion (b.insert_ingestion req (idempotency_key req))

  -- if s.scorer != nil, and the StoreScore that follows where there is a result
  unfoldable pub score_or_nil : Snapshot → Snapshot → Delta → IngestError ⊎ Option (ScoreResult W)
  score_or_nil base head delta = elim b.scorer [
    | none ↦ inr none
    | some score ↦ elim (score base head delta) [
      | Scored.score_error ↦ inl IngestError.score_failed
      | Scored.scored result ↦ inr result
    ]
  ]

  unfoldable pub store_score_or_nil :
      IngestionRequest → Str → Str → Str → Option (ScoreResult W) → M D Str
  unfolding store_score
  store_score_or_nil req base_id head_id delta_id none = done []
  store_score_or_nil req base_id head_id delta_id (some result) =
      store_score b req base_id head_id delta_id result

  -- Steps 2 to 6: the identifiers of the head snapshot, the delta and the score.
  unfoldable pub ingest : IngestionRequest → M D (Str × Str × Str)
  unfolding ensure_baseline store_snapshot store_delta compute_changes score_or_nil
      store_score_or_nil
  ingest req = do
    base_id ← ensure_baseline b req
    extracted ← (λ d. (or_fail IngestError.extract_head (b.extract req.commit_sha d), d))
    let head = with_elapsed b extracted
    head_bytes ← expect IngestError.marshal_head (b.marshal_snapshot head)
    head_id ← store_snapshot b req head head_bytes
    base_bytes ← (λ d. (or_fail IngestError.load_base (b.get_snapshot req.tenant_id base_id d), d))
    base ← expect IngestError.unmarshal_base (b.unmarshal_snapshot base_bytes)
    let delta = with_ends base_id head_id (compute_changes base head)
    delta_bytes ← expect IngestError.marshal_delta (b.marshal_delta delta)
    delta_id ← store_delta b req delta delta_bytes
    result ← (λ d. (score_or_nil base head delta, d))
    score_id ← store_score_or_nil req base_id head_id delta_id result
    done (head_id, delta_id, score_id)

  -- Step 7.
  unfoldable pub finish : Str → Str × Str × Str → M D (Unit {0})
  unfolding nil_if_empty
  finish id (head_id, delta_id, score_id) =
      exec IngestError.finalize (b.finalize id head_id delta_id (nil_if_empty score_id))

  -- The deferred function. It reads the `err` of ProcessPR, and the statement that decodes the base
  -- snapshot declares one of its own.
  unfoldable pub on_failure : Str → IngestError → D → D
  on_failure id IngestError.unmarshal_base d = d
  on_failure id e d = (b.set_status id Status.failed (some (text_of e)) d).1

  unfoldable pub deferred : Str → (IngestError ⊎ Unit {0}) × D → (IngestError ⊎ Unit {0}) × D
  unfolding on_failure
  deferred id (inl e, d) = (inl e, on_failure id e d)
  deferred id (inr u, d) = (inr u, d)

  -- Service.ProcessPR
  unfoldable pub process_pr : IngestionRequest → M D (Unit {0})
  unfolding create_ingestion ingest finish deferred
  process_pr req = do
    id ← create_ingestion req
    exec IngestError.update_status (b.set_status id Status.running none)
    (λ d. deferred id ((ingest req >>= finish id) d))
