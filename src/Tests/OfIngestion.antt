-- ===== src/Tests/OfIngestion.antt =====
-- internal/ingestion/service.go on maps.
use toposcope.Base.{◌≡◌, ◌≢◌, refl, none, some, inr, Str, codes}
use toposcope.Base.Int.{pos}
use toposcope.Ingestion.{IngestionRequest, IngestError}
use toposcope.Ingestion.Process.{create_ingestion, process_pr}
use toposcope.Ingestion.Outcome.{final_status, process_pr_status}
use toposcope.Ingestion.Blobs.{process_pr_fails}
use toposcope.Tests.Database.{
  database, no_data, run_id, status_in, IsRow, database-Observes, database-DrawsIds,
}

abbrev text_of : IngestError → Str
text_of e = codes "failed"

abbrev pub request : IngestionRequest
request = record {
  tenant_id = codes "acme";
  repo_id = codes "repo";
  repo_full_name = codes "acme/repo";
  commit_sha = codes "h1";
  base_branch = codes "main";
  pr_number = some (pos 3);
  installation_id = pos 1;
  committed_at = none;
}

process_pr_status_example :
    status_in run_id (process_pr database text_of request no_data).1
    ≡ some (final_status (process_pr database text_of request no_data).0)
unfolding create_ingestion
process_pr_status_example =
    process_pr_status database text_of status_in database-Observes request no_data run_id refl
      (λ j st m x. refl)

process_pr_fails_example : (process_pr database text_of request no_data).0 ≢ inr tt
process_pr_fails_example =
    process_pr_fails database IsRow database-DrawsIds text_of request no_data tt
