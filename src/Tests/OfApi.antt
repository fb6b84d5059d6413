-- ===== src/Tests/OfApi.antt =====
-- internal/api on maps.
use toposcope.Base.{
  ℕ, ◌+◌, ◌≡◌, refl, [], ◌∷◌, List, Option, none, some, inr, Str, codes, In, str_eq, arith,
}
use toposcope.Base.Int.{ℤ, pos}
use toposcope.Base.Tenths.{tenths_float}
use toposcope.Base.Sort.{by_insertion}
use toposcope.Graph.{Snapshot}
use toposcope.Cache.{SnapshotCache, new_snapshot_cache}
use toposcope.Cache
use toposcope.Cache.Laws.{new_snapshot_cache-IsValid}
use toposcope.Ingestion.{◌>>=◌}
use toposcope.Ingestion.Store.{snapshot_ref, delta_ref, store_snapshot}
use toposcope.Api.Auth.{HttpRequest, AuthMode, HttpHandler, write_auth}
use toposcope.Api.Auth.Laws.{MayWrite, write_auth_lem}
use toposcope.Api.Refs.{storage_id_from_ref, blob_id}
use toposcope.Api.Refs.Laws.{storage_refs_lem}
use toposcope.Api.Snapshots.{load_snapshot}
use toposcope.Api.Snapshots.Laws.{store-load}
use toposcope.Api.Ingest.{IngestBody, IngestResponse, Refusal, or_main, handle_ingest}
use toposcope.Api.Ingest.Refused.{handle_ingest_refused}
use toposcope.Api.Ingest.Baseline.{handle_ingest_baseline}
use toposcope.Api.Rescore.{ScoreRefs, handle_rescore}
use toposcope.Api.Rescore.Laws.{Answers, handle_rescore_count}
use toposcope.Tests.Samples.{base, head}
use toposcope.Tests.Database.{
  Database, database, no_data, row_in, baseline_in, database-Persists, lookup_inserted,
}
use toposcope.Tests.OfIngestion.{request}

abbrev keyless : HttpRequest
keyless = record { method = codes "POST"; api_key = []; forwarded_email = []; forwarded_user = [] }

-- A handler that counts what it handles, and an answer that is its status code.
abbrev counting : HttpHandler ℕ ℕ
counting r n = (200, n + 1)

abbrev code_only : ℕ → Str → ℕ
code_only code message = code

write_auth_example :
    (MayWrite (AuthMode.other []) (codes "key") keyless
      → write_auth code_only (AuthMode.other []) (codes "key") counting keyless 0
        ≡ counting keyless 0)
    × ((¬ MayWrite (AuthMode.other []) (codes "key") keyless)
        → (message : Str) × (write_auth code_only
              (AuthMode.other [])
              (codes "key")
              counting
              keyless
              0
            ≡ (code_only 401 message, 0)))
write_auth_example = write_auth_lem code_only (AuthMode.other []) (codes "key") counting keyless 0

storage_refs_example :
    (storage_id_from_ref (snapshot_ref (codes "acme") (codes "s1")) ≡ codes "s1")
    × (storage_id_from_ref (delta_ref (codes "acme") (codes "s1")) ≡ codes "s1")
    × (blob_id (codes "row") (snapshot_ref (codes "acme") (codes "s1")) ≡ codes "s1")
storage_refs_example =
    storage_refs_lem (codes "acme") (codes "s1") (codes "row")
      (λ (h : In b'/' (codes "s1")). ground arith)

abbrev no_snapshots : SnapshotCache Snapshot
no_snapshots = new_snapshot_cache (pos 2)

abbrev stored : Database
stored = (store_snapshot database request base (codes "base") no_data).1

store-load_example :
    ((load_snapshot database row_in (b'r' ∷ 0 ∷ []) no_snapshots stored).0 ≡ inr base)
    × ((load_snapshot database row_in
          (b'r' ∷ 0 ∷ [])
          (load_snapshot database row_in (b'r' ∷ 0 ∷ []) no_snapshots stored).1
          no_data).0
        ≡ inr base)
unfolding store_snapshot new_snapshot_cache ◌>>=◌ str_eq Cache.get
store-load_example =
    store-load database row_in database-Persists request base (codes "base") (b'r' ∷ 0 ∷ [])
      no_snapshots no_data no_data refl refl (λ (h : In b'/' (codes "base")). ground arith)
      (new_snapshot_cache-IsValid (pos 2)) refl

abbrev ensure : Str → Str → Str → Database → Option (Str × Str) × Database
ensure org full branch d = (some (codes "acme", codes "repo"), d)

abbrev no_time : Str → Option ℕ
no_time s = none

abbrev body : IngestBody ℤ
body = record {
  repo_full_name = codes "acme/repo";
  default_branch = [];
  commit_sha = codes "h1";
  branch = codes "main";
  committed_at = [];
  snapshot = some head;
  score = none;
  base_snapshot = some base;
  snapshot_id = [];
  base_snapshot_id = [];
}

-- The commit is missing.
handle_ingest_refused_example :
    (handle_ingest database ensure no_time (record body { commit_sha = [] }) no_data).1 ≡ no_data
unfolding handle_ingest ◌>>=◌
handle_ingest_refused_example =
    handle_ingest_refused database ensure no_time (record body { commit_sha = [] }) no_data
      Refusal.missing_fields refl refl

abbrev response : IngestResponse
response = record {
  snapshot_id = b'r' ∷ 0 ∷ [];
  base_snapshot_id = b'r' ∷ 1 ∷ [];
  delta_id = codes "delta row";
  score_id = [];
}

handle_ingest_baseline_example :
    baseline_in (codes "repo") (handle_ingest database ensure no_time body no_data).1
    ≡ some response.snapshot_id
unfolding handle_ingest or_main ◌>>=◌
handle_ingest_baseline_example =
    handle_ingest_baseline database ensure no_time baseline_in
      (λ r i d. lookup_inserted r i d.baselines) body no_data (codes "acme") (codes "repo") response
      (λ x. refl) refl refl

abbrev one_ref : ScoreRefs
one_ref = record {
  id = codes "score";
  tenant_id = codes "acme";
  base_storage_ref = codes "snapshots/acme/base.json";
  head_storage_ref = codes "snapshots/acme/head.json";
  delta_storage_ref = [];
}

abbrev one_score : Option Str → Database → Option (List ScoreRefs)
one_score repo_id d = some (one_ref ∷ [])

handle_rescore_example :
    Answers by_insertion database
      (one_score none no_data)
      no_data
      (handle_rescore by_insertion database one_score [] no_data)
handle_rescore_example = handle_rescore_count by_insertion database one_score [] no_data
