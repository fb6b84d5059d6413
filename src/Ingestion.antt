-- ===== src/Ingestion.antt =====
-- internal/ingestion/service.go: the request, the statements and calls of the service, and the
-- monad of its methods. The database, the blob storage, the extractor, the scorer and encoding/json
-- are one interface, `Backend`, on a state `D` of any type.
pub mod Store
pub mod Process
pub mod Outcome
pub mod Blobs
unfoldable pub use toposcope.Base.Steps.{or_fail, resume, ◌>>=◌, ◌>>◌, done, expect, call, exec}
use toposcope.Base.{
  ℕ, Str, Bool, true, false, List, Option, none, some, ◌⊎◌, inl, inr, codes, is_empty,
  if◌then◌else◌,
}
use toposcope.Base.Int.{ℤ}
use toposcope.Graph.{Snapshot, Delta, SnapshotStats, DeltaStats}
use toposcope.Scoring.{ScoreResult, MetricResult, Hotspot, SuggestedAction, Grade}

-- CommittedAt, if set, stands for now().
pub record IngestionRequest : Type 0 where
  pub tenant_id : Str
  pub repo_id : Str
  pub repo_full_name : Str
  pub commit_sha : Str
  pub base_branch : Str
  pub pr_number : Option ℤ
  pub installation_id : ℤ
  pub committed_at : Option ℕ

-- The constants StatusQueued, StatusRunning, StatusCompleted and StatusFailed.
pub data Status : Type 0 where
  queued running completed failed : Status

-- The parameters of INSERT INTO snapshots, deltas and scores.
pub record SnapshotRow : Type 0 where
  pub tenant_id : Str
  pub repo_id : Str
  pub commit_sha : Str
  pub branch : Option Str
  pub stats : SnapshotStats
  pub storage_ref : Str
  pub created_at : Option ℕ

pub record DeltaRow : Type 0 where
  pub tenant_id : Str
  pub repo_id : Str
  pub base_snapshot_id : Str
  pub head_snapshot_id : Str
  pub stats : DeltaStats
  pub storage_ref : Str

pub record ScoreRow (W : Type 0) : Type 0 where
  pub tenant_id : Str
  pub repo_id : Str
  pub pr_number : Option ℤ
  pub commit_sha : Str
  pub base_snapshot_id : Str
  pub head_snapshot_id : Str
  pub delta_id : Str
  pub total_score : W
  pub grade : Grade
  pub breakdown : Str
  pub hotspots : Str
  pub suggested_actions : Str
  pub created_at : Option ℕ

-- What the query for the baseline gives: an identifier, sql.ErrNoRows, or another error.
pub data BaselineQuery : Type 0 where
  found : Str → BaselineQuery
  no_rows query_failed : BaselineQuery

-- What the scorer gives: an error, or a result, which may be nil.
pub data Scored (W : Type 0) : Type 0 where
  score_error : Scored W
  scored : Option (ScoreResult W) → Scored W

-- `none` and `false` are errors.
pub record Backend (D W : Type 0) : Type 0 where
  pub insert_ingestion : IngestionRequest → Str → D → Option Str × D
  pub set_status : Str → Status → Option Str → D → Bool × D
  pub finalize : Str → Str → Str → Option Str → D → Bool × D
  pub find_baseline : Str → D → BaselineQuery
  pub set_baseline : Str → Str → D → Bool × D
  pub insert_snapshot : SnapshotRow → D → Option Str × D
  pub insert_delta : DeltaRow → D → Option Str × D
  pub insert_score : ScoreRow W → D → Option Str × D
  pub update_score : Str → W → Grade → Str → Str → Str → D → Bool × D
  pub put_snapshot : Str → Str → Str → D → Bool × D
  pub get_snapshot : Str → Str → D → Option Str
  pub put_delta : Str → Str → Str → D → Bool × D
  -- Extract in full mode at a commit
  pub extract : Str → D → Option Snapshot
  pub elapsed_ms : ℕ
  pub scorer : Option (Snapshot → Snapshot → Delta → Scored W)
  pub marshal_snapshot : Snapshot → Option Str
  pub unmarshal_snapshot : Str → Option Snapshot
  pub get_delta : Str → Str → D → Option Str
  pub unmarshal_delta : Str → Option Delta
  pub marshal_delta : Delta → Option Str
  pub marshal_breakdown : List (MetricResult W) → Option Str
  pub marshal_hotspots : List (Hotspot W) → Option Str
  pub marshal_actions : List (SuggestedAction W) → Option Str

-- Where a method gives up.
pub data IngestError : Type 0 where
  create_ingestion update_status query_baseline extract_baseline marshal_baseline set_baseline
        extract_head marshal_head put_blob insert_row load_base unmarshal_base marshal_delta
        marshal_score score_failed finalize update_score :
      IngestError

-- A method: it changes the state also where it fails.
abbrev pub M : Type 0 → Type 0 → Type 0
M D A = D → (IngestError ⊎ A) × D

-- nilIfEmpty
unfoldable pub nil_if_empty : Str → Option Str
unfolding is_empty
nil_if_empty s = if is_empty s then none else some s
