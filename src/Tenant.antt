-- ===== src/Tenant.antt =====
-- internal/tenant: the tables of the service, each a list of rows, with the columns that keys and queries
-- read (internal/platform/migrations). A row has the identifier that the database gave it.
pub mod Ensure
pub mod Delete
use toposcope.Base.{ℕ, Str, Bool, true, false, Option, none, some, List}
use toposcope.Base.Int.{ℤ}

pub record Tenant : Type 0 where
  pub id : Str
  pub display_name : Str
  pub github_installation_id : Option ℤ

pub record Repository : Type 0 where
  pub id : Str
  pub tenant_id : Str
  pub github_repo_id : Option ℤ
  pub full_name : Str
  pub default_branch : Str

pub record SnapshotKeys : Type 0 where
  pub id : Str
  pub repo_id : Str

pub record BaselineKeys : Type 0 where
  pub repo_id : Str
  pub snapshot_id : Str

pub record DeltaKeys : Type 0 where
  pub id : Str
  pub repo_id : Str
  pub base_snapshot_id : Str
  pub head_snapshot_id : Str

pub record ScoreKeys : Type 0 where
  pub id : Str
  pub repo_id : Str
  pub base_snapshot_id : Str
  pub head_snapshot_id : Str
  pub delta_id : Str

pub record IngestionKeys : Type 0 where
  pub repo_id : Str
  pub snapshot_id : Option Str
  pub delta_id : Option Str
  pub score_id : Option Str

pub record Tables : Type 0 where
  pub tenants : List Tenant
  pub repositories : List Repository
  pub snapshots : List SnapshotKeys
  pub baselines : List BaselineKeys
  pub deltas : List DeltaKeys
  pub scores : List ScoreKeys
  pub ingestions : List IngestionKeys
