-- ===== src/Api/Snapshots.antt =====
-- internal/api/snapshots.go: loadSnapshot, over the cache and the backend of the ingestion service.
pub mod Laws
use toposcope.Base.{Str, Option, none, some, ◌⊎◌, inl, inr}
use toposcope.Graph.{Snapshot}
use toposcope.Cache.{SnapshotCache, put}
use toposcope.Cache
use toposcope.Ingestion.{Backend}
use toposcope.Api.Refs.{blob_id}

-- What GetSnapshotByID gives of a row.
pub record SnapshotMeta : Type 0 where
  pub tenant_id : Str
  pub storage_ref : Str

pub data LoadError : Type 0 where
  metadata blob unmarshal : LoadError

module _ {D W : Type 0} (b : Backend D W) (get_snapshot_by_id : Str → D → Option SnapshotMeta) where
  abbrev pub Loaded : Type 0
  Loaded = (LoadError ⊎ Snapshot) × SnapshotCache Snapshot

  unfoldable pub decoded : Str → Option Snapshot → SnapshotCache Snapshot → Loaded
  unfolding put
  decoded id none c = (inl LoadError.unmarshal, c)
  decoded id (some snap) c = (inr snap, put id snap c)

  unfoldable pub read_blob : Str → Option Str → SnapshotCache Snapshot → Loaded
  unfolding decoded
  read_blob id none c = (inl LoadError.blob, c)
  read_blob id (some bytes) c = decoded id (b.unmarshal_snapshot bytes) c

  unfoldable pub read_row : Str → Option SnapshotMeta → SnapshotCache Snapshot → D → Loaded
  unfolding read_blob blob_id
  read_row id none c d = (inl LoadError.metadata, c)
  read_row id (some row) c d =
      read_blob id (b.get_snapshot row.tenant_id (blob_id id row.storage_ref) d) c

  unfoldable pub after_lookup : Str → Option Snapshot × SnapshotCache Snapshot → D → Loaded
  unfolding read_row
  after_lookup id (some snap, c) d = (inr snap, c)
  after_lookup id (none, c) d = read_row id (get_snapshot_by_id id d) c d

  -- Handler.loadSnapshot
  unfoldable pub load_snapshot : Str → SnapshotCache Snapshot → D → Loaded
  unfolding after_lookup Cache.get
  load_snapshot id c d = after_lookup id (Cache.get id c) d
