-- ===== src/Api/Refs.antt =====
-- internal/api/rescore.go and snapshots.go: the identifier of a blob from its storage reference.
-- path.Base is `last_element`.
pub mod Laws
use toposcope.Base.{Str, Option, none, some, codes, is_empty, trim_suffix, if◌then◌else◌}
use toposcope.Extract.Rules.{split_last, last_element}

-- What is left of a name without its extension, path.Ext: the part before the last '.'.
unfoldable pub without_ext : Str → Option (Str × Str) → Str
without_ext base none = base
without_ext base (some parts) = parts.0

-- storageIDFromRef
unfoldable pub storage_id_from_ref : Str → Str
unfolding without_ext split_last last_element
storage_id_from_ref ref = let base = last_element ref in without_ext base (split_last b'.' base)

-- blobID in loadSnapshot
unfoldable pub blob_id : Str → Str → Str
unfolding is_empty trim_suffix last_element
blob_id snapshot_id ref =
    if is_empty ref then snapshot_id else trim_suffix (last_element ref) (codes ".json")
