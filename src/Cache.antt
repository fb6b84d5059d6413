-- ===== src/Cache.antt =====
-- internal/api/cache.go: SnapshotCache, the cache of the snapshots used last. `A` is the type of a
-- pointer to a snapshot; the mutex makes each operation one step. NewSnapshotCacheFromEnv reads the
-- environment and is left out.
pub mod Eviction
pub mod Laws
pub mod Recency
pub mod History
use toposcope.Base.{
  ℕ, zero, suc, Str, Bool, List, [], ◌∷◌, ◌++◌, Option, none, some, Dict, lookup, has_key, insert,
  delete, contains, length, str_eq, leb, if◌then◌else◌,
}
use toposcope.Base.Int.{ℤ, pos, negsuc}

-- `order` has the oldest key first.
pub record SnapshotCache (A : Type 0) : Type 0 where
  pub max_size : ℕ
  pub entries : Dict A
  pub order : List Str

-- if maxSize <= 0 { maxSize = 20 }
unfoldable pub size_or_default : ℤ → ℕ
size_or_default (pos zero) = 20
size_or_default (pos (suc n)) = suc n
size_or_default (negsuc n) = 20

unfoldable pub new_snapshot_cache : {A : Type 0} → ℤ → SnapshotCache A
unfolding size_or_default
new_snapshot_cache max_size = record {
  max_size = size_or_default max_size;
  entries = [];
  order = [];
}

-- append(order[:i], order[i+1:]...) at the first place of the key
unfoldable pub remove_first : Str → List Str → List Str
unfolding str_eq
remove_first id [] = []
remove_first id (k ∷ order) = if str_eq k id then order else k ∷ remove_first id order

unfoldable pub move_to_end : Str → List Str → List Str
unfolding contains remove_first
move_to_end id order = if contains id order then remove_first id order ++ id ∷ [] else order

module _ {A : Type 0} where
  unfoldable pub get : Str → SnapshotCache A → Option A × SnapshotCache A
  unfolding lookup move_to_end
  get id c = elim (lookup id c.entries) [
    | none ↦ (none, c)
    | some snap ↦ (some snap, record c { order = move_to_end id c.order })
  ]

  -- for len(entries) >= maxSize && len(order) > 0
  unfoldable pub evict : ℕ → Dict A → List Str → Dict A × List Str
  unfolding delete
  evict max_size entries [] = (entries, [])
  evict max_size entries (oldest ∷ order) =
      let rest = evict max_size (delete oldest entries) order in
      if leb max_size (length entries) then rest else (entries, oldest ∷ order)

  unfoldable pub put : Str → A → SnapshotCache A → SnapshotCache A
  unfolding has_key insert move_to_end evict
  put id snap c =
      if has_key id c.entries
      then record c { entries = insert id snap c.entries; order = move_to_end id c.order }
      else (let (entries, order) = evict c.max_size c.entries c.order in
          record c { entries = insert id snap entries; order = order ++ id ∷ [] })
