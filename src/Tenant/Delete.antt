-- ===== src/Tenant/Delete.antt =====
-- internal/tenant/service.go: DeleteRepo. A DELETE fails where a row that stays refers to one that goes, as the
-- foreign keys of 000001_initial.up.sql say.
pub mod Keys
pub mod Laws
use toposcope.Base.{
  Str, Bool, true, false, not, ◌&&◌, ◌||◌, List, [], ◌∷◌, ◌++◌, Option, none, some, map, filter,
  contains, str_eq, if◌then◌else◌,
}
use toposcope.Tenant.{
  Repository, SnapshotKeys, BaselineKeys, DeltaKeys, ScoreKeys, IngestionKeys, Tables,
}

-- The values of a nullable column.
unfoldable pub given : List (Option Str) → List Str
given [] = []
given (none ∷ os) = given os
given (some x ∷ os) = x ∷ given os

-- A foreign key: every value of it is an identifier.
unfoldable pub are_present : List Str → List Str → Bool
unfolding contains
are_present [] ids = true
are_present (k ∷ ks) ids = contains k ids && are_present ks ids

-- What refers to a snapshot, a delta, a score and a repository.
unfoldable pub snapshot_refs : Tables → List Str
unfolding given
snapshot_refs t =
    map (λ b. b.snapshot_id) t.baselines
    ++ map (λ d. d.base_snapshot_id) t.deltas
    ++ map (λ d. d.head_snapshot_id) t.deltas
    ++ map (λ s. s.base_snapshot_id) t.scores
    ++ map (λ s. s.head_snapshot_id) t.scores
    ++ given (map (λ i. i.snapshot_id) t.ingestions)

unfoldable pub delta_refs : Tables → List Str
unfolding given
delta_refs t = map (λ s. s.delta_id) t.scores ++ given (map (λ i. i.delta_id) t.ingestions)

unfoldable pub score_refs : Tables → List Str
unfolding given
score_refs t = given (map (λ i. i.score_id) t.ingestions)

unfoldable pub repo_refs : Tables → List Str
repo_refs t =
    map (λ s. s.repo_id) t.snapshots
    ++ map (λ b. b.repo_id) t.baselines
    ++ map (λ d. d.repo_id) t.deltas
    ++ map (λ s. s.repo_id) t.scores
    ++ map (λ i. i.repo_id) t.ingestions

-- Every foreign key between these tables holds.
unfoldable pub is_intact : Tables → Bool
unfolding are_present snapshot_refs delta_refs score_refs repo_refs
is_intact t =
    are_present (snapshot_refs t) (map (λ s. s.id) t.snapshots)
    && are_present (delta_refs t) (map (λ d. d.id) t.deltas)
    && are_present (score_refs t) (map (λ s. s.id) t.scores)
    && are_present (repo_refs t) (map (λ r. r.id) t.repositories)

-- The end of a statement: an error where a key is broken.
unfoldable pub checked : Tables → Option Tables
unfolding is_intact
checked t = if is_intact t then some t else none

unfoldable pub delete_ingestions : Str → Tables → Tables
unfolding str_eq
delete_ingestions repo_id t = record t {
  ingestions = filter (λ i. not (str_eq i.repo_id repo_id)) t.ingestions;
}

unfoldable pub delete_scores : Str → Tables → Tables
unfolding str_eq
delete_scores repo_id t = record t {
  scores = filter (λ s. not (str_eq s.repo_id repo_id)) t.scores;
}

unfoldable pub delete_deltas : Str → Tables → Tables
unfolding str_eq
delete_deltas repo_id t = record t {
  deltas = filter (λ d. not (str_eq d.repo_id repo_id)) t.deltas;
}

unfoldable pub delete_baselines : Str → Tables → Tables
unfolding str_eq
delete_baselines repo_id t = record t {
  baselines = filter (λ b. not (str_eq b.repo_id repo_id)) t.baselines;
}

unfoldable pub delete_snapshots : Str → Tables → Tables
unfolding str_eq
delete_snapshots repo_id t = record t {
  snapshots = filter (λ s. not (str_eq s.repo_id repo_id)) t.snapshots;
}

unfoldable pub delete_repositories : Str → Tables → Tables
unfolding str_eq
delete_repositories repo_id t = record t {
  repositories = filter (λ r. not (str_eq r.id repo_id)) t.repositories;
}

-- "Delete in FK dependency order"
unfoldable pub queries : List (Str → Tables → Tables)
unfolding delete_ingestions delete_scores delete_deltas delete_baselines delete_snapshots
    delete_repositories
queries =
    delete_ingestions ∷ delete_scores ∷ delete_deltas ∷ delete_baselines ∷ delete_snapshots
    ∷ delete_repositories ∷ []

-- The loop within the transaction.
unfoldable pub exec_all : Str → List (Str → Tables → Tables) → Tables → Option Tables
unfolding checked
exec_all repo_id [] t = some t
exec_all repo_id (q ∷ qs) t = elim (checked (q repo_id t)) [
  | none ↦ none
  | some t' ↦ exec_all repo_id qs t'
]

-- Service.DeleteRepo, and whether it succeeds; an error rolls back.
unfoldable pub delete_repo : Str → Tables → Bool × Tables
unfolding queries exec_all
delete_repo repo_id t = elim (exec_all repo_id queries t) [
  | none ↦ (false, t)
  | some t' ↦ (true, t')
]
