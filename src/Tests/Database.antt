-- ===== src/Tests/Database.antt =====
-- A backend for the ingestion service and the API: maps, with drawn row identifiers that begin with
-- 'r', which no blob does. A snapshot is encoded as its identifier.
use toposcope.Base.{
  ℕ, ◌+◌, ◌≡◌, refl, arith, Bool, true, false, [], ◌∷◌, ◌++◌, Option, none, some, Str, Dict, codes,
  str_eq, str_eq_iff, lookup, insert, lookup-insert, ◌==◌, if◌then◌else◌, Bool-cases, inl, inr,
}
use toposcope.Base.Int.{ℤ}
use toposcope.Graph.{Snapshot}
use toposcope.Ingestion.{Status, BaselineQuery, Scored, Backend}
use toposcope.Ingestion.Outcome.{Observes}
use toposcope.Ingestion.Blobs.{DrawsIds}
use toposcope.Api.Snapshots.{SnapshotMeta}
use toposcope.Api.Snapshots.Laws.{Persists}
use toposcope.Tests.Samples.{base, head}

pub record Database : Type 0 where
  pub runs : Dict Status
  pub blobs : Dict Str
  pub rows : Dict SnapshotMeta
  pub baselines : Dict Str
  pub drawn : ℕ

abbrev pub no_data : Database
no_data = record { runs = []; blobs = []; rows = []; baselines = []; drawn = 0 }

abbrev is_row : Str → Bool
is_row [] = false
is_row (c ∷ s) = c == b'r'

abbrev blob_key : Str → Str → Str
blob_key tenant_id id = tenant_id ++ b'/' ∷ id

abbrev decode : Str → Option Snapshot
decode bytes =
    if str_eq bytes (codes "base")
    then some base
    else if str_eq bytes (codes "head")
    then some head
    else none

abbrev as_query : Option Str → BaselineQuery
as_query none = BaselineQuery.no_rows
as_query (some id) = if is_row id then BaselineQuery.found id else BaselineQuery.query_failed

abbrev pub run_id : Str
run_id = codes "run"

abbrev pub database : Backend Database ℤ
database = record {
  insert_ingestion =
      λ req key d. (some run_id, record d { runs = insert run_id Status.queued d.runs });
  set_status = λ i st m d. (true, record d { runs = insert i st d.runs });
  finalize = λ i h x s d. (true, record d { runs = insert i Status.completed d.runs });
  find_baseline = λ r d. as_query (lookup r d.baselines);
  set_baseline = λ r i d. (true, record d { baselines = insert r i d.baselines });
  insert_snapshot = λ r d.
      let id = b'r' ∷ d.drawn ∷ [] in
      (
        some id,
        record d {
          rows = insert id (record { tenant_id = r.tenant_id; storage_ref = r.storage_ref }) d.rows;
          drawn = d.drawn + 1;
        },
      );
  insert_delta = λ r d. (some (codes "delta row"), d);
  insert_score = λ r d. (some (codes "score row"), d);
  update_score = λ i t g x y z d. (true, d);
  put_snapshot = λ t i y d.
      if is_row i then (false, d) else (true, record d { blobs = insert (blob_key t i) y d.blobs });
  get_snapshot = λ t i d. if is_row i then none else lookup (blob_key t i) d.blobs;
  put_delta = λ t i y d. (true, d);
  extract = λ commit d. if str_eq commit [] then some base else some head;
  elapsed_ms = 7;
  scorer = some (λ base head delta. Scored.scored none);
  marshal_snapshot = λ s. some s.id;
  unmarshal_snapshot = decode;
  get_delta = λ t i d. none;
  unmarshal_delta = λ y. none;
  marshal_delta = λ x. some [];
  marshal_breakdown = λ x. some [];
  marshal_hotspots = λ x. some [];
  marshal_actions = λ x. some [];
}

abbrev pub status_in : Str → Database → Option Status
status_in i d = lookup i d.runs

abbrev pub row_in : Str → Database → Option SnapshotMeta
row_in i d = lookup i d.rows

abbrev pub baseline_in : Str → Database → Option Str
baseline_in r d = lookup r d.baselines

pub lookup_inserted : {V : Type 0} (k : Str) (v : V) (m : Dict V) → lookup k (insert k v m) ≡ some v
lookup_inserted k v m = rw (lookup-insert k k v m, (str_eq_iff k k).1 refl) refl

keeps_runs :
    (i t x y : Str) (d : Database)
    → lookup i (database.put_snapshot t x y d).1.runs ≡ lookup i d.runs
keeps_runs i t x y d = elim (Bool-cases (is_row x)) [ inl e ↦ rw e refl | inr e ↦ rw e refl ]

pub database-Observes : Observes database status_in
database-Observes = record {
  set-ok = λ i st m d h. lookup_inserted i st d.runs;
  finalize-ok = λ i h x s d e. lookup_inserted i Status.completed d.runs;
  finalize_fails = λ i h x s d e. absurd (cc e);
  keeps_baseline = λ i r x d. refl;
  keeps_snapshot = λ i r d. refl;
  keeps_delta = λ i r d. refl;
  keeps_score = λ i r d. refl;
  keeps_blob = keeps_runs;
  keeps_delta_blob = λ i t x y d. refl;
}

abbrev pub IsRow : Str → Type 0
IsRow i = is_row i ≡ true

baseline-IsRow : (o : Option Str) (i : Str) → as_query o ≡ BaselineQuery.found i → IsRow i
baseline-IsRow none i h = absurd (cc)
baseline-IsRow (some j) i h = elim (Bool-cases (is_row j)) [
  | inl e ↦ let same : j ≡ i = ground arith in rw⁻¹ same e
  | inr e ↦ absurd (cc (rw e at h))
]

pub database-DrawsIds : DrawsIds database IsRow
database-DrawsIds = record {
  of_baseline = λ r i d h. baseline-IsRow (lookup r d.baselines) i h;
  of_snapshot = λ r i d h. let same : b'r' ∷ d.drawn ∷ [] ≡ i = ground arith in rw⁻¹ same refl;
  no_blob = λ t i d h. rw h refl;
}

get-put :
    (t i y : Str) (d : Database)
    → (database.put_snapshot t i y d).0 ≡ true
    → database.get_snapshot t i (database.put_snapshot t i y d).1 ≡ some y
get-put t i y d h = elim (Bool-cases (is_row i)) [
  | inl e ↦ absurd (cc (rw e at h))
  | inr e ↦ rw e (lookup_inserted (blob_key t i) y d.blobs)
]

pub database-Persists : Persists database row_in
database-Persists = record {
  get-put = get-put;
  keeps_blobs = λ t i r d. refl;
  has_row = λ r i d h.
      let same : b'r' ∷ d.drawn ∷ [] ≡ i = ground arith in
      rw⁻¹ same (lookup_inserted (b'r' ∷ d.drawn ∷ []) _ d.rows);
}
