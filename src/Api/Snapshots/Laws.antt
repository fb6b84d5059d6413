-- ===== src/Api/Snapshots/Laws.antt =====
-- A snapshot that the ingestion service stores is the one that the API reads.
use toposcope.Base.{
  Str, true, Option, none, some, ◌≡◌, refl, sym, ap, ◌∙◌, inl, inr, arith, In, Bool-cases,
  Option-cases, lookup,
}
use toposcope.Graph.{Snapshot}
use toposcope.Cache.{SnapshotCache, put}
use toposcope.Cache
use toposcope.Cache.Laws.{IsValid, found, put_lem, found-lookup}
use toposcope.Ingestion.{IngestionRequest, SnapshotRow, Backend, ◌>>=◌, resume}
use toposcope.Ingestion.Store.{snapshot_ref, snapshot_row, store_snapshot}
use toposcope.Api.Refs.{blob_id}
use toposcope.Api.Refs.Laws.{storage_refs_lem}
use toposcope.Api.Snapshots.{
  SnapshotMeta, read_blob, read_row, decoded, after_lookup, load_snapshot,
}

-- A blob that was written is read back, writing a row changes no blob, and a row is found under its
-- identifier.
pub record Persists {D W : Type 0} (b : Backend D W) (get_row : Str → D → Option SnapshotMeta)
    : Type 0 where
  pub get-put :
      (t i y : Str) (d : D)
      → (b.put_snapshot t i y d).0 ≡ true
      → b.get_snapshot t i (b.put_snapshot t i y d).1 ≡ some y
  pub keeps_blobs :
      (t i : Str) (r : SnapshotRow) (d : D)
      → b.get_snapshot t i (b.insert_snapshot r d).1 ≡ b.get_snapshot t i d
  pub has_row :
      (r : SnapshotRow) (i : Str) (d : D)
      → (b.insert_snapshot r d).0 ≡ some i
      → get_row i (b.insert_snapshot r d).1
        ≡ some (record { tenant_id = r.tenant_id; storage_ref = r.storage_ref })

module _ {D W : Type 0} (b : Backend D W) (get_row : Str → D → Option SnapshotMeta)
    (p : Persists b get_row) where
  stored_row :
      (req : IngestionRequest) (s : Snapshot) (bytes id : Str) (d : D)
      → (store_snapshot b req s bytes d).0 ≡ inr id
      → (get_row id (store_snapshot b req s bytes d).1
          ≡ some
              (record { tenant_id = req.tenant_id; storage_ref = snapshot_ref req.tenant_id s.id }))
        × (b.get_snapshot req.tenant_id s.id (store_snapshot b req s bytes d).1 ≡ some bytes)
  unfolding store_snapshot snapshot_row ◌>>=◌ resume
  stored_row req s bytes id d h = elim (Bool-cases (b.put_snapshot req.tenant_id s.id bytes d).0) [
    | inr bad ↦ absurd (cc (rw bad at h))
    | inl good ↦
        let d1 = (b.put_snapshot req.tenant_id s.id bytes d).1 in
        elim (Option-cases (b.insert_snapshot (snapshot_row b req s) d1).0) [
          | inl bad ↦ absurd (cc (rw (good, bad) at h))
          | inr (i, e) ↦
              let same : i ≡ id = ground arith in
              rw good (
                p.has_row (snapshot_row b req s) id d1 (e ∙ ap some same),
                p.keeps_blobs req.tenant_id s.id (snapshot_row b req s) d1
                    ∙ p.get-put req.tenant_id s.id bytes d good,
              )
        ]
  ]

  -- In a cache that does not have it yet.
  load_row :
      (id t s_id bytes : Str) (s : Snapshot) (c : SnapshotCache Snapshot) (d : D)
      → ¬ In b'/' s_id
      → get_row id d ≡ some (record { tenant_id = t; storage_ref = snapshot_ref t s_id })
      → b.get_snapshot t s_id d ≡ some bytes
      → b.unmarshal_snapshot bytes ≡ some s
      → read_row b get_row id (get_row id d) c d ≡ (inr s, put id s c)
  unfolding read_row read_blob decoded
  load_row id t s_id bytes s c d n row blob codec =
      let ref : blob_id id (snapshot_ref t s_id) ≡ s_id = (storage_refs_lem t s_id id n).2 in
      rw (row, ref, blob, codec) refl

  get-miss :
      (id : Str) (c : SnapshotCache Snapshot) → found id c ≡ none → Cache.get id c ≡ (none, c)
  unfolding Cache.get
  get-miss id c h =
      let e : lookup id c.entries ≡ none = sym (found-lookup id c) ∙ h in rw (Cache.get, e) refl

  lookup-hit :
      (id : Str) (s : Snapshot) (q : Option Snapshot × SnapshotCache Snapshot) (d : D)
      → q.0 ≡ some s
      → (after_lookup b get_row id q d).0 ≡ inr s
  unfolding after_lookup
  lookup-hit id s (none, c) d h = absurd (cc)
  lookup-hit id s (some r, c) d h = let same : r ≡ s = ground arith in ap inr same

  load-hit :
      (id : Str) (s : Snapshot) (c : SnapshotCache Snapshot) (d : D)
      → found id c ≡ some s
      → (load_snapshot b get_row id c d).0 ≡ inr s
  unfolding load_snapshot
  load-hit id s c d h = lookup-hit id s (Cache.get id c) d h

  -- Where a snapshot is stored, its identifier holds no '/' and its bytes decode to it, loading the
  -- row that the store returned gives the snapshot, if the cache is valid and has nothing under that
  -- row. After that load the cache gives it in any state of the backend.
  pub store-load :
      (req : IngestionRequest) (s : Snapshot) (bytes id : Str) (c : SnapshotCache Snapshot)
      (d later : D)
      → (store_snapshot b req s bytes d).0 ≡ inr id
      → b.unmarshal_snapshot bytes ≡ some s
      → ¬ In b'/' s.id
      → IsValid c
      → found id c ≡ none
      → let out = load_snapshot b get_row id c (store_snapshot b req s bytes d).1 in
        (out.0 ≡ inr s) × ((load_snapshot b get_row id out.1 later).0 ≡ inr s)
  unfolding load_snapshot
  store-load req s bytes id c d later h codec n v miss =
      let d' = (store_snapshot b req s bytes d).1 in
      let (row, blob) = stored_row req s bytes id d h in
      let read : load_snapshot b get_row id c d' ≡ (inr s, put id s c) =
        ap (λ x. after_lookup b get_row id x d') (get-miss id c miss)
        ∙ load_row id req.tenant_id s.id bytes s c d' n row blob codec in
      (
        ap (λ x. x.0) read,
        ap (λ x. (load_snapshot b get_row id x.1 later).0) read
            ∙ load-hit id s (put id s c) later (put_lem id s c v).0,
      )
