-- ===== src/Api/Rescore.antt =====
-- internal/api/rescore.go: handleRescore, once the request has been decoded. The query for the rows is
-- an argument; an empty repository identifier means every row.
pub mod Rows
pub mod Laws
use toposcope.Base.{
  ℕ, ◌+◌, Str, Option, none, some, inl, inr, List, [], ◌∷◌, is_empty, if◌then◌else◌,
}
use toposcope.Base.Float.{Float}
use toposcope.Base.Sort.{SortSlice}
use toposcope.Graph.{Snapshot, Delta}
use toposcope.Scoring.{ScoreResult}
use toposcope.Scoring.Engine.{Result, ok, err, score, default_metrics}
use toposcope.Ingestion.{Backend}
use toposcope.Ingestion.Store.{update_score, compute_changes}
use toposcope.Api.Refs.{storage_id_from_ref}

-- scoreRow
pub record ScoreRefs : Type 0 where
  pub id : Str
  pub tenant_id : Str
  pub base_storage_ref : Str
  pub head_storage_ref : Str
  pub delta_storage_ref : Str

pub record RescoreResponse : Type 0 where
  pub rescored : ℕ
  pub errors : ℕ

-- resp.Errors++ and resp.Rescored++
unfoldable pub one_error : RescoreResponse → RescoreResponse
one_error resp = record resp { errors = resp.errors + 1 }

unfoldable pub one_rescored : RescoreResponse → RescoreResponse
one_rescored resp = record resp { rescored = resp.rescored + 1 }

module _ {D W : Type 0} ⦃fl : Float W⦄ (sort : SortSlice) (b : Backend D W) where
  -- The stored delta, or a new one where it is missing or cannot be read.
  unfoldable pub decoded_delta : Snapshot → Snapshot → Option Str → Delta
  unfolding compute_changes
  decoded_delta base head none = compute_changes base head
  decoded_delta base head (some bytes) = elim (b.unmarshal_delta bytes) [
    | none ↦ compute_changes base head
    | some delta ↦ delta
  ]

  unfoldable pub load_delta : Str → Str → Snapshot → Snapshot → D → Delta
  unfolding decoded_delta is_empty compute_changes
  load_delta tenant_id id base head d =
      if is_empty id
      then compute_changes base head
      else decoded_delta base head (b.get_delta tenant_id id d)

  -- The steps for a row, from its two snapshots on; each error is counted, and the next row follows.
  unfoldable pub update_row :
      Str → Result (ScoreResult W) → RescoreResponse → D → RescoreResponse × D
  unfolding one_error one_rescored update_score
  update_row id (err e) resp d = (one_error resp, d)
  update_row id (ok result) resp d =
      let (out, d') = update_score b id result d in
      elim out [ inl e ↦ (one_error resp, d') | inr u ↦ (one_rescored resp, d') ]

  unfoldable pub rescore_with :
      ScoreRefs → Snapshot → Snapshot → RescoreResponse → D → RescoreResponse × D
  unfolding load_delta storage_id_from_ref score default_metrics update_row
  rescore_with row base head resp d =
      let delta =
        load_delta row.tenant_id (storage_id_from_ref row.delta_storage_ref) base head d in
      update_row row.id (score sort (default_metrics sort) (some delta) (some base) (some head))
        resp d

  unfoldable pub rescore_head : ScoreRefs → Snapshot → RescoreResponse → D → RescoreResponse × D
  unfolding storage_id_from_ref one_error rescore_with
  rescore_head row base resp d =
      elim (b.get_snapshot row.tenant_id (storage_id_from_ref row.head_storage_ref) d) [
        | none ↦ (one_error resp, d)
        | some head_bytes ↦ elim (b.unmarshal_snapshot head_bytes) [
          | none ↦ (one_error resp, d)
          | some head ↦ rescore_with row base head resp d
        ]
      ]

  unfoldable pub rescore_row : ScoreRefs → RescoreResponse → D → RescoreResponse × D
  unfolding storage_id_from_ref one_error rescore_head
  rescore_row row resp d =
      elim (b.get_snapshot row.tenant_id (storage_id_from_ref row.base_storage_ref) d) [
        | none ↦ (one_error resp, d)
        | some base_bytes ↦ elim (b.unmarshal_snapshot base_bytes) [
          | none ↦ (one_error resp, d)
          | some base ↦ rescore_head row base resp d
        ]
      ]

  unfoldable pub rescore_rows : List ScoreRefs → RescoreResponse → D → RescoreResponse × D
  unfolding rescore_row
  rescore_rows [] resp d = (resp, d)
  rescore_rows (row ∷ rows) resp d =
      let (resp', d') = rescore_row row resp d in rescore_rows rows resp' d'

  -- Handler.handleRescore; `none` is a query that failed.
  unfoldable pub handle_rescore :
      (Option Str → D → Option (List ScoreRefs)) → Str → D → Option RescoreResponse × D
  unfolding rescore_rows is_empty
  handle_rescore query repo_id d =
      elim (query (if is_empty repo_id then none else some repo_id) d) [
        | none ↦ (none, d)
        | some rows ↦
            (let (r, d') = rescore_rows rows (record { rescored = 0; errors = 0 }) d in
              (some r, d'))
      ]
