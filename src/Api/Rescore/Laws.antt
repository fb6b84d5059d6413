-- ===== src/Api/Rescore/Laws.antt =====
-- internal/api/rescore.go: which rows handleRescore rescores, and what the response counts.
use toposcope.Base.{
  ℕ, ◌+◌, Str, Option, none, some, ◌≡◌, refl, sym, subst, inl, inr, List, [], ◌∷◌, arith, is_empty,
  if◌then◌else◌, Option-cases,
}
use toposcope.Base.Float.{Float}
use toposcope.Base.Sort.{SortSlice}
use toposcope.Graph.{Snapshot}
use toposcope.Scoring.Engine.{score}
use toposcope.Ingestion.{Backend}
use toposcope.Api.Refs.{storage_id_from_ref}
use toposcope.Api.Rescore.{
  ScoreRefs, RescoreResponse, load_delta, rescore_with, rescore_head, rescore_row, rescore_rows,
  handle_rescore,
}
use toposcope.Api.Rescore.Rows.{
  IsStored, Rescoring, load_delta-IsDelta, Gives, update_row-Gives, failed, missing, unreadable,
}

module _ {D W : Type 0} ⦃fl : Float W⦄ (sort : SortSlice) (b : Backend D W) where
  rescore_with-Gives :
      (row : ScoreRefs) (base head : Snapshot) (resp : RescoreResponse) (d : D)
      → IsStored sort b row.tenant_id row.base_storage_ref d base
      → IsStored sort b row.tenant_id row.head_storage_ref d head
      → Gives sort b row resp d (rescore_with sort b row base head resp d)
  unfolding rescore_with score
  rescore_with-Gives row base head resp d g h =
      let id = storage_id_from_ref row.delta_storage_ref in
      update_row-Gives sort b row _ resp d (
        base,
        head,
        load_delta sort b row.tenant_id id base head d,
        g,
        h,
        load_delta-IsDelta sort b row.tenant_id id base head d,
        refl,
      )

  rescore_head-Gives :
      (row : ScoreRefs) (base : Snapshot) (resp : RescoreResponse) (d : D)
      → IsStored sort b row.tenant_id row.base_storage_ref d base
      → Gives sort b row resp d (rescore_head sort b row base resp d)
  unfolding rescore_head
  rescore_head-Gives row base resp d g =
      let id = storage_id_from_ref row.head_storage_ref in
      elim (Option-cases (b.get_snapshot row.tenant_id id d)) [
        | inl p ↦
            failed sort b row resp d _ (rw (rescore_head, p) refl)
              (λ (r, x). missing sort b row.tenant_id row.head_storage_ref d p (x.1, x.4))
        | inr (bytes, p) ↦ elim (Option-cases (b.unmarshal_snapshot bytes)) [
          | inl q ↦ failed sort b row resp d _ (rw (rescore_head, p, q) refl) (λ (r, x).
              unreadable sort b row.tenant_id row.head_storage_ref d bytes p q (x.1, x.4))
          | inr (head, q) ↦
              let out : rescore_head sort b row base resp d
                  ≡ rescore_with sort b row base head resp d =
                rw (rescore_head, p, q) refl in
              subst (Gives sort b row resp d) (sym out)
                (rescore_with-Gives row base head resp d g (bytes, p, q))
        ]
      ]

  rescore_row-Gives :
      (row : ScoreRefs) (resp : RescoreResponse) (d : D)
      → Gives sort b row resp d (rescore_row sort b row resp d)
  unfolding rescore_row
  rescore_row-Gives row resp d =
      let id = storage_id_from_ref row.base_storage_ref in
      elim (Option-cases (b.get_snapshot row.tenant_id id d)) [
        | inl p ↦
            failed sort b row resp d _ (rw (rescore_row, p) refl)
              (λ (r, x). missing sort b row.tenant_id row.base_storage_ref d p (x.0, x.3))
        | inr (bytes, p) ↦ elim (Option-cases (b.unmarshal_snapshot bytes)) [
          | inl q ↦ failed sort b row resp d _ (rw (rescore_row, p, q) refl) (λ (r, x).
              unreadable sort b row.tenant_id row.base_storage_ref d bytes p q (x.0, x.3))
          | inr (base, q) ↦
              let out : rescore_row sort b row resp d ≡ rescore_head sort b row base resp d =
                rw (rescore_row, p, q) refl in
              subst (Gives sort b row resp d) (sym out)
                (rescore_head-Gives row base resp d (bytes, p, q))
        ]
      ]

  rescore_rows-Rescoring :
      (rows : List ScoreRefs) (resp : RescoreResponse) (d : D)
      → (n : ℕ) × (m : ℕ) × Rescoring sort b rows n m d (rescore_rows sort b rows resp d).1
        × ((rescore_rows sort b rows resp d).0.rescored ≡ resp.rescored + n)
        × ((rescore_rows sort b rows resp d).0.errors ≡ resp.errors + m)
  unfolding rescore_rows
  rescore_rows-Rescoring [] resp d = (0, 0, Rescoring.finished, omega arith, omega arith)
  rescore_rows-Rescoring (row ∷ rows) resp d =
      let (n, m, one, x, y) = rescore_row-Gives row resp d in
      let p = rescore_row sort b row resp d in
      let (n', m', rest, x', y') = rescore_rows-Rescoring rows p.0 p.1 in
      (
        n + n',
        m + m',
        Rescoring.then_rest n m n' m' one rest,
        omega (arith, x, x'),
        omega (arith, y, y'),
      )

  -- The rows that are asked for: of one repository, or all of them where none is named.
  abbrev pub asked_for : Str → Option Str
  asked_for [] = none
  asked_for (c ∷ repo_id) = some (c ∷ repo_id)

  -- What handleRescore gives for what the query gave.
  abbrev pub Answers : Option (List ScoreRefs) → D → Option RescoreResponse × D → Type 0
  Answers none d (out, d') = (out ≡ none) × (d' ≡ d)
  Answers (some rows) d (out, d') =
      (resp : RescoreResponse) × (out ≡ some resp)
      × Rescoring sort b rows resp.rescored resp.errors d d'

  handled :
      (query : Option Str → D → Option (List ScoreRefs)) (repo_id : Str) (d : D)
      (o : Option (List ScoreRefs))
      → query (if is_empty repo_id then none else some repo_id) d ≡ o
      → Answers o d (handle_rescore sort b query repo_id d)
  unfolding handle_rescore
  handled query repo_id d none e = rw (handle_rescore, e) (refl, refl)
  handled query repo_id d (some rows) e =
      let start : RescoreResponse = record { rescored = 0; errors = 0 } in
      let (n, m, run, x, y) = rescore_rows-Rescoring rows start d in
      let r = rescore_rows sort b rows start d in
      let out : handle_rescore sort b query repo_id d ≡ (some r.0, r.1) =
        rw (handle_rescore, e) refl in
      let hits : n ≡ r.0.rescored = omega (arith, x) in
      let misses : m ≡ r.0.errors = omega (arith, y) in
      subst (Answers (some rows) d) (sym out) (
        r.0,
        refl,
        subst (λ k. Rescoring sort b rows k r.0.errors d r.1) hits
            (subst (λ k. Rescoring sort b rows n k d r.1) misses run),
      )

  -- handleRescore takes the rows of one repository, or all of them where none is named, in their order. It counts a row
  -- as rescored if its two snapshots are stored and can be read, and the update to what they score to, with the delta
  -- that is stored or, where there is none, what changed between the two, succeeds. Any other row is counted as an error,
  -- and does not end the loop; where it has no score it leaves the state as it is. Where the query fails there is no
  -- response, and the state stays as it is.
  pub handle_rescore_count :
      (query : Option Str → D → Option (List ScoreRefs)) (repo_id : Str) (d : D)
      → Answers (query (asked_for repo_id) d) d (handle_rescore sort b query repo_id d)
  unfolding is_empty
  handle_rescore_count query [] d = handled query [] d (query none d) refl
  handle_rescore_count query (c ∷ repo_id) d =
      handled query (c ∷ repo_id) d (query (some (c ∷ repo_id)) d) refl
