-- ===== src/Api/Rescore/Rows.antt =====
-- internal/api/rescore.go: what it is to rescore a row, and the steps at its end.
use toposcope.Base.{
  ℕ, ◌+◌, Str, none, some, ◌≡◌, ◌≢◌, refl, sym, ◌∙◌, ap, subst, ◌⊎◌, inl, inr, List, [], ◌∷◌, arith,
  Option-cases,
}
use toposcope.Base.Float.{Float}
use toposcope.Base.Sort.{SortSlice}
use toposcope.Graph.{Snapshot, Delta}
use toposcope.Scoring.{ScoreResult}
use toposcope.Scoring.Engine.{score, ok, default_metrics}
use toposcope.Ingestion.{Backend, IngestError}
use toposcope.Ingestion.Store.{update_score, compute_changes}
use toposcope.Api.Refs.{storage_id_from_ref}
use toposcope.Api.Rescore.{
  ScoreRefs, RescoreResponse, one_error, one_rescored, decoded_delta, load_delta, update_row,
}

module _ {D W : Type 0} ⦃fl : Float W⦄ (sort : SortSlice) (b : Backend D W) where
  -- The snapshot behind a reference.
  abbrev pub IsStored : Str → Str → D → Snapshot → Type 0
  IsStored tenant_id ref d s =
      (bytes : Str) × (b.get_snapshot tenant_id (storage_id_from_ref ref) d ≡ some bytes)
      × (b.unmarshal_snapshot bytes ≡ some s)

  abbrev pub IsStoredDelta : Str → Str → D → Delta → Type 0
  IsStoredDelta tenant_id id d delta =
      (bytes : Str) × (id ≢ [])
      × (b.get_delta tenant_id id d ≡ some bytes)
      × (b.unmarshal_delta bytes ≡ some delta)

  -- The stored delta, or what changed between the snapshots where there is none.
  abbrev pub IsDelta : Str → Str → D → Snapshot → Snapshot → Delta → Type 0
  IsDelta tenant_id id d base head delta =
      IsStoredDelta tenant_id id d delta
      ⊎ ((¬ ((old : Delta) × IsStoredDelta tenant_id id d old))
          × (delta ≡ compute_changes base head))

  -- What the stored objects of a row score to.
  abbrev pub ScoresTo : ScoreRefs → D → ScoreResult W → Type 0
  ScoresTo row d result =
      (base : Snapshot) × (head : Snapshot) × (delta : Delta) × IsStored row.tenant_id
        row.base_storage_ref d base
      × IsStored row.tenant_id row.head_storage_ref d head
      × IsDelta row.tenant_id (storage_id_from_ref row.delta_storage_ref) d base head delta
      × (score sort (default_metrics sort) (some delta) (some base) (some head) ≡ ok result)

  -- A row is rescored, or is an error: its objects have no score, and nothing is written, or the update fails.
  pub data Row (row : ScoreRefs) : ℕ → ℕ → D → D → Type 0 where
    updated :
        {d d' : D} (result : ScoreResult W)
        → ScoresTo row d result
        → update_score b row.id result d ≡ (inr tt, d')
        → Row row 1 0 d d'
    not_updated :
        {d d' : D} (result : ScoreResult W) (e : IngestError)
        → ScoresTo row d result
        → update_score b row.id result d ≡ (inl e, d')
        → Row row 0 1 d d'
    unscored : {d : D} → (¬ ((result : ScoreResult W) × ScoresTo row d result)) → Row row 0 1 d d

  -- The rows, one after the other, with how many are rescored and how many are errors.
  pub data Rescoring : List ScoreRefs → ℕ → ℕ → D → D → Type 0 where
    finished : {d : D} → Rescoring [] 0 0 d d
    then_rest :
        {row : ScoreRefs} {rows : List ScoreRefs} {d d' d'' : D} (n m n' m' : ℕ)
        → Row row n m d d'
        → Rescoring rows n' m' d' d''
        → Rescoring (row ∷ rows) (n + n') (m + m') d d''

  pub load_delta-IsDelta :
      (tenant_id id : Str) (base head : Snapshot) (d : D)
      → IsDelta tenant_id id d base head (load_delta sort b tenant_id id base head d)
  unfolding load_delta decoded_delta
  load_delta-IsDelta tenant_id [] base head d = inr (λ (old, stored). stored.1 refl, refl)
  load_delta-IsDelta tenant_id (c ∷ id) base head d =
      elim (Option-cases (b.get_delta tenant_id (c ∷ id) d)) [
        | inl p ↦
            inr (λ (old, stored). let q = stored.2 in absurd (cc (p, q)), rw (load_delta, p) refl)
        | inr (bytes, p) ↦ elim (Option-cases (b.unmarshal_delta bytes)) [
          | inl q ↦ inr (
            λ (old, stored).
                let both : some stored.0 ≡ some bytes = sym stored.2 ∙ p in
                let same : stored.0 ≡ bytes = ground arith in
                let there = subst (λ x. b.unmarshal_delta x ≡ some old) same stored.3 in
                absurd (cc (there, q)),
            rw (load_delta, p, decoded_delta, q) refl,
          )
          | inr (delta, q) ↦
              let same : load_delta sort b tenant_id (c ∷ id) base head d ≡ delta =
                rw (load_delta, p, decoded_delta, q) refl in
              inl (bytes, λ e. absurd (cc), p, q ∙ ap some (sym same))
        ]
      ]

  -- What a row adds to the response.
  abbrev pub Gives : ScoreRefs → RescoreResponse → D → RescoreResponse × D → Type 0
  Gives row resp d p =
      (n : ℕ) × (m : ℕ) × Row row n m d p.1
      × (p.0.rescored ≡ resp.rescored + n)
      × (p.0.errors ≡ resp.errors + m)

  pub update_row-Gives :
      (row : ScoreRefs) (result : ScoreResult W) (resp : RescoreResponse) (d : D)
      → ScoresTo row d result
      → Gives row resp d (update_row sort b row.id (ok result) resp d)
  unfolding update_row one_error one_rescored
  update_row-Gives row result resp d h = at (update_score b row.id result d) refl
    where
      at :
          (p : (IngestError ⊎ Unit {0}) × D)
          → update_score b row.id result d ≡ p
          → Gives row resp d (update_row sort b row.id (ok result) resp d)
      at (inl e, d') q =
          let out : update_row sort b row.id (ok result) resp d ≡ (one_error resp, d') =
            rw (update_row, q, q) refl in
          subst (Gives row resp d) (sym out) (0, 1, Row.not_updated result e h q, omega arith, refl)
      at (inr tt, d') q =
          let out : update_row sort b row.id (ok result) resp d ≡ (one_rescored resp, d') =
            rw (update_row, q, q) refl in
          subst (Gives row resp d) (sym out) (1, 0, Row.updated result h q, refl, omega arith)

  pub failed :
      (row : ScoreRefs) (resp : RescoreResponse) (d : D) (p : RescoreResponse × D)
      → p ≡ (one_error resp, d)
      → (¬ ((result : ScoreResult W) × ScoresTo row d result))
      → Gives row resp d p
  unfolding one_error
  failed row resp d p e h =
      subst (Gives row resp d) (sym e) (0, 1, Row.unscored h, omega arith, refl)

  -- A blob that is missing or cannot be read has no snapshot.
  pub missing :
      (tenant_id ref : Str) (d : D)
      → b.get_snapshot tenant_id (storage_id_from_ref ref) d ≡ none
      → ¬ ((s : Snapshot) × IsStored tenant_id ref d s)
  missing tenant_id ref d p (s, stored) = let g = stored.1 in cc (p, g)

  pub unreadable :
      (tenant_id ref : Str) (d : D) (bytes : Str)
      → b.get_snapshot tenant_id (storage_id_from_ref ref) d ≡ some bytes
      → b.unmarshal_snapshot bytes ≡ none
      → ¬ ((s : Snapshot) × IsStored tenant_id ref d s)
  unreadable tenant_id ref d bytes p q (s, stored) =
      let both : some stored.0 ≡ some bytes = sym stored.1 ∙ p in
      let same : stored.0 ≡ bytes = ground arith in
      let there = subst (λ x. b.unmarshal_snapshot x ≡ some s) same stored.2 in cc (there, q)
