-- ===== src/Api/Ingest/Refused.antt =====
-- internal/api/ingest.go: a request that is refused as wrong leaves nothing behind.
use toposcope.Base.{
  ℕ, Str, ◌||◌, Option, none, some, ◌≡◌, refl, sym, subst, ◌⊎◌, inl, inr, arith, is_empty,
  Bool-cases, Option-cases,
}
use toposcope.Graph.{Snapshot}
use toposcope.Ingestion.{Backend, IngestError, ◌>>=◌, resume, or_fail}
use toposcope.Api.Ingest.{
  IngestBody, Refusal, status_code, as_internal, fetch, resolve, check, handle_ingest,
}

-- A refusal with 400 leaves the state as it was, and so does a result.
abbrev KeepsOn : {D A : Type 0} → D → (Refusal ⊎ A) × D → Type 0
KeepsOn d (inr a, d') = d' ≡ d
KeepsOn d (inl r, d') = status_code r ≡ 400 → d' ≡ d

-- A refusal with 400 does; a result is free.
abbrev KeepsRefused : {D A : Type 0} → D → (Refusal ⊎ A) × D → Type 0
KeepsRefused d (inr a, d') = Unit
KeepsRefused d (inl r, d') = status_code r ≡ 400 → d' ≡ d

resume_refused :
    {D A B : Type 0} (d : D) (f : A → D → (Refusal ⊎ B) × D) (p : (Refusal ⊎ A) × D)
    → KeepsOn d p
    → ((a : A) → KeepsRefused d (f a d))
    → KeepsRefused d (resume f p)
unfolding resume
resume_refused d f (inl r, d') h k = h
resume_refused d f (inr a, d') h k = subst (λ x. KeepsRefused d (f a x)) (sym h) (k a)

bind_refused :
    {D A B : Type 0} (d : D) (m : D → (Refusal ⊎ A) × D) (f : A → D → (Refusal ⊎ B) × D)
    → KeepsOn d (m d)
    → ((a : A) → KeepsRefused d (f a d))
    → KeepsRefused d ((m >>= f) d)
unfolding ◌>>=◌
bind_refused d m f h k = resume_refused d f (m d) h k

resume_last :
    {D A B : Type 0} (d : D) (f : A → D → (Refusal ⊎ B) × D) (p : (Refusal ⊎ A) × D)
    → ((r : Refusal) → p.0 ≡ inl r → status_code r ≡ 500)
    → ((a : A) (x : D) → KeepsRefused d (f a x))
    → KeepsRefused d (resume f p)
unfolding resume
resume_last d f (inl r, x) h k = λ e. let c = h r refl in absurd (omega (arith, c, e))
resume_last d f (inr a, x) h k = k a x

bind_last :
    {D A B : Type 0} (d : D) (m : D → (Refusal ⊎ A) × D) (f : A → D → (Refusal ⊎ B) × D)
    → ((r : Refusal) → (m d).0 ≡ inl r → status_code r ≡ 500)
    → ((a : A) (x : D) → KeepsRefused d (f a x))
    → KeepsRefused d ((m >>= f) d)
unfolding ◌>>=◌
bind_last d m f h k = resume_last d f (m d) h k

ensured_code :
    (o : Option (Str × Str)) (r : Refusal)
    → or_fail Refusal.ensure_failed o ≡ inl r
    → status_code r ≡ 500
ensured_code none r h = let same : Refusal.ensure_failed ≡ r = ground arith in rw⁻¹ same refl
ensured_code (some ids) r h = absurd (cc)

refused_eq :
    {D A : Type 0} (d : D) (p : (Refusal ⊎ A) × D) (r : Refusal)
    → KeepsRefused d p
    → p.0 ≡ inl r
    → status_code r ≡ 400
    → p.1 ≡ d
refused_eq d (inl q, d') r h e c = let same : q ≡ r = ground arith in h (rw same c)
refused_eq d (inr a, d') r h e c = absurd (cc)

as_internal_refused :
    {D A : Type 0} (d : D) (p : (IngestError ⊎ A) × D) → KeepsRefused d (as_internal p)
unfolding as_internal
as_internal_refused d (inl e, d') = λ h. absurd (omega arith)
as_internal_refused d (inr a, d') = tt

module _ {D W : Type 0} (b : Backend D W)
    (ensure_tenant_and_repo : Str → Str → Str → D → Option (Str × Str) × D)
    (parse_time : Str → Option ℕ) where
  resolve_keeps :
      (id : Str) (s : Option Snapshot) (d : D)
      → KeepsOn d (resolve b ensure_tenant_and_repo parse_time id s d)
  unfolding resolve
  resolve_keeps id (some s) d = refl
  resolve_keeps id none d = elim (Bool-cases (is_empty id)) [
    | inl e ↦ rw e refl
    | inr e ↦ elim (Option-cases (fetch b ensure_tenant_and_repo parse_time id d)) [
      | inl f ↦ rw (e, resolve, f) (λ _. refl)
      | inr (s, f) ↦ rw (e, resolve, f) refl
    ]
  ]

  check_keeps :
      (body : IngestBody W) (s : Option Snapshot) (d : D)
      → KeepsOn d (check b ensure_tenant_and_repo parse_time body s d)
  unfolding check
  check_keeps body none d = λ _. refl
  check_keeps body (some s) d =
      elim (Bool-cases (is_empty body.repo_full_name || is_empty body.commit_sha)) [
        | inl e ↦ rw e (λ _. refl)
        | inr e ↦ rw e refl
      ]

  -- A request that is refused with 400 (a reference that cannot be read, or a missing field) leaves
  -- the state of the backend as it was.
  pub handle_ingest_refused :
      (body : IngestBody W) (d : D) (r : Refusal)
      → (handle_ingest b ensure_tenant_and_repo parse_time body d).0 ≡ inl r
      → status_code r ≡ 400
      → (handle_ingest b ensure_tenant_and_repo parse_time body d).1 ≡ d
  unfolding handle_ingest
  handle_ingest_refused body d r =
      refused_eq d (handle_ingest b ensure_tenant_and_repo parse_time body d) r (
        bind_refused d _ _ (resolve_keeps body.snapshot_id body.snapshot d) (λ given.
          bind_refused d _ _ (resolve_keeps body.base_snapshot_id body.base_snapshot d) (λ base.
            bind_refused d _ _ (check_keeps body given d)
              (λ head. bind_last d _ _ (ensured_code _) (λ ids x. as_internal_refused d _)))))
