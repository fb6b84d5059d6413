-- ===== src/Tenant/Ensure/Laws.antt =====
-- internal/tenant/service.go: EnsureTenantAndRepo is a get or create.
use toposcope.Base.{
  ◌≡◌, refl, sym, ◌∙◌, ap, subst, inl, inr, Str, str_eq, str_eq_iff, In, In-append, List, [], ◌∷◌,
  Option, some, arith, Bool-cases, Option-cases,
}
use toposcope.Tenant.{Tenant, Repository, Tables}
use toposcope.Tenant.Ensure.{
  find_tenant, get_tenant_by_name, is_taken, create_tenant_by_name, upsert_row, ensure_tenant,
  ensure_tenant_and_repo,
}
use toposcope.Tenant.Ensure.Statements.{
  all_up, row_of, unnamed, taken-found, upsert_row-In, In-find_tenant, upsert_repository-some,
}

-- What EnsureTenantAndRepo finds or makes: the tenant in its table, and a repository of it with the name and the branch.
abbrev pub IsEnsured : Str → Str → Str → Option (Str × Str) × Tables → Type 0
IsEnsured org_name repo_full_name default_branch (out, d) =
    (t : Tenant) × (r : Repository) × (out ≡ some (t.id, r.id))
    × In t d.tenants
    × (t.display_name ≡ org_name)
    × In r d.repositories
    × (r.tenant_id ≡ t.id)
    × (r.full_name ≡ repo_full_name)
    × (r.default_branch ≡ default_branch)

find_tenant-name :
    (name : Str) (ts : List Tenant) (t : Tenant)
    → find_tenant name ts ≡ some t
    → t.display_name ≡ name
unfolding find_tenant
find_tenant-name name [] t e = absurd (cc)
find_tenant-name name (x ∷ ts) t e = elim (Bool-cases (str_eq x.display_name name)) [
  | inl same ↦
      let it : some x ≡ some t = rw (find_tenant, same) at e in
      let q : x ≡ t = ground arith in
      ap (λ y. y.display_name) (sym q) ∙ (str_eq_iff x.display_name name).0 same
  | inr other ↦ find_tenant-name name ts t (rw (find_tenant, other) at e)
]

-- The repository of a tenant, found or made.
ensured : Tenant → Str → Str → Str → Tables → Option (Str × Str) × Tables
ensured t new_repo full_name branch d =
    let (r, rows) = upsert_row (row_of new_repo t.id full_name branch) d.repositories in
    (some (t.id, r.id), record d { repositories = rows })

-- With the tenant in the table the repository follows.
ensured_by :
    (new_tenant new_repo : Str) (others : Tables → Tables) (org_name full_name branch : Str)
    (d d' : Tables) (t : Tenant)
    → ensure_tenant all_up new_tenant new_repo others org_name d ≡ (some t, d')
    → In t d'.tenants
    → ensure_tenant_and_repo all_up new_tenant new_repo others org_name full_name branch d
      ≡ ensured t new_repo full_name branch d'
unfolding ensure_tenant_and_repo ensured
ensured_by new_tenant new_repo others org_name full_name branch d d' t p i =
    let u = upsert_repository-some new_repo full_name branch t d' i in
    rw (ensure_tenant_and_repo, p, p, u, p, u) refl

module _ (new_tenant new_repo : Str) where
  ensure_tenant-some :
      (others : Tables → Tables) (name : Str) (d : Tables)
      → ((t : Tenant) → In t d.tenants → In t (others d).tenants)
      → (t : Tenant) × ((ensure_tenant all_up new_tenant new_repo others name d).0 ≡ some t)
        × (t.display_name ≡ name)
        × In t (ensure_tenant all_up new_tenant new_repo others name d).1.tenants
  unfolding ensure_tenant get_tenant_by_name create_tenant_by_name
  ensure_tenant-some others name d stay = elim (Option-cases (find_tenant name d.tenants)) [
    | inr (t, e) ↦ (
      t,
      rw (ensure_tenant, e) refl,
      find_tenant-name name d.tenants t e,
      rw (ensure_tenant, e) (stay t (In-find_tenant name d.tenants t e)),
    )
    | inl e ↦ elim (Bool-cases (is_taken name (others d).tenants)) [
      | inr free ↦
          let t = unnamed new_tenant name in
          (
            t,
            rw (ensure_tenant, e, free) refl,
            refl,
            rw (ensure_tenant, e, free, free)
                ((In-append t (others d).tenants (t ∷ [])).1 (inr (inl refl))),
          )
      | inl raced ↦
          let (t, f) = taken-found name (others d).tenants raced in
          (
            t,
            rw (ensure_tenant, e, create_tenant_by_name, raced, raced) f,
            find_tenant-name name (others d).tenants t f,
            rw (ensure_tenant, e, create_tenant_by_name, raced, raced)
                (In-find_tenant name (others d).tenants t f),
          )
    ]
  ]

  -- While every statement can be carried out, EnsureTenantAndRepo gives the identifiers of a tenant of the name, which
  -- is in the table, and of a repository of it, now in the table with the full name and the default branch, whatever
  -- other processes write between its look for the tenant and its next statement, as long as they remove no tenant.
  pub ensure-IsEnsured :
      (others : Tables → Tables) (org_name repo_full_name default_branch : Str) (d : Tables)
      → ((t : Tenant) → In t d.tenants → In t (others d).tenants)
      → IsEnsured org_name repo_full_name default_branch (
          ensure_tenant_and_repo all_up new_tenant new_repo others org_name repo_full_name
            default_branch d)
  unfolding ensured
  ensure-IsEnsured others org_name repo_full_name default_branch d stay =
      let (t, e, named, there) = ensure_tenant-some others org_name d stay in
      let d' = (ensure_tenant all_up new_tenant new_repo others org_name d).1 in
      let (i, (a, b, c)) =
        upsert_row-In new_repo new_repo t.id repo_full_name default_branch d'.repositories in
      let out =
        ensured_by new_tenant new_repo others org_name repo_full_name default_branch d d' t
          (ap (λ x. (x, d')) e) there in
      subst (IsEnsured org_name repo_full_name default_branch) (sym out)
        (t, _, refl, there, named, i, a, b, c)

module _ (new_tenant new_repo org_name full_name branch : Str) (d : Tables) where
  abbrev alone : Option (Str × Str) × Tables
  alone = ensure_tenant_and_repo all_up new_tenant new_repo (λ t. t) org_name full_name branch d
