-- ===== src/Tenant/Ensure/Statements.antt =====
-- internal/tenant/service.go: what the single statements of EnsureTenantAndRepo find and write.
use toposcope.Base.{
  ◌≡◌, refl, sym, ap, inl, inr, Str, str_eq, str_eq_refl, str_eq_iff, In, true, false, ◌&&◌, List,
  [], ◌∷◌, ◌++◌, none, some, arith, Bool-cases, Option-cases,
}
use toposcope.Tenant.{Tenant, Repository, Tables}
use toposcope.Tenant.Ensure.{
  Outages, find_tenant, is_taken, coalesce, upsert_row, has_row, has_tenant, upsert_repository,
}

-- Every statement can be carried out.
abbrev pub all_up : Outages
all_up = record { get_tenant = false; create_tenant = false; get_again = false; upsert = false }

abbrev pub row_of : Str → Str → Str → Str → Repository
row_of id tenant_id full_name branch = record {
  id = id;
  tenant_id = tenant_id;
  github_repo_id = none;
  full_name = full_name;
  default_branch = branch;
}

abbrev pub unnamed : Str → Str → Tenant
unnamed id name = record { id = id; display_name = name; github_installation_id = none }

pub taken-found :
    (name : Str) (ts : List Tenant)
    → is_taken name ts ≡ true
    → (t : Tenant) × (find_tenant name ts ≡ some t)
unfolding is_taken find_tenant
taken-found name [] e = absurd (cc)
taken-found name (t ∷ ts) e = elim (Bool-cases (str_eq t.display_name name)) [
  | inl same ↦ (t, rw same refl)
  | inr other ↦
      let (x, h) = taken-found name ts (elim (Option-cases t.github_installation_id) [
        | inl bare ↦ rw (is_taken, bare, other) at e
        | inr (i, installed) ↦ rw (is_taken, installed) at e
      ]) in
      (x, rw other h)
]

pub found-append :
    (name : Str) (ts : List Tenant) (t : Tenant)
    → find_tenant name ts ≡ none
    → t.display_name ≡ name
    → find_tenant name (ts ++ t ∷ []) ≡ some t
unfolding find_tenant
found-append name [] t e n = rw ((str_eq_iff t.display_name name).1 n) refl
found-append name (x ∷ ts) t e n = elim (Bool-cases (str_eq x.display_name name)) [
  | inl same ↦ absurd (cc (rw same at e))
  | inr other ↦ rw other (found-append name ts t (rw other at e) n)
]

module _ (id id' tenant_id full_name branch : Str) where
  abbrev row : Repository
  row = row_of id tenant_id full_name branch

  abbrev Key : Repository → Type 0
  Key r = (r.tenant_id ≡ tenant_id) × (r.full_name ≡ full_name) × (r.default_branch ≡ branch)

  -- The row that comes back is in the table, with the key and the branch.
  pub upsert_row-In :
      (rs : List Repository)
      → In (upsert_row row rs).0 (upsert_row row rs).1 × Key (upsert_row row rs).0
  unfolding upsert_row
  upsert_row-In [] = (inl refl, (refl, refl, refl))
  upsert_row-In (r ∷ rs) =
      let (i, k) = upsert_row-In rs in
      elim (Bool-cases (str_eq r.tenant_id tenant_id && str_eq r.full_name full_name)) [
        | inl e ↦ rw e (
          inl refl,
          (
            (str_eq_iff r.tenant_id tenant_id).0 (ground arith),
            (str_eq_iff r.full_name full_name).0 (ground arith),
            refl,
          ),
        )
        | inr e ↦ rw e (inr i, k)
      ]

  -- Once more, it finds that row and changes nothing.
  pub upsert_row-again :
      (rs : List Repository)
      → upsert_row (row_of id' tenant_id full_name branch) (upsert_row row rs).1 ≡ upsert_row row rs
  unfolding upsert_row coalesce
  upsert_row-again [] = rw (str_eq_refl tenant_id, str_eq_refl full_name) refl
  upsert_row-again (r ∷ rs) =
      elim (Bool-cases (str_eq r.tenant_id tenant_id && str_eq r.full_name full_name)) [
        | inl e ↦ rw (e, e) refl
        | inr e ↦ rw (e, e, upsert_row-again rs) refl
      ]

pub has_tenant_of : (t : Tenant) (ts : List Tenant) → In t ts → has_tenant t.id ts ≡ true
unfolding has_tenant
has_tenant_of t [] i = elim i [ ]
has_tenant_of t (x ∷ ts) i = elim i [
  | inl e ↦ rw ((str_eq_iff x.id t.id).1 (ap (λ y. y.id) (sym e))) refl
  | inr j ↦ ground (arith, has_tenant_of t ts j)
]

pub In-find_tenant :
    (name : Str) (ts : List Tenant) (t : Tenant) → find_tenant name ts ≡ some t → In t ts
unfolding find_tenant
In-find_tenant name [] t e = absurd (cc)
In-find_tenant name (x ∷ ts) t e = elim (Bool-cases (str_eq x.display_name name)) [
  | inl same ↦
      let it : some x ≡ some t = rw (find_tenant, same) at e in
      let q : x ≡ t = ground arith in inl (sym q)
  | inr other ↦ inr (In-find_tenant name ts t (rw (find_tenant, other) at e))
]

-- With its tenant in the table the repository is written.
pub upsert_repository-some :
    (new_repo full_name branch : Str) (t : Tenant) (d : Tables)
    → In t d.tenants
    → (let (r, rows) = upsert_row (row_of new_repo t.id full_name branch) d.repositories in
        upsert_repository false new_repo t.id full_name none branch d
        ≡ (some r, record d { repositories = rows }))
unfolding upsert_repository
upsert_repository-some new_repo full_name branch t d i =
    let there = has_tenant_of t d.tenants i in
    elim (Bool-cases (has_row t.id full_name d.repositories)) [
      | inl old ↦ rw (upsert_repository, old) refl
      | inr new ↦ rw (upsert_repository, new, there) refl
    ]
