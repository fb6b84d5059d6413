-- ===== src/Tenant/Ensure.antt =====
-- internal/tenant/service.go: GetTenantByName, CreateTenantByName, UpsertRepository and EnsureTenantAndRepo. Another
-- process may write between two statements.
pub mod Statements
pub mod Laws
use toposcope.Base.{
  Str, Bool, true, false, not, ◌&&◌, ◌||◌, List, [], ◌∷◌, ◌++◌, Option, none, some, str_eq, ◌⊎◌,
  inl, inr, if◌then◌else◌,
}
use toposcope.Base.Int.{ℤ}
use toposcope.Tenant.{Tenant, Repository, Tables}

-- Which statements the database cannot carry out, whatever the tables hold.
pub record Outages : Type 0 where
  pub get_tenant : Bool
  pub create_tenant : Bool
  pub get_again : Bool
  pub upsert : Bool

pub data CreateError : Type 0 where
  duplicate other : CreateError

unfoldable pub find_tenant : Str → List Tenant → Option Tenant
unfolding str_eq
find_tenant name [] = none
find_tenant name (t ∷ ts) = if str_eq t.display_name name then some t else find_tenant name ts

unfoldable pub get_tenant_by_name : Bool → Str → Tables → Option Tenant
unfolding find_tenant
get_tenant_by_name down name d = if down then none else find_tenant name d.tenants

-- The unique index of 000002_tenant_name_index.up.sql.
unfoldable pub is_taken : Str → List Tenant → Bool
unfolding str_eq
is_taken name [] = false
is_taken name (t ∷ ts) = elim t.github_installation_id [
  | none ↦ if str_eq t.display_name name then true else is_taken name ts
  | some installation ↦ is_taken name ts
]

unfoldable pub create_tenant_by_name : Bool → Str → Str → Tables → (CreateError ⊎ Tenant) × Tables
unfolding is_taken
create_tenant_by_name down new_id name d =
    if down
    then (inl CreateError.other, d)
    else if is_taken name d.tenants
    then (inl CreateError.duplicate, d)
    else (let t : Tenant = record {
      id = new_id;
      display_name = name;
      github_installation_id = none;
    } in
        (inr t, record d { tenants = d.tenants ++ t ∷ [] }))

-- COALESCE
unfoldable pub coalesce : Option ℤ → Option ℤ → Option ℤ
coalesce none y = y
coalesce (some x) y = some x

-- INSERT … ON CONFLICT (tenant_id, full_name) DO UPDATE … RETURNING.
unfoldable pub upsert_row : Repository → List Repository → Repository × List Repository
unfolding str_eq coalesce
upsert_row new [] = (new, new ∷ [])
upsert_row new (r ∷ rs) =
    let (row, rest) = upsert_row new rs in
    let merged = record r {
      github_repo_id = coalesce new.github_repo_id r.github_repo_id;
      default_branch = new.default_branch;
    } in
    if str_eq r.tenant_id new.tenant_id && str_eq r.full_name new.full_name
    then (merged, merged ∷ rs)
    else (row, r ∷ rest)

-- A row of the key is there: ON CONFLICT.
unfoldable pub has_row : Str → Str → List Repository → Bool
unfolding str_eq
has_row tenant_id full_name [] = false
has_row tenant_id full_name (r ∷ rs) =
    (str_eq r.tenant_id tenant_id && str_eq r.full_name full_name) || has_row tenant_id full_name rs

-- The foreign key tenant_id of 000001_initial.up.sql.
unfoldable pub has_tenant : Str → List Tenant → Bool
unfolding str_eq
has_tenant tenant_id [] = false
has_tenant tenant_id (t ∷ ts) = str_eq t.id tenant_id || has_tenant tenant_id ts

-- A row that is new is refused without its tenant.
unfoldable pub upsert_repository :
    Bool → Str → Str → Str → Option ℤ → Str → Tables → Option Repository × Tables
unfolding upsert_row has_row has_tenant
upsert_repository down new_id tenant_id full_name github_repo_id default_branch d =
    if down || not (has_row tenant_id full_name d.repositories || has_tenant tenant_id d.tenants)
    then (none, d)
    else (let (row, rows) =
          upsert_row
            (record {
              id = new_id;
              tenant_id = tenant_id;
              github_repo_id = github_repo_id;
              full_name = full_name;
              default_branch = default_branch;
            })
            d.repositories in
        (some row, record d { repositories = rows }))

module _ (down : Outages) (new_tenant new_repo : Str) (others : Tables → Tables) where
  -- "Get or create tenant": what other processes do falls between the two.
  unfoldable pub ensure_tenant : Str → Tables → Option Tenant × Tables
  unfolding get_tenant_by_name create_tenant_by_name
  ensure_tenant name d = elim (get_tenant_by_name down.get_tenant name d) [
    | some t ↦ (some t, others d)
    | none ↦
        let (out, d') = create_tenant_by_name down.create_tenant new_tenant name (others d) in
        elim out [
          | inl e ↦ elim e [
            | duplicate ↦ (get_tenant_by_name down.get_again name d', d')
            | other ↦ (none, d')
          ]
          | inr t ↦ (some t, d')
        ]
  ]

  -- EnsureTenantAndRepo, with no identifier of GitHub's.
  unfoldable pub ensure_tenant_and_repo : Str → Str → Str → Tables → Option (Str × Str) × Tables
  unfolding ensure_tenant upsert_repository
  ensure_tenant_and_repo org_name repo_full_name default_branch d =
      let (tenant, d') = ensure_tenant org_name d in
      elim tenant [
        | none ↦ (none, d')
        | some t ↦
            let (repo, d'') =
              upsert_repository down.upsert new_repo t.id repo_full_name none default_branch d' in
            elim repo [ none ↦ (none, d'') | some r ↦ (some (t.id, r.id), d'') ]
      ]
