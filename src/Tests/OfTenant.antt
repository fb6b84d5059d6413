-- ===== src/Tests/OfTenant.antt =====
-- internal/tenant on tables of two repositories.
use toposcope.Base.{◌≡◌, refl, Str, str_eq, true, false, [], ◌∷◌, Option, none, some, codes}
use toposcope.Tenant.{Tables}
use toposcope.Tenant.Delete.{is_intact, delete_repo}
use toposcope.Tenant.Delete.Keys.{IsIntact, is_intact_iff}
use toposcope.Tenant.Delete.Laws.{without, delete_repo_lem}
use toposcope.Tenant.Ensure.{ensure_tenant_and_repo}
use toposcope.Tenant.Ensure.Statements.{all_up, row_of}
use toposcope.Tenant.Ensure.Laws.{IsEnsured, ensure-IsEnsured}

-- The repository "r" has a score of its two snapshots; "q" has a snapshot.
abbrev two_repos : Tables
two_repos = record {
  tenants =
      record { id = codes "t"; display_name = codes "acme"; github_installation_id = none } ∷ [];
  repositories =
      row_of (codes "q") (codes "t") (codes "acme/q") (codes "main")
      ∷ row_of (codes "r") (codes "t") (codes "acme/r") (codes "main")
      ∷ [];
  snapshots =
      record { id = codes "s0"; repo_id = codes "q" }
      ∷ record { id = codes "s1"; repo_id = codes "r" }
      ∷ record { id = codes "s2"; repo_id = codes "r" }
      ∷ [];
  baselines = record { repo_id = codes "r"; snapshot_id = codes "s1" } ∷ [];
  deltas =
      record {
        id = codes "d";
        repo_id = codes "r";
        base_snapshot_id = codes "s1";
        head_snapshot_id = codes "s2";
      }
      ∷ [];
  scores =
      record {
        id = codes "c";
        repo_id = codes "r";
        base_snapshot_id = codes "s1";
        head_snapshot_id = codes "s2";
        delta_id = codes "d";
      }
      ∷ [];
  ingestions =
      record {
        repo_id = codes "r";
        snapshot_id = some (codes "s2");
        delta_id = some (codes "d");
        score_id = some (codes "c");
      }
      ∷ [];
}

two_repos-IsIntact : IsIntact two_repos
unfolding is_intact str_eq
two_repos-IsIntact = (is_intact_iff two_repos).0 refl

delete_repo_example :
    (IsIntact (without (codes "r") two_repos)
      → delete_repo (codes "r") two_repos ≡ (true, without (codes "r") two_repos))
    × ((¬ IsIntact (without (codes "r") two_repos))
        → delete_repo (codes "r") two_repos ≡ (false, two_repos))
delete_repo_example = delete_repo_lem (codes "r") two_repos two_repos-IsIntact

-- What stays is intact, so the repository is deleted.
it_goes : delete_repo (codes "r") two_repos ≡ (true, without (codes "r") two_repos)
unfolding is_intact without str_eq
it_goes = delete_repo_example.0 ((is_intact_iff (without (codes "r") two_repos)).0 refl)

ensure-IsEnsured_example : IsEnsured (codes "acme") (codes "acme/r") (codes "trunk") (
    ensure_tenant_and_repo all_up
      (codes "t2")
      (codes "r2")
      (λ t. t)
      (codes "acme")
      (codes "acme/r")
      (codes "trunk")
      two_repos)
ensure-IsEnsured_example =
    ensure-IsEnsured (codes "t2") (codes "r2") (λ t. t) (codes "acme") (codes "acme/r")
      (codes "trunk") two_repos (λ t i. i)

-- A tenant that goes before the repository is written takes the foreign key with it.
gone :
    ensure_tenant_and_repo all_up
      (codes "t2")
      (codes "r2")
      (λ d. record d { tenants = []; repositories = [] })
      (codes "acme")
      (codes "acme/r")
      (codes "trunk")
      two_repos
    ≡ (none, record two_repos { tenants = []; repositories = [] })
unfolding ensure_tenant_and_repo str_eq
gone = refl

abbrev new_org : Option (Str × Str) × Tables
new_org =
    ensure_tenant_and_repo all_up (codes "t2") (codes "r2") (λ t. t) (codes "new") (codes "new/r")
      (codes "main") two_repos
