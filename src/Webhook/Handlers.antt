-- ===== src/Webhook/Handlers.antt =====
-- internal/webhook/handler.go: the handlers of the four kinds of event, over the interface of the
-- tenant and the ingestion service. `D` is the state of the database. Log lines are left out.
pub mod Laws
use toposcope.Base.{
  ℕ, Str, Bool, ◌||◌, List, [], ◌∷◌, ◌++◌, Option, none, some, codes, str_eq, if◌then◌else◌,
}
use toposcope.Base.Int.{ℤ}
use toposcope.Ingestion.{IngestionRequest}
use toposcope.Webhook.{
  GithubRepository, InstallationEvent, InstallationRepositoriesEvent, PullRequestEvent, PushEvent,
}

-- tenant.Tenant and tenant.Repository, as far as the handlers read them.
pub record Tenant : Type 0 where
  pub id : Str

pub record Repository : Type 0 where
  pub id : Str

-- The methods of the two services that the handlers call; `none` is an error.
pub record Services (D : Type 0) : Type 0 where
  pub create_tenant : Str → ℤ → D → Option Tenant × D
  pub get_tenant_by_installation : ℤ → D → Option Tenant
  pub get_repository : Str → Str → D → Option Repository
  pub upsert_repository : Str → Str → Option ℤ → Str → D → Option Repository × D
  pub create_ingestion : IngestionRequest → D → Option Str × D

pub data HandleError : Type 0 where
  create_tenant_failed : ℤ → HandleError
  tenant_of_installation_failed : ℤ → HandleError
  upsert_failed : Str → HandleError
  get_tenant_failed get_repository_failed create_ingestion_failed : HandleError

-- The error of a failed call, and nil after one that succeeded.
unfoldable pub error_of : {A : Type 0} → HandleError → Option A → Option HandleError
error_of err none = some err
error_of err (some _) = none

-- The requests that the two handlers build.
abbrev pub pull_request_of : PullRequestEvent → Tenant → Repository → IngestionRequest
pull_request_of e t repo = record {
  tenant_id = t.id;
  repo_id = repo.id;
  repo_full_name = e.repository.full_name;
  commit_sha = e.pull_request.head.sha;
  base_branch = e.pull_request.base.ref;
  pr_number = some e.number;
  installation_id = e.installation.id;
  committed_at = none;
}

abbrev pub push_of : PushEvent → Tenant → Repository → IngestionRequest
push_of e t repo = record {
  tenant_id = t.id;
  repo_id = repo.id;
  repo_full_name = e.repository.full_name;
  commit_sha = e.sha_after;
  base_branch = e.repository.default_branch;
  pr_number = none;
  installation_id = e.installation.id;
  committed_at = none;
}

-- The actions that handlePullRequest does not ignore.
unfoldable pub is_handled : Str → Bool
unfolding str_eq
is_handled action =
    str_eq action (codes "opened")
    || (str_eq action (codes "synchronize") || str_eq action (codes "reopened"))

module _ {D : Type 0} (svc : Services D) where
  unfoldable pub handle_installation : InstallationEvent → D → Option HandleError × D
  unfolding str_eq error_of
  handle_installation e d =
      if str_eq e.action (codes "created")
      then (let (t, d') = svc.create_tenant e.installation.account.login e.installation.id d in
          (error_of (HandleError.create_tenant_failed e.installation.id) t, d'))
      else (none, d)

  -- The loop over the added repositories, which the first error ends.
  unfoldable pub upsert_all : Str → List GithubRepository → D → Option HandleError × D
  upsert_all tenant_id [] d = (none, d)
  upsert_all tenant_id (repo ∷ repos) d =
      let (r, d') =
        svc.upsert_repository tenant_id repo.full_name (some repo.id) repo.default_branch d in
      let rest = upsert_all tenant_id repos d' in
      elim r [ none ↦ (some (HandleError.upsert_failed repo.full_name), d') | some _ ↦ rest ]

  unfoldable pub handle_installation_repositories :
      InstallationRepositoriesEvent → D → Option HandleError × D
  unfolding upsert_all
  handle_installation_repositories e d = elim (svc.get_tenant_by_installation e.installation.id d) [
    | none ↦ (some (HandleError.tenant_of_installation_failed e.installation.id), d)
    | some t ↦ upsert_all t.id e.repositories_added d
  ]

  -- GetTenantByInstallation, GetRepository and CreateIngestion in a row, as both handlers below
  -- call them.
  unfoldable pub enqueue :
      ℤ → Str → (Tenant → Repository → IngestionRequest) → D → Option HandleError × D
  unfolding error_of
  enqueue installation_id full_name request d =
      elim (svc.get_tenant_by_installation installation_id d) [
        | none ↦ (some HandleError.get_tenant_failed, d)
        | some t ↦ elim (svc.get_repository t.id full_name d) [
          | none ↦ (some HandleError.get_repository_failed, d)
          | some r ↦
              (let (i, d') = svc.create_ingestion (request t r) d in
                (error_of HandleError.create_ingestion_failed i, d'))
        ]
      ]

  unfoldable pub handle_pull_request : PullRequestEvent → D → Option HandleError × D
  unfolding is_handled enqueue
  handle_pull_request e d =
      if is_handled e.action
      then enqueue e.installation.id e.repository.full_name (pull_request_of e) d
      else (none, d)

  unfoldable pub handle_push : PushEvent → D → Option HandleError × D
  unfolding str_eq enqueue
  handle_push e d =
      if str_eq e.ref (codes "refs/heads/" ++ e.repository.default_branch)
      then enqueue e.installation.id e.repository.full_name (push_of e) d
      else (none, d)
