-- ===== src/Webhook.antt =====
-- internal/webhook/github.go: the events that GitHub sends, and their parsing. The JSON decoders are
-- an argument. The signature and the handlers are in child modules.
pub mod Signature
pub mod Handlers
pub mod Serve
use toposcope.Base.{
  Str, Bool, List, Option, none, some, ◌⊎◌, inl, inr, codes, str_eq, if◌then◌else◌,
}
use toposcope.Base.Int.{ℤ}

-- GitHubUser
pub record GithubUser : Type 0 where
  pub id : ℤ
  pub login : Str

-- GitHubRepository
pub record GithubRepository : Type 0 where
  pub id : ℤ
  pub full_name : Str
  pub default_branch : Str
  pub private_repo : Bool

pub record GitRef : Type 0 where
  pub sha : Str
  pub ref : Str
  pub repo : GithubRepository

pub record InstallationPayload : Type 0 where
  pub id : ℤ
  pub account : GithubUser

pub record InstallationEvent : Type 0 where
  pub action : Str
  pub installation : InstallationPayload
  pub sender : GithubUser

pub record InstallationRepositoriesEvent : Type 0 where
  pub action : Str
  pub installation : InstallationPayload
  pub repositories_added : List GithubRepository
  pub repositories_removed : List GithubRepository

pub record PullRequestPayload : Type 0 where
  pub number : ℤ
  pub head : GitRef
  pub base : GitRef
  pub state : Str
  pub user : GithubUser

pub record PullRequestEvent : Type 0 where
  pub action : Str
  pub number : ℤ
  pub pull_request : PullRequestPayload
  pub repository : GithubRepository
  pub installation : InstallationPayload

pub record PushEvent : Type 0 where
  pub ref : Str
  pub sha_after : Str
  pub repository : GithubRepository
  pub installation : InstallationPayload

-- The types between which ServeHTTP switches.
pub data Event : Type 0 where
  installation : InstallationEvent → Event
  installation_repositories : InstallationRepositoriesEvent → Event
  pull_request : PullRequestEvent → Event
  push : PushEvent → Event

-- json.Unmarshal at each of the types.
pub record Decoders : Type 0 where
  pub to_installation : Str → Option InstallationEvent
  pub to_installation_repositories : Str → Option InstallationRepositoriesEvent
  pub to_pull_request : Str → Option PullRequestEvent
  pub to_push : Str → Option PushEvent

pub data ParseError : Type 0 where
  bad_payload : ParseError
  unsupported : Str → ParseError

unfoldable pub parsed : {A : Type 0} → (A → Event) → Option A → ParseError ⊎ Event
parsed wrap none = inl ParseError.bad_payload
parsed wrap (some e) = inr (wrap e)

unfoldable pub parse_event : Decoders → Str → Str → ParseError ⊎ Event
unfolding str_eq parsed
parse_event ds event_type payload =
    if str_eq event_type (codes "installation")
    then parsed Event.installation (ds.to_installation payload)
    else if str_eq event_type (codes "installation_repositories")
    then parsed Event.installation_repositories (ds.to_installation_repositories payload)
    else if str_eq event_type (codes "pull_request")
    then parsed Event.pull_request (ds.to_pull_request payload)
    else if str_eq event_type (codes "push")
    then parsed Event.push (ds.to_push payload)
    else inl (ParseError.unsupported event_type)
