-- ===== src/Tests/OfWebhook.antt =====
-- internal/webhook on a service that keeps the requests in a list, and a MAC that is the text itself.
use toposcope.Base.{
  ℕ, ◌≡◌, ◌⊎◌, true, List, [], ◌∷◌, ◌++◌, none, some, Str, codes, str_eq, str_eq_iff,
}
use toposcope.Base.Int.{pos}
use toposcope.Ingestion.{IngestionRequest}
use toposcope.Webhook.{
  Decoders, GithubUser, GithubRepository, InstallationPayload, PullRequestEvent, PushEvent,
}
use toposcope.Webhook.Signature.{Crypto, IsCrypto}
use toposcope.Webhook.Handlers.{Services, handle_pull_request}
use toposcope.Webhook.Handlers.Laws.{recorded, Asks, handle_pull_request_lem}
use toposcope.Webhook.Serve.{Request, Response, serve}
use toposcope.Webhook.Serve.Laws.{IsGenuine, serve-IsGenuine}

abbrev Requests : Type 0
Requests = List IngestionRequest

abbrev services : Services Requests
services = record {
  create_tenant = λ login id d. (some (record { id = login }), d);
  get_tenant_by_installation = λ id d. some (record { id = codes "acme" });
  get_repository = λ tenant name d. some (record { id = name });
  upsert_repository = λ tenant name id branch d. (some (record { id = name }), d);
  create_ingestion = λ request d. (some request.commit_sha, request ∷ d);
}

abbrev plain_mac : Crypto
plain_mac = record {
  mac_of = λ secret payload. secret ++ payload;
  mac_equal = str_eq;
  decode_hex = λ s. some s;
}

plain_mac-IsCrypto : IsCrypto plain_mac
plain_mac-IsCrypto = record { mac_equal-sound = λ s t. (str_eq_iff s t).0 }

abbrev no_decoders : Decoders
no_decoders = record {
  to_installation = λ s. none;
  to_installation_repositories = λ s. none;
  to_pull_request = λ s. none;
  to_push = λ s. none;
}

abbrev repository : GithubRepository
repository = record {
  id = pos 7;
  full_name = codes "acme/app";
  default_branch = codes "main";
  private_repo = true;
}

abbrev user : GithubUser
user = record { id = pos 1; login = codes "acme" }

abbrev app_installation : InstallationPayload
app_installation = record { id = pos 3; account = user }

abbrev opened : PullRequestEvent
opened = record {
  action = codes "opened";
  number = pos 12;
  pull_request = record {
    number = pos 12;
    head = record { sha = codes "h1"; ref = codes "topic"; repo = repository };
    base = record { sha = codes "b1"; ref = codes "main"; repo = repository };
    state = codes "open";
    user = user;
  };
  repository = repository;
  installation = app_installation;
}

abbrev pushed : PushEvent
pushed = record {
  ref = codes "refs/heads/main";
  sha_after = codes "h2";
  repository = repository;
  installation = app_installation;
}

abbrev unsigned : Request
unsigned = record {
  method = codes "POST";
  body = some (codes "x");
  signature = codes "sha256=y";
  event_type = codes "push";
}

handle_pull_request_example :
    Asks services opened [] (handle_pull_request (recorded services) opened ([], []))
handle_pull_request_example = handle_pull_request_lem services opened []

serve-IsGenuine_example :
    IsGenuine plain_mac (codes "k") unsigned
    ⊎ (((serve plain_mac no_decoders services (codes "k") unsigned []).1 ≡ [])
        × ((code : ℕ) × ((message : Str) × ((serve plain_mac no_decoders services
                  (codes "k")
                  unsigned
                  []).0
                ≡ Response.refused code message))))
serve-IsGenuine_example =
    serve-IsGenuine plain_mac plain_mac-IsCrypto no_decoders services (codes "k") unsigned []
