-- ===== src/Webhook/Serve.antt =====
-- internal/webhook/handler.go: ServeHTTP. What reading the body gives is a part of the request.
pub mod Laws
use toposcope.Base.{
  ℕ, Str, Option, none, some, ◌⊎◌, inl, inr, codes, str_eq, is_empty, take, if◌then◌else◌,
}
use toposcope.Webhook.{Event, Decoders, ParseError, parse_event}
use toposcope.Webhook.Signature.{Crypto, SignatureError, verify_signature}
use toposcope.Webhook.Handlers.{
  Services, HandleError, handle_installation, handle_installation_repositories, handle_pull_request,
  handle_push,
}

-- The bytes of the body are `none` where reading them fails.
pub record Request : Type 0 where
  pub method : Str
  pub body : Option Str
  pub signature : Str
  pub event_type : Str

-- 202 with the status "accepted", or http.Error with a code and a message.
pub data Response : Type 0 where
  accepted : Response
  refused : ℕ → Str → Response

-- 10 << 20
abbrev pub body_limit : ℕ
body_limit = 10485760

module _ (c : Crypto) (ds : Decoders) {D : Type 0} (svc : Services D) (secret : Str) where
  -- The switch over the type of the event.
  unfoldable pub dispatch : Event → D → Option HandleError × D
  unfolding handle_installation handle_installation_repositories handle_pull_request handle_push
  dispatch (Event.installation e) d = handle_installation svc e d
  dispatch (Event.installation_repositories e) d = handle_installation_repositories svc e d
  dispatch (Event.pull_request e) d = handle_pull_request svc e d
  dispatch (Event.push e) d = handle_push svc e d

  unfoldable pub respond : Option HandleError × D → Response × D
  respond (none, d) = (Response.accepted, d)
  respond (some err, d) = (Response.refused 500 (codes "internal error"), d)

  unfoldable pub serve_event : ParseError ⊎ Event → D → Response × D
  unfolding dispatch respond
  serve_event (inl err) d = (Response.refused 400 (codes "unsupported event"), d)
  serve_event (inr event) d = respond (dispatch event d)

  -- What follows once the signature is verified.
  unfoldable pub serve_verified : Str → Str → Option SignatureError → D → Response × D
  unfolding is_empty parse_event serve_event
  serve_verified body event_type (some err) d =
      (Response.refused 401 (codes "invalid signature"), d)
  serve_verified body event_type none d =
      if is_empty event_type
      then (Response.refused 400 (codes "missing X-GitHub-Event header"), d)
      else serve_event (parse_event ds event_type body) d

  unfoldable pub serve_body : Request → Option Str → D → Response × D
  unfolding verify_signature serve_verified
  serve_body r none d = (Response.refused 400 (codes "failed to read body"), d)
  serve_body r (some bytes) d =
      let body = take body_limit bytes in
      serve_verified body r.event_type (verify_signature c body r.signature secret) d

  -- Handler.ServeHTTP
  unfoldable pub serve : Request → D → Response × D
  unfolding str_eq serve_body
  serve r d =
      if str_eq r.method (codes "POST")
      then serve_body r r.body d
      else (Response.refused 405 (codes "method not allowed"), d)
