-- ===== src/Api/Auth.antt =====
-- internal/api/middleware.go: the wrappers around a handler. A handler answers and may change a
-- state; `R` is the type of its answers, and http.Error is an argument.
pub mod Laws
use toposcope.Base.{ℕ, Str, Bool, ◌&&◌, not, codes, str_eq, is_empty, if◌then◌else◌}

-- What the wrappers read of a request: absent headers are empty.
pub record HttpRequest : Type 0 where
  pub method : Str
  pub api_key : Str
  pub forwarded_email : Str
  pub forwarded_user : Str

-- AuthMode is a text: all but two values mean an API key.
pub data AuthMode : Type 0 where
  none oidc : AuthMode
  other : Str → AuthMode

abbrev pub HttpHandler : Type 0 → Type 0 → Type 0
HttpHandler D R = HttpRequest → D → R × D

module _ {D R : Type 0} (error : ℕ → Str → R) where
  -- OPTIONS is answered here; the headers that CORS sets are left out.
  unfoldable pub cors : R → HttpHandler D R → HttpHandler D R
  unfolding str_eq
  cors empty next r d = if str_eq r.method (codes "OPTIONS") then (empty, d) else next r d

  unfoldable pub api_key_auth : Str → HttpHandler D R → HttpHandler D R
  unfolding str_eq is_empty
  api_key_auth key next r d =
      if is_empty key
      then next r d
      else if str_eq r.api_key key
      then next r d
      else (error 401 (codes "unauthorized"), d)

  unfoldable pub oidc_proxy_auth : HttpHandler D R → HttpHandler D R
  unfolding is_empty
  oidc_proxy_auth next r d =
      if is_empty r.forwarded_email && is_empty r.forwarded_user
      then (error 401 (codes "unauthorized: missing proxy auth headers"), d)
      else next r d

  unfoldable pub write_auth : AuthMode → Str → HttpHandler D R → HttpHandler D R
  unfolding api_key_auth oidc_proxy_auth
  write_auth AuthMode.none key next = next
  write_auth AuthMode.oidc key next = oidc_proxy_auth next
  write_auth (AuthMode.other mode) key next = api_key_auth key next
