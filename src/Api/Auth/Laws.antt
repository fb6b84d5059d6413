-- ===== src/Api/Auth/Laws.antt =====
-- internal/api/middleware.go: who may write.
use toposcope.Base.{
  ℕ, Str, true, ◌&&◌, [], ◌∷◌, ◌≡◌, ◌≢◌, refl, ◌⊎◌, inl, inr, ◌↔◌, arith, str_eq, str_eq_iff,
  is_empty, codes, Bool-cases,
}
use toposcope.Api.Auth.{HttpRequest, AuthMode, HttpHandler, write_auth}

-- With an API key the header holds it, or no key is set; behind a proxy one of its headers is there.
abbrev pub MayWrite : AuthMode → Str → HttpRequest → Type 0
MayWrite AuthMode.none key r = Unit
MayWrite AuthMode.oidc key r = (r.forwarded_email ≢ []) ⊎ (r.forwarded_user ≢ [])
MayWrite (AuthMode.other mode) key r = (key ≡ []) ⊎ (r.api_key ≡ key)

is_empty_iff : (s : Str) → (is_empty s ≡ true) ↔ (s ≡ [])
unfolding is_empty
is_empty_iff [] = (λ _. refl, λ _. refl)
is_empty_iff (c ∷ s) = (λ h. absurd (cc), λ h. absurd (cc))

module _ {D R : Type 0} (error : ℕ → Str → R) where
  -- A request that may write is handled as without the wrapper. Any other is answered 401 and leaves
  -- the state as it is.
  pub write_auth_lem :
      (mode : AuthMode) (key : Str) (next : HttpHandler D R) (r : HttpRequest) (d : D)
      → (MayWrite mode key r → write_auth error mode key next r d ≡ next r d)
        × ((¬ MayWrite mode key r)
            → (message : Str) × (write_auth error mode key next r d ≡ (error 401 message, d)))
  unfolding write_auth
  write_auth_lem AuthMode.none key next r d = (λ _. refl, λ no. absurd (no tt))
  write_auth_lem AuthMode.oidc key next r d =
      elim (Bool-cases (is_empty r.forwarded_email && is_empty r.forwarded_user)) [
        | inl e ↦ (
          λ h. elim h [
            | inl p ↦ absurd (p ((is_empty_iff r.forwarded_email).0 (ground arith)))
            | inr p ↦ absurd (p ((is_empty_iff r.forwarded_user).0 (ground arith)))
          ],
          λ _. (codes "unauthorized: missing proxy auth headers", rw e refl),
        )
        | inr e ↦ (
          λ _. rw e refl,
          λ no. elim (Bool-cases (is_empty r.forwarded_email)) [
            | inl p ↦
                absurd (no (inr (λ q. let z = (is_empty_iff r.forwarded_user).1 q in ground arith)))
            | inr p ↦ absurd (no (inl (λ q. cc ((is_empty_iff r.forwarded_email).1 q))))
          ],
        )
      ]
  write_auth_lem (AuthMode.other mode) key next r d = elim (Bool-cases (is_empty key)) [
    | inl e ↦ (λ _. rw e refl, λ no. absurd (no (inl ((is_empty_iff key).0 e))))
    | inr e ↦ elim (Bool-cases (str_eq r.api_key key)) [
      | inl f ↦ (λ _. rw (e, f) refl, λ no. absurd (no (inr ((str_eq_iff r.api_key key).0 f))))
      | inr f ↦ (
        λ h. elim h [
          | inl p ↦ absurd (cc ((is_empty_iff key).1 p))
          | inr p ↦ absurd (cc ((str_eq_iff r.api_key key).1 p))
        ],
        λ _. (codes "unauthorized", rw (e, f) refl),
      )
    ]
  ]
