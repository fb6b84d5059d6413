-- ===== src/Webhook/Serve/Laws.antt =====
-- internal/webhook/handler.go: what ServeHTTP requires of a request before it acts on it.
use toposcope.Base.{
  ℕ, Str, Option, none, some, ◌≡◌, refl, ◌⊎◌, inl, inr, ◌++◌, codes, str_eq, str_eq_iff, take, drop,
  has_prefix, has_prefix_iff, Bool-cases, Option-cases, ap, subst,
}
use toposcope.Webhook.{Decoders}
use toposcope.Webhook.Signature.{Crypto, IsCrypto, verify_signature, compare_mac}
use toposcope.Webhook.Handlers.{Services}
use toposcope.Webhook.Serve.{Request, Response, body_limit, serve_verified, serve_body, serve}

-- The signature is "sha256=" and the hexadecimal MAC of the bytes.
abbrev pub IsSigned : Crypto → Str → Str → Str → Type 0
IsSigned c secret signature bytes =
    (hex : Str) × (signature ≡ codes "sha256=" ++ hex)
    × (c.decode_hex hex ≡ some (c.mac_of secret bytes))

compare_mac_lem :
    (c : Crypto) (l : IsCrypto c) (payload secret : Str) (sig : Option Str)
    → compare_mac c payload secret sig ≡ none
    → sig ≡ some (c.mac_of secret payload)
unfolding compare_mac
compare_mac_lem c l payload secret none h = absurd (cc)
compare_mac_lem c l payload secret (some sig) h =
    elim (Bool-cases (c.mac_equal sig (c.mac_of secret payload))) [
      | inl e ↦ ap some (l.mac_equal-sound sig (c.mac_of secret payload) e)
      | inr e ↦ absurd (cc (rw e at h))
    ]

verify_signature_lem :
    (c : Crypto) (l : IsCrypto c) (payload signature secret : Str)
    → verify_signature c payload signature secret ≡ none
    → IsSigned c secret signature payload
unfolding verify_signature
verify_signature_lem c l payload signature secret h =
    elim (Bool-cases (has_prefix signature (codes "sha256="))) [
      | inl e ↦
          let (hex, p) = (has_prefix_iff signature (codes "sha256=")).0 e in
          let found =
            compare_mac_lem c l payload secret (c.decode_hex (drop 7 signature)) (rw e at h) in
          (hex, p, subst (λ s. c.decode_hex (drop 7 s) ≡ some (c.mac_of secret payload)) p found)
      | inr e ↦ absurd (cc (rw e at h))
    ]

-- A POST whose body, cut off at the limit, carries a valid signature.
pub record IsGenuine (c : Crypto) (secret : Str) (r : Request) : Type 0 where
  pub is_post : r.method ≡ codes "POST"
  pub bytes : Str
  pub is_body : r.body ≡ some bytes
  pub is_signed : IsSigned c secret r.signature (take body_limit bytes)

module _ (c : Crypto) (l : IsCrypto c) (ds : Decoders) {D : Type 0} (svc : Services D)
    (secret : Str) where
  abbrev Refuses : D → Response × D → Type 0
  Refuses d out =
      (out.1 ≡ d) × ((code : ℕ) × ((message : Str) × (out.0 ≡ Response.refused code message)))

  serve_body_lem :
      (r : Request) (d : D)
      → r.method ≡ codes "POST"
      → IsGenuine c secret r ⊎ Refuses d (serve_body c ds svc secret r r.body d)
  unfolding serve_body serve_verified
  serve_body_lem r d post = elim (Option-cases r.body) [
    | inl e ↦ inr (rw e (refl, (400, (codes "failed to read body", refl))))
    | inr (bytes, e) ↦
        elim (Option-cases (verify_signature c (take body_limit bytes) r.signature secret)) [
          | inl ok ↦ inl (record {
            is_post = post;
            bytes = bytes;
            is_body = e;
            is_signed = verify_signature_lem c l (take body_limit bytes) r.signature secret ok;
          })
          | inr (err, bad) ↦
              inr (rw (e, serve_body, bad) (refl, (401, (codes "invalid signature", refl))))
        ]
  ]

  -- With a comparison of MACs that accepts equal ones only, each request is either a POST whose body
  -- carries a valid signature under the secret, or it is refused and the state stays as it is.
  pub serve-IsGenuine :
      (r : Request) (d : D)
      → IsGenuine c secret r
        ⊎ (((serve c ds svc secret r d).1 ≡ d)
            × ((code : ℕ) × ((message : Str) × ((serve c ds svc secret r d).0
                    ≡ Response.refused code message))))
  unfolding serve
  serve-IsGenuine r d = elim (Bool-cases (str_eq r.method (codes "POST"))) [
    | inl e ↦ rw e (serve_body_lem r d ((str_eq_iff r.method (codes "POST")).0 e))
    | inr e ↦ inr (rw e (refl, (405, (codes "method not allowed", refl))))
  ]
