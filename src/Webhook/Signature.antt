-- ===== src/Webhook/Signature.antt =====
-- internal/webhook/github.go: VerifySignature. HMAC-SHA256, its comparison and the hexadecimal
-- decoder are arguments.
use toposcope.Base.{
  Str, Bool, Option, none, some, true, ◌≡◌, codes, drop, has_prefix, if◌then◌else◌,
}

pub record Crypto : Type 0 where
  -- the MAC of a payload under a secret
  pub mac_of : Str → Str → Str
  -- hmac.Equal
  pub mac_equal : Str → Str → Bool
  -- hex.DecodeString
  pub decode_hex : Str → Option Str

-- hmac.Equal reports whether two MACs are equal.
pub record IsCrypto (c : Crypto) : Type 0 where
  pub mac_equal-sound : (s t : Str) → c.mac_equal s t ≡ true → s ≡ t

pub data SignatureError : Type 0 where
  invalid_format undecodable mismatch : SignatureError

unfoldable pub compare_mac : Crypto → Str → Str → Option Str → Option SignatureError
compare_mac c payload secret none = some SignatureError.undecodable
compare_mac c payload secret (some sig) =
    if c.mac_equal sig (c.mac_of secret payload) then none else some SignatureError.mismatch

-- VerifySignature; `none` is the nil error.
unfoldable pub verify_signature : Crypto → Str → Str → Str → Option SignatureError
unfolding has_prefix compare_mac
verify_signature c payload signature secret =
    if has_prefix signature (codes "sha256=")
    then compare_mac c payload secret (c.decode_hex (drop 7 signature))
    else some SignatureError.invalid_format
