-- ===== src/Gateway/Jwt.antt =====
-- services/gateway/src/jwt.ts. Base64url, JSON.parse and the RSA verification of node:crypto are
-- parameters; the cache of the parsed key is left out, since a parsed key depends on its text alone.
pub mod Sound
use finlytic_ecosystem.Prelude.{
  ℕ, ◌/◌, Bool, true, false, not, Option, none, some, List, [], ◌∷◌, ◌++◌, leb, if◌then◌else◌,
}
use finlytic_ecosystem.Prelude.Text.{Text, codes, text_eq}
use finlytic_ecosystem.Prelude.Split.{split, parts_list}
use finlytic_ecosystem.Gateway.Config.{GatewayConfig}

-- A value of JSON as far as the code looks at one. A number is given by its ceiling, or 0 where that
-- is negative, which decides `<= now` for the whole second `now`.
pub data Json : Type 0 where
  str : Text → Json
  num : ℕ → Json
  other : Json

-- The result of `decodeSegment`: `null` has no properties and throws when one is read. A property
-- that is absent is `none`.
pub data Decoded : Type 0 where
  malformed : Decoded
  null_value : Decoded
  properties : (Text → Option Json) → Decoded

pub record Crypto : Type 0 where
  pub decode_segment : Text → Decoded
  -- `verify('RSA-SHA256', signed, key, signature)`, with the segment of the signature.
  pub verify_rs256 : (pem signed signature : Text) → Bool

pub data TokenError : Type 0 where
  malformed_token unexpected_alg bad_signature expired bad_issuer bad_audience missing_claims :
      TokenError
  -- A SyntaxError of JSON.parse or a TypeError.
  thrown : TokenError
  missing_bearer : TokenError

pub record AuthenticatedUser : Type 0 where
  pub id : Text
  pub role : Text

pub data Verdict : Type 0 where
  accepted : AuthenticatedUser → Verdict
  rejected : TokenError → Verdict

-- `value === text`
abbrev pub is_text : Option Json → Text → Bool
is_text (some (str s)) t = text_eq s t
is_text _ t = false

-- `typeof value !== 'number' || value <= now` is the negation of this.
abbrev pub is_after : Option Json → ℕ → Bool
is_after (some (num e)) now = not (leb e now)
is_after _ now = false

abbrev pub user_of : Option Json → Option Json → Verdict
user_of (some (str sub)) (some (str role)) = accepted (record { id = sub; role = role })
user_of _ _ = rejected missing_claims

module _ (crypto : Crypto) (config : GatewayConfig) (now_ms : ℕ) where
  unfoldable pub check_claims : Decoded → Verdict
  check_claims malformed = rejected thrown
  check_claims null_value = rejected thrown
  check_claims (properties claim) =
      if not (is_after (claim (codes "exp")) (now_ms / 1000))
      then rejected expired
      else if not (is_text (claim (codes "iss")) config.issuer)
      then rejected bad_issuer
      else if not (is_text (claim (codes "aud")) config.audience)
      then rejected bad_audience
      else user_of (claim (codes "sub")) (claim (codes "role"))

  unfoldable pub check_header : Text → Text → Text → Decoded → Verdict
  check_header header payload signature malformed = rejected thrown
  check_header header payload signature null_value = rejected thrown
  check_header header payload signature (properties field) =
      if not (is_text (field (codes "alg")) (codes "RS256"))
      then rejected unexpected_alg
      else if not (crypto.verify_rs256 config.public_key (header ++ (b'.' ∷ payload)) signature)
      then rejected bad_signature
      else check_claims (crypto.decode_segment payload)

  unfoldable pub verify_segments : List Text → Verdict
  verify_segments (header ∷ payload ∷ signature ∷ []) =
      check_header header payload signature (crypto.decode_segment header)
  verify_segments _ = rejected malformed_token

  unfoldable pub verify_access_token : Text → Verdict
  verify_access_token token = verify_segments (parts_list (split b'.' token))
