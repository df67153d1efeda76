-- ===== src/Guard.antt =====
-- packages/auth-lib/src/jwt-auth.guard.ts: the check of an access token in the services. @nestjs/jwt and
-- toLowerCase are parameters.
pub mod Header
use finlytic_ecosystem.Prelude.{Option, none, some, List, [], ◌∷◌, if◌then◌else◌}
use finlytic_ecosystem.Prelude.Text.{Text, codes, text_eq}
use finlytic_ecosystem.Prelude.Split.{split}
use finlytic_ecosystem.Prelude.Effects.{Result, ok, err}
use finlytic_ecosystem.Gateway.Jwt.{AuthenticatedUser}

-- UnauthorizedException, with its message.
pub data Unauthorized : Type 0 where
  missing_access_token invalid_or_expired : Unauthorized

pub record Verifier : Type 0 where
  pub to_lower_case : Text → Text
  -- `verifyAsync`, with the subject and the role of the payload; `none` where it rejects.
  pub verify_async : Text → Option AuthenticatedUser

-- An empty string is falsy.
abbrev pub truthy : Option Text → Option Text
truthy (some (c ∷ s)) = some (c ∷ s)
truthy _ = none

-- The second of the parts.
abbrev value_of : List Text → Option Text
value_of [] = none
value_of (value ∷ others) = some value

module _ (v : Verifier) where
  abbrev of_header : Text → Option Text
  of_header header =
      if text_eq (v.to_lower_case (split b' ' header).0) (codes "bearer")
      then value_of (split b' ' header).1
      else none

  unfoldable pub extract_bearer_token : Option Text → Option Text
  extract_bearer_token none = none
  extract_bearer_token (some header) = of_header header

  abbrev verified : Option AuthenticatedUser → Result Unauthorized AuthenticatedUser
  verified none = err invalid_or_expired
  verified (some user) = ok user

  abbrev checked : Option Text → Result Unauthorized AuthenticatedUser
  checked none = err missing_access_token
  checked (some token) = verified (v.verify_async token)

  -- The user that the request gets.
  unfoldable pub can_activate : Option Text → Result Unauthorized AuthenticatedUser
  can_activate authorization = checked (truthy (extract_bearer_token authorization))
