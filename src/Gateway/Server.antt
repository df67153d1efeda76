-- ===== src/Gateway/Server.antt =====
-- services/gateway/src/server.ts: what becomes of one request. `URL` is a parameter; logging is left
-- out.
pub mod Access
use finlytic_ecosystem.Prelude.{
  ℕ, ◌≡◌, refl, Bool, true, false, not, ◌&&◌, ◌||◌, Option, none, some, List, [], ◌∷◌, ◌++◌,
  if◌then◌else◌, or_else, drop, length,
}
use finlytic_ecosystem.Prelude.Text.{Text, codes, text_eq, starts_with}
use finlytic_ecosystem.Prelude.Split.{trim}
use finlytic_ecosystem.Gateway.Config.{GatewayConfig}
use finlytic_ecosystem.Gateway.RateLimit.{Decision, Counters, check, window_default}
use finlytic_ecosystem.Gateway.Jwt.{
  Crypto, TokenError, missing_bearer, Verdict, accepted, rejected, verify_access_token,
}
use finlytic_ecosystem.Gateway.Routes.{Route, build_routes, match_route}
use finlytic_ecosystem.Gateway.Static.{Files, FileAnswer, serve_static}

pub record Request : Type 0 where
  pub method : Option Text
  pub url : Option Text
  pub authorization : Option Text
  pub accepts_html : Bool
  pub remote_address : Option Text

pub record Platform : Type 0 where
  pub crypto : Crypto
  pub files : Files
  -- `new URL(url, 'http://gateway.invalid').pathname`; `none` where it throws.
  pub pathname_of : Text → Option Text

pub data Outcome : Type 0 where
  health : Outcome
  -- The exception of `new URL` leaves the handler, and ends the process (main.ts).
  process_exit : Outcome
  too_many_requests : (retry_after : ℕ) → Outcome
  file_sent : FileAnswer → Outcome
  not_found : Outcome
  invalid_token : TokenError → Outcome
  proxied : (target path : Text) → Outcome

abbrev pub or_null : Text → Option Text
or_null [] = none
or_null (a ∷ s) = some (a ∷ s)

unfoldable pub bearer_token : Option Text → Option Text
bearer_token none = none
bearer_token (some header) =
    if starts_with (codes "Bearer ") header
    then or_null (trim (drop (length (codes "Bearer ")) header))
    else none

abbrev pub is_method : Request → Text → Bool
is_method req m = text_eq (or_else req.method []) m

abbrev pub method_of : Request → Text
method_of req = or_else req.method (codes "GET")

abbrev pub url_of : Request → Text
url_of req = or_else req.url (codes "/")

abbrev pub client_of : Request → Text
client_of req = or_else req.remote_address (codes "unknown")

-- `url.slice(prefix.length) || '/'`
abbrev pub stripped : Option Text → Text → Text
stripped none url = url
stripped (some prefix) url = or_else (or_null (drop (length prefix) url)) (codes "/")

-- `req.method === 'GET' && req.url === '/health'`
abbrev pub is_health : Request → Bool
is_health req = is_method req (codes "GET") && text_eq (or_else req.url []) (codes "/health")

module _ (platform : Platform) (config : GatewayConfig) (now : ℕ) where
  unfoldable pub verdict_of : Option Text → Verdict
  verdict_of none = rejected missing_bearer
  verdict_of (some token) = verify_access_token platform.crypto config now token

  abbrev pub forward : Route → Request → Outcome
  forward route req = proxied route.target (stripped route.strip_prefix (url_of req))

  abbrev pub if_accepted : Verdict → Outcome → Outcome
  if_accepted (accepted user) next = next
  if_accepted (rejected error) next = invalid_token error

  abbrev pub answer_static : Option FileAnswer → Outcome
  answer_static none = not_found
  answer_static (some answer) = file_sent answer

  unfoldable pub handle_static : Option Text → Text → Request → Outcome
  handle_static none pathname req = not_found
  handle_static (some root) pathname req =
      if is_method req (codes "GET") || is_method req (codes "HEAD")
      then answer_static (serve_static platform.files root pathname req.accepts_html)
      else not_found

  unfoldable pub handle_route : Option Route → Text → Request → Outcome
  handle_route none pathname req = handle_static config.web_root pathname req
  handle_route (some route) pathname req =
      if route.requires_auth
      then if_accepted (verdict_of (bearer_token req.authorization)) (forward route req)
      else forward route req

  unfoldable pub handle_limited : Decision → Text → Request → Outcome
  handle_limited decision pathname req =
      if not decision.allowed
      then too_many_requests decision.retry_after_seconds
      else handle_route (match_route (build_routes config) pathname) pathname req

  unfoldable pub handle_pathname : Option Text → Request → Counters → Outcome × Counters
  handle_pathname none req counters = (process_exit, counters)
  handle_pathname (some pathname) req counters =
      let (decision, counted) =
        check window_default (client_of req) (method_of req) pathname now counters in
      (handle_limited decision pathname req, counted)

  unfoldable pub handle : Request → Counters → Outcome × Counters
  handle req counters =
      if is_health req
      then (health, counters)
      else handle_pathname (platform.pathname_of (url_of req)) req counters
