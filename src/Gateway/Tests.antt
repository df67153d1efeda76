-- ===== src/Gateway/Tests.antt =====
-- Runs of the request path of services/gateway on small inputs.
use finlytic_ecosystem.Prelude.{
  ℕ, ◌≡◌, ◌≤◌, ◌≢◌, ◌↔◌, ◌⊎◌, refl, true, false, Option, none, some, [], ◌∷◌, ◌++◌, arith, min,
  if◌then◌else◌,
}
use finlytic_ecosystem.Prelude.Text.{Text, codes, text_eq, text_eq_iff, starts_with}
use finlytic_ecosystem.Prelude.Split.{split, trim}
use finlytic_ecosystem.Gateway.Config.{GatewayConfig}
use finlytic_ecosystem.Gateway.RateLimit.{Counters, get, set, check, decide, prune, rule_for}
use finlytic_ecosystem.Gateway.RateLimit.Limits.{
  Hit, hit_key, hit_limit, check_hit, allowed_hits, count_hits, burst_bound,
}
use finlytic_ecosystem.Gateway.RateLimit.Retry.{check-retry}
use finlytic_ecosystem.Gateway.Jwt.{
  Json, str, num, properties, malformed, Crypto, AuthenticatedUser, accepted, verify_access_token,
  verify_segments, check_header, check_claims,
}
use finlytic_ecosystem.Gateway.Jwt.Sound.{IsVerified, verify_access_token_iff}
use finlytic_ecosystem.Gateway.Routes.{match_route}
use finlytic_ecosystem.Gateway.Static.{
  Files, FileAnswer, serve_static, mime_of, serve_static_sound, send_file, resolve_within, fallback,
  is_within, cache_control_of,
}
use finlytic_ecosystem.Gateway.Proxy.{
  IncomingHeaders, upstream_headers, get-upstream_headers, header_spec, get_header, get_incoming,
  is_dropped, forwardable, set_header,
}
use finlytic_ecosystem.Gateway.Server.{
  Request, Platform, handle, handle_pathname, handle_limited, handle_route, handle_static,
  bearer_token, verdict_of,
}
use finlytic_ecosystem.Gateway.Server.Access.{IsForwarded, handle-IsForwarded}

computed : Unit {0}
unfolding text_eq starts_with split trim get set check decide prune rule_for verify_access_token
    verify_segments check_header check_claims match_route serve_static send_file resolve_within
    fallback upstream_headers get_header get_incoming is_dropped forwardable set_header handle
    handle_pathname handle_limited handle_route handle_static bearer_token verdict_of
computed = tt

abbrev hit : Hit
hit = record {
  client = codes "10.0.0.1";
  method = codes "POST";
  pathname = codes "/api/auth/login";
  now = 1000;
}

abbrev later_hit : ℕ → Hit
later_hit now = record hit { now = now }

six_logins :
    allowed_hits 60000
      (hit_key hit)
      (hit
        ∷ later_hit 1001
        ∷ later_hit 1002
        ∷ later_hit 1003
        ∷ later_hit 1004
        ∷ later_hit 1005
        ∷ [])
      []
    ≡ 5
unfolding computed allowed_hits
six_logins = refl

burst_bound_example :
    allowed_hits 60000 (hit_key hit) (hit ∷ later_hit 1500 ∷ []) []
    ≡ min (count_hits (hit_key hit) (hit ∷ later_hit 1500 ∷ [])) (hit_limit hit)
unfolding computed
burst_bound_example = burst_bound 60000 hit (later_hit 1500 ∷ []) [] refl ((λ e. omega arith), tt)

abbrev other_hit : Hit
other_hit = record hit { client = codes "10.0.0.2" }

other_client : hit.client ≢ other_hit.client
unfolding text_eq
other_client e =
    let same : text_eq hit.client other_hit.client ≡ true =
      (text_eq_iff hit.client other_hit.client).1 e in
    absurd (cc same)

abbrev full : Counters
full = (hit_key hit, record { window_start = 1000; hits = 5 }) ∷ []

check-retry_example :
    let refusal = check_hit 60000 (later_hit 2500) full in
    (refusal.0.remaining ≡ 0)
    × (1 ≤ refusal.0.retry_after_seconds)
    × ((check_hit 60000 (later_hit 61500) refusal.1).0.allowed ≡ true)
unfolding computed
check-retry_example = check-retry 60000 (later_hit 2500) 61500 full refl (omega arith)

abbrev config : GatewayConfig
config = record {
  port = 3000;
  public_key = codes "PEM";
  issuer = codes "finlytic";
  audience = codes "web";
  user_management_url = codes "http://users";
  email_ingestion_url = codes "http://mail";
  web_root = some (codes "/srv");
}

claim : Text → Option Json
unfolding text_eq
claim name =
    if text_eq name (codes "exp")
    then some (num 20)
    else if text_eq name (codes "iss")
    then some (str (codes "finlytic"))
    else if text_eq name (codes "aud")
    then some (str (codes "web"))
    else if text_eq name (codes "sub")
    then some (str (codes "u1"))
    else if text_eq name (codes "role")
    then some (str (codes "USER"))
    else if text_eq name (codes "alg")
    then some (str (codes "RS256"))
    else none

abbrev crypto : Crypto
crypto = record {
  decode_segment = λ s. if text_eq s (codes "e") then properties claim else malformed;
  verify_rs256 = λ pem signed signature. text_eq signature (codes "s");
}

abbrev ann : AuthenticatedUser
ann = record { id = codes "u1"; role = codes "USER" }

valid_token : verify_access_token crypto config 19999 (codes "e.e.s") ≡ accepted ann
unfolding computed claim
valid_token = refl

verify_access_token_iff_example :
    (verify_access_token crypto config 19999 (codes "e.e.s") ≡ accepted ann)
    ↔ IsVerified crypto config 19999 (codes "e.e.s") ann
verify_access_token_iff_example = verify_access_token_iff crypto config 19999 (codes "e.e.s") ann

abbrev files : Files
files = record {
  decode_uri_component = λ s. some s;
  normalize = λ s. s;
  join = λ a b. a ++ b;
  resolve = λ s. s;
  extname = λ s. [];
  file_size = λ s. some 7;
}

abbrev script : FileAnswer
script = record {
  file_path = codes "/srv/assets/a";
  content_type = codes "application/octet-stream";
  content_length = 7;
  cache_control = codes "public, max-age=31536000, immutable";
}

serve_static_sound_example :
    ((is_within files (codes "/srv") script.file_path ≡ true)
      × (script.cache_control ≡ cache_control_of files (codes "/assets/a")))
    ⊎ ((script.file_path ≡ files.join (codes "/srv") (codes "index.html"))
        × (script.cache_control ≡ codes "no-cache")
        × (true ≡ true)
        × (text_eq (files.extname (codes "/assets/a")) [] ≡ true))
unfolding computed mime_of
serve_static_sound_example =
    serve_static_sound files (codes "/srv") (codes "/assets/a") true script refl

abbrev incoming : IncomingHeaders
incoming =
    (codes "host", some (codes "app" ∷ []))
    ∷ (codes "x-request-id", some (codes "forged" ∷ []))
    ∷ (codes "accept", some (codes "text/html" ∷ []))
    ∷ []

get-upstream_headers_example :
    get_header
      (codes "x-request-id")
      (upstream_headers incoming (some (codes "10.0.0.1")) (codes "id7"))
    ≡ header_spec incoming (some (codes "10.0.0.1")) (codes "id7") (codes "x-request-id")
get-upstream_headers_example =
    get-upstream_headers incoming (some (codes "10.0.0.1")) (codes "id7") (codes "x-request-id")

abbrev platform : Platform
platform = record { crypto = crypto; files = files; pathname_of = λ url. some url }

abbrev request : Request
request = record {
  method = some (codes "GET");
  url = some (codes "/api/accounts/a1");
  authorization = some (codes "Bearer e.e.s");
  accepts_html = false;
  remote_address = some (codes "10.0.0.1");
}

handle-IsForwarded_example :
    IsForwarded platform config 19999 request [] (codes "http://mail") (codes "/accounts/a1")
unfolding computed claim
handle-IsForwarded_example =
    handle-IsForwarded platform config 19999 request [] (codes "http://mail") (codes "/accounts/a1")
      refl
