-- ===== src/Gateway/Server/Access.antt =====
-- Which requests services/gateway/src/server.ts lets through to a service.
use finlytic_ecosystem.Prelude.{
  ℕ, ◌≡◌, refl, true, false, Option, none, some, arith, Option-cases, Bool-cases, inl, inr, ◌⊎◌,
}
use finlytic_ecosystem.Prelude.Text.{Text}
use finlytic_ecosystem.Gateway.Config.{GatewayConfig}
use finlytic_ecosystem.Gateway.RateLimit.{Counters, check, window_default}
use finlytic_ecosystem.Gateway.Jwt.{AuthenticatedUser, Verdict, accepted, rejected, TokenError}
use finlytic_ecosystem.Gateway.Jwt.Sound.{IsVerified, verify_access_token_iff}
use finlytic_ecosystem.Gateway.Routes.{Route, build_routes, match_route}
use finlytic_ecosystem.Gateway.Server.{
  Request, Platform, process_exit, proxied, bearer_token, client_of, method_of, url_of, stripped,
  is_health, verdict_of, handle, handle_pathname, handle_limited, handle_route, handle_static,
}

module _ (platform : Platform) (config : GatewayConfig) (now : ℕ) where
  -- A request is forwarded only below its limit, only to a listed route that its path matches, and,
  -- where the route wants a user, only with a bearer token that verifies.
  pub record IsForwarded (req : Request) (counters : Counters) (target path : Text) : Type 0 where
    pub pathname : Text
    pub parsed : platform.pathname_of (url_of req) ≡ some pathname
    pub allowed :
        (check window_default (client_of req) (method_of req) pathname now counters).0.allowed
        ≡ true
    pub route : Route
    pub routed : match_route (build_routes config) pathname ≡ some route
    pub to_target : target ≡ route.target
    pub to_path : path ≡ stripped route.strip_prefix (url_of req)
    pub authorised :
        (route.requires_auth ≡ false)
        ⊎ ((token : Text) × (user : AuthenticatedUser) × (bearer_token req.authorization
              ≡ some token)
            × IsVerified platform.crypto config now token user)

  accepted_token :
      (o : Option Text) (user : AuthenticatedUser)
      → verdict_of platform config now o ≡ accepted user
      → (token : Text) × (o ≡ some token) × IsVerified platform.crypto config now token user
  unfolding verdict_of
  accepted_token none user h = absurd (cc)
  accepted_token (some token) user h =
      (token, refl, (verify_access_token_iff platform.crypto config now token user).0 h)

  Verdict-cases :
      (v : Verdict)
      → ((u : AuthenticatedUser) × (v ≡ accepted u)) ⊎ ((e : TokenError) × (v ≡ rejected e))
  Verdict-cases (accepted u) = inl (u, refl)
  Verdict-cases (rejected e) = inr (e, refl)

  static-ne-proxied :
      (root : Option Text) (pathname : Text) (req : Request) (target path : Text)
      → ¬ (handle_static platform config now root pathname req ≡ proxied target path)
  unfolding handle_static
  static-ne-proxied none pathname req target path h = cc
  static-ne-proxied (some root) pathname req target path h = ground arith

  route-IsForwarded :
      (route : Route) (pathname : Text) (req : Request) (target path : Text)
      → handle_route platform config now (some route) pathname req ≡ proxied target path
      → (target ≡ route.target)
        × (path ≡ stripped route.strip_prefix (url_of req))
        × ((route.requires_auth ≡ false)
            ⊎ ((token : Text) × (user : AuthenticatedUser) × (bearer_token req.authorization
                  ≡ some token)
                × IsVerified platform.crypto config now token user))
  unfolding handle_route
  route-IsForwarded route pathname req target path h = elim (Bool-cases route.requires_auth) [
    | inr open_to_all ↦ (ground arith, ground arith, inl open_to_all)
    | inl wants_user ↦
        elim (Verdict-cases (verdict_of platform config now (bearer_token req.authorization))) [
          | inr (e, refused) ↦ absurd (ground (arith, wants_user, refused))
          | inl (user, fine) ↦
              let (token, given, verified) =
                accepted_token (bearer_token req.authorization) user fine in
              (
                ground (arith, wants_user, fine),
                ground (arith, wants_user, fine),
                inr (token, user, given, verified),
              )
        ]
  ]

  handle-IsForwarded_at :
      (req : Request) (counters : Counters) (target path pathname : Text)
      → platform.pathname_of (url_of req) ≡ some pathname
      → handle_limited platform config now
          (check window_default (client_of req) (method_of req) pathname now counters).0
          pathname
          req
        ≡ proxied target path
      → IsForwarded req counters target path
  unfolding handle_limited handle_route
  handle-IsForwarded_at req counters target path pathname parsed h =
      elim (Bool-cases
        (check window_default (client_of req) (method_of req) pathname now counters).0.allowed) [
          | inr refused ↦ absurd (ground (arith, refused))
          | inl allowed ↦ elim (Option-cases (match_route (build_routes config) pathname)) [
            | inl unlisted ↦ absurd (
                static-ne-proxied config.web_root pathname req target path
                  (ground (arith, allowed, unlisted)))
            | inr (route, routed) ↦
                let (t, p, a) =
                  route-IsForwarded route pathname req target path
                    (ground (arith, allowed, routed)) in
                record {
                  pathname = pathname;
                  parsed = parsed;
                  allowed = allowed;
                  route = route;
                  routed = routed;
                  to_target = t;
                  to_path = p;
                  authorised = a;
                }
          ]
        ]

  -- A request reaches a service only below its rate limit, by a listed route that its path matches,
  -- and, where the route wants a user, with a bearer token that verifies.
  pub handle-IsForwarded :
      (req : Request) (counters : Counters) (target path : Text)
      → (handle platform config now req counters).0 ≡ proxied target path
      → IsForwarded req counters target path
  unfolding handle handle_pathname
  handle-IsForwarded req counters target path h =
      elim (Option-cases (platform.pathname_of (url_of req))) [
        | inl bad ↦ absurd (ground (arith, bad))
        | inr (pathname, parsed) ↦
            handle-IsForwarded_at req counters target path pathname parsed
              (ground (arith, parsed, h))
      ]

-- Every request whose URL the parser rejects, other than GET /health, ends the process, before any
-- limit is consulted and whoever sends it.
handle_unparsed :
    (platform : Platform) (config : GatewayConfig) (now : ℕ) (req : Request) (counters : Counters)
    → is_health req ≡ false
    → platform.pathname_of (url_of req) ≡ none
    → handle platform config now req counters ≡ (process_exit, counters)
unfolding handle handle_pathname
handle_unparsed platform config now req counters other bad = ground (arith, other, bad)
