-- ===== src/Gateway/Routes.antt =====
-- services/gateway/src/routes.ts: the route table and its matching.
use finlytic_ecosystem.Prelude.{
  Bool, true, false, ◌||◌, Option, none, some, List, [], ◌∷◌, ◌++◌, find,
}
use finlytic_ecosystem.Prelude.Text.{Text, codes, text_eq, starts_with}
use finlytic_ecosystem.Gateway.Config.{GatewayConfig}

pub record Route : Type 0 where
  pub prefix : Text
  pub target : Text
  pub requires_auth : Bool
  pub strip_prefix : Option Text

abbrev pub build_routes : GatewayConfig → List Route
build_routes config =
    record {
      prefix = codes "/api/auth";
      target = config.user_management_url;
      requires_auth = false;
      strip_prefix = some (codes "/api");
    }
    ∷ record {
      prefix = codes "/api/users";
      target = config.user_management_url;
      requires_auth = true;
      strip_prefix = some (codes "/api");
    }
    ∷ record {
      prefix = codes "/api/accounts";
      target = config.email_ingestion_url;
      requires_auth = true;
      strip_prefix = some (codes "/api");
    }
    ∷ record {
      prefix = codes "/oauth";
      target = config.email_ingestion_url;
      requires_auth = false;
      strip_prefix = none;
    }
    ∷ []

-- The boundary of a path segment: the prefix itself, or the prefix and a slash.
abbrev pub route_matches : Text → Route → Bool
route_matches pathname route =
    text_eq pathname route.prefix || starts_with (route.prefix ++ (b'/' ∷ [])) pathname

unfoldable pub match_route : List Route → Text → Option Route
match_route routes pathname = find (route_matches pathname) routes
