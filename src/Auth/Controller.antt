-- ===== src/Auth/Controller.antt =====
-- services/user-management/src/auth/auth.controller.ts: the endpoints of the service, which carry the
-- refresh token in a cookie. Tokens as lists of code units, and back, are parameters.
pub mod Presented
use finlytic_ecosystem.Prelude.{
  ℕ, Bool, Option, none, some, List, [], ◌∷◌, ◌++◌, String, str_eq, if◌then◌else◌,
}
use finlytic_ecosystem.Prelude.Text.{Text}
use finlytic_ecosystem.Prelude.Effects.{Result, ok, err, Eff}
use finlytic_ecosystem.Auth.Store.{Db, Error, unauthorized}
use finlytic_ecosystem.Auth.RefreshToken.{ClientMeta, Fresh}
use finlytic_ecosystem.Auth.Users.{PublicUser}
use finlytic_ecosystem.Auth.Service
use finlytic_ecosystem.Auth.Service.{Platform, Credentials, LoginResponse}
use finlytic_ecosystem.Auth.Cookie.{Cookie, set_refresh_cookie, read_refresh_cookie}

-- What becomes of the cookie of a response.
pub data CookieChange : Type 0 where
  set : Cookie → CookieChange
  cleared : CookieChange

-- The tables, and the Set-Cookie headers of the response.
abbrev pub State : Type 0
State = Db × List CookieChange

-- A LoginResponse without its refresh token.
pub record Session : Type 0 where
  pub access_token : String
  pub token_type : String
  pub expires_in : ℕ
  pub user : PublicUser

abbrev pub session_of : LoginResponse → Session
session_of r = record {
  access_token = r.access_token;
  token_type = r.token_type;
  expires_in = r.expires_in;
  user = r.user;
}

pub record Transport : Type 0 where
  pub node_env : String
  pub to_text : String → Text
  pub from_text : Text → String

module _ (p : Platform) (t : Transport) where
  abbrev pub cookie_of : String → Cookie
  cookie_of raw = set_refresh_cookie t.node_env (t.to_text raw) p.refresh_token_ttl_days

  -- The refresh token of the service leaves as a cookie.
  unfoldable pub answered :
      List CookieChange → Result Error LoginResponse → Db → Result Error Session × State
  answered changes (ok r) db =
      (ok (session_of r), (db, changes ++ (set (cookie_of r.refresh_token) ∷ [])))
  answered changes (err e) db = (err e, (db, changes))

  unfoldable pub login :
      String → ℕ → Fresh → String → Credentials → ClientMeta → Eff State Error Session
  login decoy_hash now fresh random_uuid dto meta (db, changes) =
      answered changes (Service.login p decoy_hash now fresh random_uuid dto meta db).0
        (Service.login p decoy_hash now fresh random_uuid dto meta db).1

  abbrev truthy : Option String → Option String
  truthy none = none
  truthy (some raw) = if str_eq raw "" then none else some raw

  abbrev cookie_or_body : Option Text → Option String → Option String
  cookie_or_body none body = body
  cookie_or_body (some token) body = some (t.from_text token)

  -- Cookie first, body second; an empty token is none.
  unfoldable pub presented : Option Text → Option String → Option String
  presented header body = truthy (cookie_or_body (read_refresh_cookie header) body)

  abbrev refresh_presented : ℕ → Fresh → ClientMeta → Option String → Eff State Error Session
  refresh_presented now fresh meta none (db, changes) =
      (err (unauthorized "Invalid refresh token"), (db, changes))
  refresh_presented now fresh meta (some raw) (db, changes) =
      answered changes (Service.refresh p now fresh (some raw) meta db).0
        (Service.refresh p now fresh (some raw) meta db).1

  unfoldable pub refresh :
      ℕ → Fresh → Option Text → Option String → ClientMeta → Eff State Error Session
  refresh now fresh header body meta = refresh_presented now fresh meta (presented header body)

  abbrev logout_presented : ℕ → Option String → Eff State Error (Unit {0})
  logout_presented now none (db, changes) = (ok tt, (db, changes))
  logout_presented now (some raw) (db, changes) =
      ((Service.logout p now (some raw) db).0, ((Service.logout p now (some raw) db).1, changes))

  -- The cookie is cleared before the service is asked.
  unfoldable pub logout : ℕ → Option Text → Option String → Eff State Error (Unit {0})
  logout now header body (db, changes) =
      logout_presented now (presented header body) (db, changes ++ (cleared ∷ []))
