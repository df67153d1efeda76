-- ===== src/Auth/Cookie.antt =====
-- services/user-management/src/auth/refresh-cookie.ts: the cookie that carries the refresh token.
pub mod RoundTrip
use finlytic_ecosystem.Prelude.{
  ℕ, ◌*◌, Bool, true, false, Option, none, some, List, [], ◌∷◌, String, str_eq, if◌then◌else◌,
}
use finlytic_ecosystem.Prelude.Text.{Text, codes, text_eq}
use finlytic_ecosystem.Prelude.Split.{Parts, split, join, parts_list, trim}

abbrev pub refresh_cookie : Text
refresh_cookie = codes "refresh_token"

abbrev pub cookie_path : Text
cookie_path = codes "/api/auth"

-- The options of `res.cookie`.
pub record Cookie : Type 0 where
  pub name : Text
  pub value : Text
  pub http_only : Bool
  pub same_site : String
  pub secure : Bool
  pub path : Text
  pub max_age : ℕ

unfoldable pub set_refresh_cookie : String → Text → ℕ → Cookie
set_refresh_cookie node_env token ttl_days = record {
  name = refresh_cookie;
  value = token;
  http_only = true;
  same_site = "strict";
  secure = str_eq node_env "production";
  path = cookie_path;
  max_age = ttl_days * 24 * 60 * 60 * 1000;
}

-- The empty string is falsy.
abbrev pub or_undefined : Text → Option Text
or_undefined [] = none
or_undefined (a ∷ s) = some (a ∷ s)

-- One round of the loop: `none` goes on, `some` returns.
abbrev pub of_part : Parts → Option (Option Text)
of_part p = if text_eq p.0 refresh_cookie then some (or_undefined (join b'=' p.1)) else none

abbrev pub or_next : Option (Option Text) → Option Text → Option Text
or_next none next = next
or_next (some found) next = found

unfoldable pub read_parts : List Text → Option Text
read_parts [] = none
read_parts (part ∷ parts) = or_next (of_part (split b'=' (trim part))) (read_parts parts)

abbrev is_empty : Text → Bool
is_empty [] = true
is_empty (_ ∷ _) = false

unfoldable pub read_refresh_cookie : Option Text → Option Text
unfolding read_parts split join trim text_eq
read_refresh_cookie none = none
read_refresh_cookie (some header) =
    if is_empty header then none else read_parts (parts_list (split b';' header))
