-- ===== src/Auth/Controller/Presented.antt =====
-- From the login of services/user-management/src/auth/auth.controller.ts to the next refresh.
use finlytic_ecosystem.Prelude.{
  ℕ, ◌+◌, ◌*◌, ◌<◌, ◌≡◌, refl, sym, ap, ◌∙◌, false, Option, some, List, [], ◌∷◌, ◌++◌, String,
  str_eq, count,
}
use finlytic_ecosystem.Prelude.Text.{text_eq}
use finlytic_ecosystem.Prelude.Effects.{Result, ok, err}
use finlytic_ecosystem.Auth.Store.{Db, Error, RefreshToken}
use finlytic_ecosystem.Auth.RefreshToken.{ClientMeta, Fresh, revoke_at, spend, in_family}
use finlytic_ecosystem.Auth.Invariant.{IsSound}
use finlytic_ecosystem.Auth.Service
use finlytic_ecosystem.Auth.Service.{Platform, Credentials, LoginResponse, build_session}
use finlytic_ecosystem.Auth.Login.{login_ok, login-spend}
use finlytic_ecosystem.Auth.Cookie.{Cookie, set_refresh_cookie, or_undefined}
use finlytic_ecosystem.Auth.Cookie.RoundTrip.{
  Pair, IsPlain, cookie_header, first_of, read-cookie_header,
}
use finlytic_ecosystem.Auth.Controller.{
  CookieChange, set, State, Session, Transport, cookie_of, answered, login, presented, truthy,
  cookie_or_body,
}

-- What the browser sends back of a cookie that was set.
abbrev pub pair_of : Cookie → Pair
pair_of cookie = record { name = cookie.name; value = cookie.value }

module _ (p : Platform) (t : Transport) where
  answered-ok :
      (changes : List CookieChange) (r : Result Error LoginResponse) (db : Db) (session : Session)
      (s : State)
      → answered p t changes r db ≡ (ok session, s)
      → (response : LoginResponse) × (◌≡◌ {A = Result Error LoginResponse × Db}
          (r, db)
          (ok response, s.0))
        × (s.1 ≡ changes ++ (set (cookie_of p t response.refresh_token) ∷ []))
  unfolding answered
  answered-ok changes (ok response) db session s h = (
    response,
    rw (ap (λ (x : Result Error Session × State). x.1.0) h) refl,
    sym (ap (λ (x : Result Error Session × State). x.1.1) h),
  )
  answered-ok changes (err e) db session s h = absurd (cc)

  first-cookie_of :
      (raw : String) → first_of (pair_of (cookie_of p t raw) ∷ []) ≡ or_undefined (t.to_text raw)
  unfolding first_of text_eq set_refresh_cookie
  first-cookie_of raw = refl

  -- A token whose text is plain and not empty is presented by the cookie that carries it.
  cookie-presented :
      (raw : String) (body : Option String)
      → IsPlain (pair_of (cookie_of p t raw))
      → or_undefined (t.to_text raw) ≡ some (t.to_text raw)
      → t.from_text (t.to_text raw) ≡ raw
      → str_eq raw "" ≡ false
      → presented p t (some (cookie_header (pair_of (cookie_of p t raw) ∷ []))) body ≡ some raw
  unfolding presented
  cookie-presented raw body plain filled back some_raw =
      ap (λ o. truthy p t (cookie_or_body p t o body))
        (read-cookie_header (pair_of (cookie_of p t raw) ∷ []) (plain, tt)
          ∙ first-cookie_of raw
          ∙ filled)
      ∙ rw (back, some_raw) refl

  -- Who logs in can refresh with nothing but the cookie: a login that succeeds sets one cookie, and the
  -- header that a browser makes of that cookie presents, whatever the body says, a token that `spend` takes until
  -- it expires, and that starts the new family. The table is sound, the family id is new, and the new
  -- token is not empty, is plain as a cookie's value and is read back from its text.
  pub login-presented :
      (decoy_hash : String) (now : ℕ) (fresh : Fresh) (random_uuid : String) (dto : Credentials)
      (meta : ClientMeta) (db : Db) (changes : List CookieChange) (session : Session)
      (after : State) (later : ℕ) (body : Option String)
      → IsSound db
      → count (in_family random_uuid) db.refresh_tokens ≡ 0
      → IsPlain (pair_of (cookie_of p t fresh.raw))
      → or_undefined (t.to_text fresh.raw) ≡ some (t.to_text fresh.raw)
      → t.from_text (t.to_text fresh.raw) ≡ fresh.raw
      → str_eq fresh.raw "" ≡ false
      → login p t decoy_hash now fresh random_uuid dto meta (db, changes) ≡ (ok session, after)
      → later < now + p.refresh_token_ttl_days * 24 * 60 * 60 * 1000
      → (raw : String) × (after.1 ≡ changes ++ (set (cookie_of p t raw) ∷ []))
        × (presented p t (some (cookie_header (pair_of (cookie_of p t raw) ∷ []))) body ≡ some raw)
        × ((e : RefreshToken) × ((spend p.sha256_hex later raw after.0).0
              ≡ ok (some (revoke_at later e)))
            × (e.family_id ≡ random_uuid))
  unfolding login build_session
  login-presented decoy_hash now fresh random_uuid dto meta db changes session after later body
        sound new plain filled back some_raw done soon =
      let service = Service.login p decoy_hash now fresh random_uuid dto meta db in
      let (response, logged_in, cookies) =
        answered-ok changes service.0 service.1 session after done in
      let (u, found, matches, active, built, grown) =
        login_ok p decoy_hash now fresh random_uuid dto meta db response after.0 logged_in in
      let token : response.refresh_token ≡ fresh.raw =
        ap (λ (r : LoginResponse). r.refresh_token) built in
      let spent =
        login-spend p decoy_hash now fresh random_uuid dto meta db response after.0 later sound new
          logged_in soon in
      (
        fresh.raw,
        cookies ∙ ap (λ r. changes ++ (set (cookie_of p t r) ∷ [])) token,
        cookie-presented fresh.raw body plain filled back some_raw,
        rw token at spent,
      )
