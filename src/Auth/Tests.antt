-- ===== src/Auth/Tests.antt =====
-- Runs of the services of services/user-management on small tables.
use finlytic_ecosystem.Auth.Users.{PublicUser}
use finlytic_ecosystem.Auth.Service.{LoginResponse}
use finlytic_ecosystem.Auth.Cookie.{set_refresh_cookie}
use finlytic_ecosystem.Prelude.{
  ◌≡◌, refl, true, false, none, some, [], ◌∷◌, str_eq, arith, find, count, ◌≤◌, eq_iff,
}
use finlytic_ecosystem.Prelude.Text.{codes, text_eq}
use finlytic_ecosystem.Prelude.Split.{is_space, no_space-IsBlankFree}
use finlytic_ecosystem.Prelude.Effects.{ok, err}
use finlytic_ecosystem.Auth.Store.{
  User, user, RefreshToken, Db, unauthorized, insert_refresh_token, insert_user,
}
use finlytic_ecosystem.Auth.RefreshToken.{
  ClientMeta, Fresh, has_hash, is_live, revoke_at, spend, spend_update, issue, start_family,
  link_replacement, revoke_family, sweep, revoke_family_by_token, revoke_found, detect_reuse,
  find_by_hash, issued_row,
}
use finlytic_ecosystem.Auth.RefreshToken.Spend.{
  HasUniqueHashes, spent_of, spend-eq-spent_of, spend_replay,
}
use finlytic_ecosystem.Auth.RefreshToken.Sweep.{spend_replay-sweep}
use finlytic_ecosystem.Auth.Users.{find_by_id, find_by_email, to_public_user, create}
use finlytic_ecosystem.Auth.Service.{
  Platform, Credentials, login, login_checked, refresh, refresh_spent, rotate, build_session,
  register, create_account, logout, verify, issue_access_token,
}
use finlytic_ecosystem.Auth.Invariant.{IsSound, has_email}
use finlytic_ecosystem.Auth.Rotation.{refresh_idle}
use finlytic_ecosystem.Auth.Rotation.Success.{
  IsRotated, refresh-IsRotated, refresh_active, IsUnused,
}
use finlytic_ecosystem.Auth.Sessions.{step, run, run-IsSound, logs_in, sweeps}
use finlytic_ecosystem.Auth.Interleaving.{
  spends, prunes, total_spent, total_issued, total_spent-le-issued,
}
use finlytic_ecosystem.Auth.Login.{logout_lem, register-login}
use finlytic_ecosystem.Auth.Cookie.{read_refresh_cookie}
use finlytic_ecosystem.Auth.Cookie.RoundTrip.{cookie_header, first_of, read-cookie_header}
use finlytic_ecosystem.Prelude.{List, String, if◌then◌else◌}
use finlytic_ecosystem.Auth.Controller
use finlytic_ecosystem.Auth.Controller.{
  CookieChange, Transport, set, cookie_of, presented, session_of,
}
use finlytic_ecosystem.Auth.Controller.Presented.{pair_of, login-presented}

computed : Unit {0}
unfolding insert_refresh_token insert_user spend spend_update issue start_family link_replacement
    revoke_family revoke_family_by_token revoke_found detect_reuse find_by_hash find_by_id
    find_by_email to_public_user create login login_checked refresh refresh_spent rotate
    build_session register create_account logout verify issue_access_token sweep
computed = tt

abbrev platform : Platform
platform = record {
  sha256_hex = λ s. s;
  argon2_hash = λ salt s. s;
  argon2_verify = λ digest s. some (str_eq digest s);
  sign_async = λ role subject. subject;
  to_iso_string = λ ms. "2026-01-01T00:00:00.000Z";
  access_token_ttl_seconds = 900;
  refresh_token_ttl_days = 30;
}

abbrev ann : User
ann = record {
  id = "u1";
  email = "ann@example.org";
  password_hash = "secret";
  role = user;
  is_active = true;
  created_at = 5;
}

abbrev meta : ClientMeta
meta = record { ip_address = none; user_agent = none }

abbrev live_row : RefreshToken
live_row = issued_row (λ s. s) 30 10 (record { raw = "t1"; row_id = "r1" }) "u1" "f1" meta

abbrev spent_row : RefreshToken
spent_row = record live_row { id = "r0"; token_hash = "t0"; revoked_at = some 7 }

abbrev db : Db
db = record { users = ann ∷ []; refresh_tokens = live_row ∷ spent_row ∷ [] }

abbrev fresh : Fresh
fresh = record { raw = "t2"; row_id = "r2" }

unique : HasUniqueHashes db
unique h = ground (
  arith,
  eq_iff live_row.token_hash h,
  eq_iff spent_row.token_hash h,
  eq_iff live_row.token_hash spent_row.token_hash,
)

sound : IsSound db
sound = record {
  one_hash = unique;
  one_id = λ i.
      ground (arith, eq_iff live_row.id i, eq_iff spent_row.id i, eq_iff live_row.id spent_row.id);
  one_live = λ f. ground arith;
  one_email = λ e. ground arith;
}

refreshed : (refresh platform 20 fresh (some "t1") meta db).0 ≡ ok (build_session platform ann "t2")
unfolding computed
refreshed = refl

replayed :
    (refresh platform 20 fresh (some "t0") meta db).0 ≡ err (unauthorized "Invalid refresh token")
unfolding computed
replayed = refl

spend-eq-spent_of_example :
    (spend (λ s. s) 20 "t1" db).0 ≡ ok (spent_of 20 (find (has_hash "t1") db.refresh_tokens))
spend-eq-spent_of_example = spend-eq-spent_of (λ s. s) 20 "t1" db unique

spend_replay_example :
    ((spend (λ s. s) 20 "t0" db).0 ≡ ok none)
    × (count (is_live "f1") (spend (λ s. s) 20 "t0" db).1.refresh_tokens ≡ 0)
spend_replay_example = spend_replay (λ s. s) 20 "t0" db spent_row unique refl refl

refresh-IsRotated_example :
    IsRotated platform 20 fresh "t1" db
      (refresh platform 20 fresh (some "t1") meta db).1
      (build_session platform ann "t2")
unfolding computed
refresh-IsRotated_example =
    refresh-IsRotated platform 20 fresh meta "t1" db _ (build_session platform ann "t2") sound refl

refresh_active_example :
    (refresh platform 20 fresh (some "t1") meta db).0 ≡ ok (build_session platform ann "t2")
unfolding IsUnused
refresh_active_example =
    refresh_active platform 20 fresh meta "t1" db live_row ann sound refl refl refl refl refl refl

abbrev idle_db : Db
idle_db = record db { users = record ann { is_active = false } ∷ [] }

idle-IsSound : IsSound idle_db
idle-IsSound = record {
  one_hash = sound.one_hash;
  one_id = sound.one_id;
  one_live = sound.one_live;
  one_email = λ e. ground arith;
}

refresh_idle_example :
    let after = refresh platform 20 fresh (some "t1") meta idle_db in
    (after.0 ≡ err (unauthorized "Invalid refresh token"))
    × (count (is_live "f1") after.1.refresh_tokens ≡ 0)
refresh_idle_example =
    refresh_idle platform 20 fresh meta "t1" idle_db live_row idle-IsSound refl refl refl
      (λ u e. ground arith)

spend_replay-sweep_example :
    let swept = (sweep true 15 db).1 in
    ((spend (λ s. s) 20 "t0" swept).0 ≡ ok none)
    × (count (is_live "f1") (spend (λ s. s) 20 "t0" swept).1.refresh_tokens ≡ 0)
spend_replay-sweep_example =
    spend_replay-sweep (λ s. s) 15 20 "t0" db spent_row unique refl refl (omega arith)

abbrev dto : Credentials
dto = record { email = "ann@example.org"; password = "secret" }

run-IsSound_example :
    IsSound (run platform (logs_in "x" 20 fresh "f2" dto meta ∷ sweeps true 30 ∷ []) db)
unfolding step sweep
run-IsSound_example =
    run-IsSound platform (logs_in "x" 20 fresh "f2" dto meta ∷ sweeps true 30 ∷ []) db sound
      (refl, (tt, tt))

total_spent-le-issued_example :
    total_spent "t1" (spends "t1" 20 ∷ spends "t1" 20 ∷ prunes 30 ∷ []) db ≤ 1
unfolding total_issued
total_spent-le-issued_example =
    total_spent-le-issued "t1" (spends "t1" 20 ∷ spends "t1" 20 ∷ prunes 30 ∷ []) db

logged_in : Db
unfolding computed
logged_in = (login platform "x" 20 fresh "f2" dto meta db).1

abbrev transport : Transport
transport = record {
  node_env = "production";
  to_text = λ s. codes s;
  from_text = λ s. if text_eq s (codes "t2") then "t2" else "";
}

abbrev cookies : List CookieChange
cookies = set (cookie_of platform transport "t2") ∷ []

login-presented_example :
    (raw : String) × (cookies ≡ set (cookie_of platform transport raw) ∷ [])
    × (presented platform transport
          (some (cookie_header (pair_of (cookie_of platform transport raw) ∷ [])))
          none
        ≡ some raw)
    × ((e : RefreshToken) × ((spend (λ s. s) 25 raw logged_in).0 ≡ ok (some (revoke_at 25 e)))
        × (e.family_id ≡ "f2"))
unfolding computed logged_in Controller.login Controller.answered set_refresh_cookie text_eq
    is_space
login-presented_example =
    login-presented platform transport "x" 20 fresh "f2" dto meta db []
      (session_of (build_session platform ann "t2")) (logged_in, cookies) 25 none sound refl
      (record {
        name_no_equals = omega arith;
        no_semicolon = omega arith;
        no_blank = no_space-IsBlankFree (codes "refresh_token=t2") refl;
      })
      refl refl refl refl (omega arith)

logout_lem_example :
    ((logout platform 20 (some "t1") db).0 ≡ ok tt)
    × (count (is_live "f1") (logout platform 20 (some "t1") db).1.refresh_tokens ≡ 0)
logout_lem_example = logout_lem platform 20 "t1" db live_row refl refl

abbrev bob : Credentials
bob = record { email = "bob@example.org"; password = "hunter2" }

registered : Db
unfolding computed
registered = (register platform "salt" "u2" 20 bob db).1

abbrev bob_created : PublicUser
bob_created = record {
  id = "u2";
  email = "bob@example.org";
  role = user;
  is_active = true;
  created_at = "2026-01-01T00:00:00.000Z";
}

register-login_example :
    (response : LoginResponse) × ((login platform "x" 25 fresh "f2" bob meta registered).0
      ≡ ok response)
    × (response.user ≡ bob_created)
    × (response.refresh_token ≡ "t2")
    × (count (has_email "bob@example.org") registered.users ≡ 1)
unfolding computed registered
register-login_example =
    register-login platform "salt" "u2" 20 bob db registered bob_created "x" 25 fresh "f2" meta refl
      refl refl

read-cookie_header_example :
    read_refresh_cookie (some (codes "theme=dark; refresh_token=a.b=; x=1")) ≡ some (codes "a.b=")
unfolding read_refresh_cookie cookie_header first_of is_space text_eq
read-cookie_header_example =
    read-cookie_header
      (record { name = codes "theme"; value = codes "dark" }
        ∷ record { name = codes "refresh_token"; value = codes "a.b=" }
        ∷ record { name = codes "x"; value = codes "1" }
        ∷ [])
      (
        record {
          name_no_equals = omega arith;
          no_semicolon = omega arith;
          no_blank = no_space-IsBlankFree (codes "theme=dark") refl;
        },
        (
          record {
            name_no_equals = omega arith;
            no_semicolon = omega arith;
            no_blank = no_space-IsBlankFree (codes "refresh_token=a.b=") refl;
          },
          (
            record {
              name_no_equals = omega arith;
              no_semicolon = omega arith;
              no_blank = no_space-IsBlankFree (codes "x=1") refl;
            },
            tt,
          ),
        ),
      )
