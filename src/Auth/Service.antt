-- ===== src/Auth/Service.antt =====
-- services/user-management/src/auth: auth.service.ts, token.service.ts and password-hasher.ts.
-- argon2, the JWT library and Date.toISOString are parameters. The hour, random values and row ids
-- are arguments; the clock stands still within one call.
use finlytic_ecosystem.Prelude.{
  ℕ, Bool, false, not, ◌||◌, Option, none, some, String, str_eq, if◌then◌else◌, or_else,
}
use finlytic_ecosystem.Prelude.Effects.{Result, ok, err, Eff, pure, throw, ◌>>=◌, ◌>>◌}
use finlytic_ecosystem.Auth.Store.{
  User, UserRole, RefreshToken, Db, Error, known_request, unauthorized, conflict,
}
use finlytic_ecosystem.Auth.RefreshToken.{
  ClientMeta, Fresh, start_family, issue, spend, revoke_family, link_replacement,
  revoke_family_by_token,
}
use finlytic_ecosystem.Auth.Users.{PublicUser, to_public_user, find_by_email, find_by_id, create}

pub record Platform : Type 0 where
  pub sha256_hex : String → String
  -- `argon2.hash` with the salt that it draws, and `argon2.verify`; `none` where it rejects.
  pub argon2_hash : String → String → String
  pub argon2_verify : String → String → Option Bool
  -- `jwtService.signAsync({ role }, { subject })`
  pub sign_async : UserRole → String → String
  pub to_iso_string : ℕ → String
  pub access_token_ttl_seconds : ℕ
  pub refresh_token_ttl_days : ℕ

pub record LoginResponse : Type 0 where
  pub access_token : String
  pub refresh_token : String
  pub token_type : String
  pub expires_in : ℕ
  pub user : PublicUser

pub record Credentials : Type 0 where
  pub email : String
  pub password : String

-- The conversion of a P2002 in `register`.
abbrev pub conflict_of : Result Error PublicUser → Result Error PublicUser
conflict_of (ok u) = ok u
conflict_of (err (known_request c)) =
    if str_eq c "P2002"
    then err (conflict "An account with this email already exists")
    else err (known_request c)
conflict_of (err (unauthorized m)) = err (unauthorized m)
conflict_of (err (conflict m)) = err (conflict m)

abbrev pub password_hash_of : Option User → String → String
password_hash_of none decoy_hash = decoy_hash
password_hash_of (some u) decoy_hash = u.password_hash

module _ (p : Platform) where
  open p use {
    sha256_hex, argon2_hash, argon2_verify, sign_async, to_iso_string, access_token_ttl_seconds,
    refresh_token_ttl_days,
  }

  unfoldable pub verify : String → String → Bool
  verify digest plain_text = or_else (argon2_verify digest plain_text) false

  -- `onModuleInit`
  unfoldable pub decoy_hash_of : String → String → String
  decoy_hash_of salt random_hex = argon2_hash salt random_hex

  unfoldable pub create_account : String → String → ℕ → Credentials → Eff Db Error PublicUser
  create_account salt row_id now dto = do
    u ← create row_id now dto.email (argon2_hash salt dto.password)
    pure (to_public_user to_iso_string u)

  unfoldable pub register : String → String → ℕ → Credentials → Eff Db Error PublicUser
  register salt row_id now dto db = (
    conflict_of (create_account salt row_id now dto db).0,
    (create_account salt row_id now dto db).1,
  )

  unfoldable pub issue_access_token : User → String
  issue_access_token u = sign_async u.role u.id

  unfoldable pub build_session : User → String → LoginResponse
  build_session u refresh_token = record {
    access_token = issue_access_token u;
    refresh_token = refresh_token;
    token_type = "Bearer";
    expires_in = access_token_ttl_seconds;
    user = to_public_user to_iso_string u;
  }

  -- The part of `login` behind the one verification.
  unfoldable pub login_checked :
      ℕ → Fresh → String → ClientMeta → Bool → Option User → Eff Db Error LoginResponse
  login_checked now fresh random_uuid meta matches none =
      throw (unauthorized "Invalid email or password")
  login_checked now fresh random_uuid meta matches (some u) =
      if not matches || not u.is_active
      then throw (unauthorized "Invalid email or password")
      else do
        issued ← start_family sha256_hex refresh_token_ttl_days now fresh random_uuid u.id meta
        pure (build_session u issued.raw)

  unfoldable pub login :
      String → ℕ → Fresh → String → Credentials → ClientMeta → Eff Db Error LoginResponse
  login decoy_hash now fresh random_uuid dto meta = do
    found ← find_by_email dto.email
    let matches = verify (password_hash_of found decoy_hash) dto.password
    login_checked now fresh random_uuid meta matches found

  -- `refresh` once the user of the spent token is looked up.
  unfoldable pub rotate :
      ℕ → Fresh → ClientMeta → RefreshToken → Option User → Eff Db Error LoginResponse
  rotate now fresh meta spent none = do
    revoke_family spent.family_id now
    throw (unauthorized "Invalid refresh token")
  rotate now fresh meta spent (some u) =
      if u.is_active
      then (do
        issued ← issue sha256_hex refresh_token_ttl_days now fresh u.id spent.family_id meta
        link_replacement spent.id issued.row.id
        pure (build_session u issued.raw))
      else do revoke_family spent.family_id now; throw (unauthorized "Invalid refresh token")

  unfoldable pub refresh_spent :
      ℕ → Fresh → ClientMeta → Option RefreshToken → Eff Db Error LoginResponse
  refresh_spent now fresh meta none = throw (unauthorized "Invalid refresh token")
  refresh_spent now fresh meta (some spent) = do
    found ← find_by_id spent.user_id
    rotate now fresh meta spent found

  unfoldable pub refresh : ℕ → Fresh → Option String → ClientMeta → Eff Db Error LoginResponse
  refresh now fresh none meta = throw (unauthorized "Invalid refresh token")
  refresh now fresh (some raw) meta =
      if str_eq raw ""
      then throw (unauthorized "Invalid refresh token")
      else do spent ← spend sha256_hex now raw; refresh_spent now fresh meta spent

  unfoldable pub logout : ℕ → Option String → Eff Db Error (Unit {0})
  logout now none = pure tt
  logout now (some raw) =
      if str_eq raw "" then pure tt else revoke_family_by_token sha256_hex now raw
