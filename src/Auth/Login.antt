-- ===== src/Auth/Login.antt =====
-- Registration, login and logout of services/user-management/src/auth/auth.service.ts.
use finlytic_ecosystem.Prelude.{
  ℕ, ◌+◌, ◌*◌, ◌<◌, ◌≡◌, refl, sym, any, ap, ◌∙◌, Bool, true, false, ◌&&◌, ◌||◌, Option, none, some,
  ◌∷◌, String, str_eq, arith, count, Option-cases, inl, inr, find, eq_iff, find-some-holds,
}
use finlytic_ecosystem.Prelude.Counting.{count-zero_of_any, any-of_find}
use finlytic_ecosystem.Prelude.Effects.{ok, err}
use finlytic_ecosystem.Auth.Store.{
  RefreshToken, User, user, Db, unauthorized, conflict, insert_user, insert_refresh_token,
}
use finlytic_ecosystem.Auth.Users.{to_public_user, create, find_by_email, PublicUser}
use finlytic_ecosystem.Auth.RefreshToken.{
  ClientMeta, Fresh, has_hash, is_live, revoke_at, spend, issue, issued_row, start_family,
  revoke_family, revoke_family_by_token, revoke_found, find_by_hash, in_family,
}
use finlytic_ecosystem.Auth.RefreshToken.Rows.{live-revoke_family}
use finlytic_ecosystem.Auth.RefreshToken.Spend.{spent_of, spend-eq-spent_of, HasUniqueHashes}
use finlytic_ecosystem.Auth.Service.{
  Platform, Credentials, LoginResponse, register, create_account, verify, login, login_checked,
  build_session, logout,
}
use finlytic_ecosystem.Auth.Invariant.{IsSound, has_email}
use finlytic_ecosystem.Auth.Sessions.{step, logs_in, step-IsSound}

-- Whether a row, if any, and a password let their holder in.
abbrev pub admits : Platform → Option User → String → Bool
admits p none password = false
admits p (some u) password = verify p u.password_hash password && u.is_active

module _ (p : Platform) (decoy_hash : String) (now : ℕ) (fresh : Fresh) (random_uuid : String)
    (dto : Credentials) (meta : ClientMeta) (db : Db) where
  -- An unknown address, a wrong password and a disabled account are refused alike: by the same
  -- exception with the same message, and with nothing written.
  pub login_refused :
      admits p (find (has_email dto.email) db.users) dto.password ≡ false
      → login p decoy_hash now fresh random_uuid dto meta db
        ≡ (err (unauthorized "Invalid email or password"), db)
  unfolding login find_by_email login_checked
  login_refused refused = ground arith

  -- A successful login is for the user of the address, who is active and whose password verifies; it
  -- answers with a session of that user, and adds the row of its refresh token and nothing else.
  pub login_ok :
      (response : LoginResponse) (db' : Db)
      → login p decoy_hash now fresh random_uuid dto meta db ≡ (ok response, db')
      → (u : User) × (find (has_email dto.email) db.users ≡ some u)
        × (verify p u.password_hash dto.password ≡ true)
        × (u.is_active ≡ true)
        × (response ≡ build_session p u fresh.raw)
        × (db' ≡ record db {
          refresh_tokens =
              issued_row p.sha256_hex p.refresh_token_ttl_days now fresh u.id random_uuid meta
              ∷ db.refresh_tokens;
        })
  unfolding login find_by_email login_checked start_family issue insert_refresh_token
  login_ok response db' done = elim (Option-cases (find (has_email dto.email) db.users)) [
    | inl missing ↦ absurd (ground (arith, missing))
    | inr (u, found) ↦ (u, found, ground arith, ground arith, ground arith, ground arith)
  ]

  -- On a sound table, where the family id is new, the refresh token of a successful login is spent at
  -- any time before it expires: `spend` returns its row, revoked, in the new family.
  pub login-spend :
      (response : LoginResponse) (db' : Db) (later : ℕ)
      → IsSound db
      → count (in_family random_uuid) db.refresh_tokens ≡ 0
      → login p decoy_hash now fresh random_uuid dto meta db ≡ (ok response, db')
      → later < now + p.refresh_token_ttl_days * 24 * 60 * 60 * 1000
      → (e : RefreshToken) × ((spend p.sha256_hex later response.refresh_token db').0
          ≡ ok (some (revoke_at later e)))
        × (e.family_id ≡ random_uuid)
  unfolding build_session step
  login-spend response db' later s unused done soon =
      let (u, found, matches, active, session, grown) = login_ok response db' done in
      let row = issued_row p.sha256_hex p.refresh_token_ttl_days now fresh u.id random_uuid meta in
      let sound : IsSound (login p decoy_hash now fresh random_uuid dto meta db).1 =
        step-IsSound p (logs_in decoy_hash now fresh random_uuid dto meta) db s unused in
      let unique : HasUniqueHashes db' = (rw done at sound).one_hash in
      let first : spent_of later (find (has_hash (p.sha256_hex fresh.raw)) db'.refresh_tokens)
          ≡ some (revoke_at later row) =
        ground (arith, grown, eq_iff (p.sha256_hex fresh.raw) (p.sha256_hex fresh.raw)) in
      let token : response.refresh_token ≡ fresh.raw =
        ap (λ (r : LoginResponse). r.refresh_token) session in
      (
        row,
        rw token (spend-eq-spent_of p.sha256_hex later fresh.raw db' unique ∙ ap ok first),
        refl,
      )

-- Logging out with a non-empty token that has a row succeeds, and leaves no unrevoked row in the
-- family of that row.
pub logout_lem :
    (p : Platform) (now : ℕ) (raw : String) (db : Db) (e : RefreshToken)
    → str_eq raw "" ≡ false
    → find (has_hash (p.sha256_hex raw)) db.refresh_tokens ≡ some e
    → ((logout p now (some raw) db).0 ≡ ok tt)
      × (count (is_live e.family_id) (logout p now (some raw) db).1.refresh_tokens ≡ 0)
unfolding logout revoke_family_by_token find_by_hash revoke_found revoke_family
logout_lem p now raw db e present found =
    rw (present, logout, found) (refl, live-revoke_family now e.family_id db.refresh_tokens)

-- Registering an address that a row has is refused as a conflict, and writes nothing.
pub register_taken :
    (p : Platform) (salt row_id : String) (now : ℕ) (dto : Credentials) (db : Db) (u : User)
    → find (has_email dto.email) db.users ≡ some u
    → register p salt row_id now dto db
      ≡ (err (conflict "An account with this email already exists"), db)
unfolding register create_account create insert_user
register_taken p salt row_id now dto db u found = ground (
  arith,
  any-of_find (has_email dto.email) (λ (x : User). str_eq x.email dto.email || str_eq x.id row_id)
      db.users u found (ground (arith, find-some-holds (has_email dto.email) db.users u found)),
)

register-admits :
    (p : Platform) (salt row_id : String) (now : ℕ) (dto : Credentials) (db db' : Db)
    (created : PublicUser)
    → p.argon2_verify (p.argon2_hash salt dto.password) dto.password ≡ some true
    → register p salt row_id now dto db ≡ (ok created, db')
    → (admits p (find (has_email dto.email) db'.users) dto.password ≡ true)
      × (count (has_email dto.email) db'.users ≡ 1)
      × (created.email ≡ dto.email)
unfolding register create_account create insert_user verify to_public_user
register-admits p salt row_id now dto db db' created verifies done = ground (
  arith,
  eq_iff dto.email dto.email,
  count-zero_of_any (has_email dto.email)
      (λ (x : User). str_eq x.email dto.email || str_eq x.id row_id) db.users (λ x k. ground arith),
)

-- Who has registered can log in: after a successful registration, a login with the same credentials, at any
-- time, succeeds with a session of the user that was created, and the address has one row. argon2 verifies
-- the digest that it made, and no refresh token has the hash or the row id of the new one.
pub register-login :
    (p : Platform) (salt row_id : String) (now : ℕ) (dto : Credentials) (db db' : Db)
    (created : PublicUser) (decoy_hash : String) (later : ℕ) (fresh : Fresh) (random_uuid : String)
    (meta : ClientMeta)
    → p.argon2_verify (p.argon2_hash salt dto.password) dto.password ≡ some true
    → any
        (λ (r : RefreshToken).
          str_eq r.token_hash (p.sha256_hex fresh.raw) || str_eq r.id fresh.row_id)
        db.refresh_tokens
      ≡ false
    → register p salt row_id now dto db ≡ (ok created, db')
    → (response : LoginResponse) × ((login p decoy_hash later fresh random_uuid dto meta db').0
        ≡ ok response)
      × (response.user ≡ created)
      × (response.refresh_token ≡ fresh.raw)
      × (count (has_email dto.email) db'.users ≡ 1)
unfolding register create_account create insert_user verify to_public_user login find_by_email
    login_checked start_family issue insert_refresh_token build_session
register-login p salt row_id now dto db db' created decoy_hash later fresh random_uuid meta verifies
      free done =
    let u : User = record {
      id = row_id;
      email = dto.email;
      password_hash = p.argon2_hash salt dto.password;
      role = user;
      is_active = true;
      created_at = now;
    } in
    let grown : record db { users = u ∷ db.users } ≡ db' = ground (arith, done) in
    let same : to_public_user p.to_iso_string u ≡ created = ground (arith, done) in
    (
      build_session p u fresh.raw,
      ground (arith, verifies, free, sym grown, eq_iff dto.email dto.email, eq_iff row_id row_id),
      same,
      refl,
      (register-admits p salt row_id now dto db db' created verifies done).1,
    )
