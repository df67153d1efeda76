-- ===== src/Auth/Sessions/Keeps.antt =====
-- What the steps of services/user-management/src/auth/auth.service.ts keep: each leaves the tables
-- sound, `refresh` on all of its branches.
use finlytic_ecosystem.Prelude.{
  ℕ, ◌≡◌, Bool, false, not, ◌&&◌, Option, none, some, String, str_eq, arith, ltb, if◌then◌else◌,
  find, count, Option-cases, Bool-cases, inl, inr, ◌==◌, is_some, ◌||◌,
}
use finlytic_ecosystem.Prelude.Effects.{Eff, bind_keeps, ◌>>=◌, ◌>>◌, pure, throw, if_keeps}
use finlytic_ecosystem.Auth.Store.{
  RefreshToken, User, Db, Error, unauthorized, insert_refresh_token,
}
use finlytic_ecosystem.Auth.RefreshToken.{
  ClientMeta, Fresh, IssuedRefreshToken, is_unrevoked, has_hash, in_family, is_live, revoke_at,
  spend, spend_update, issue, issued_row, start_family, revoke_family, revoke_family_by_token,
  revoke_found, find_by_hash, detect_reuse, link_replacement,
}
use finlytic_ecosystem.Auth.Users.{find_by_id, find_by_email, create, to_public_user}
use finlytic_ecosystem.Auth.Service.{
  Platform, Credentials, LoginResponse, register, create_account, login, login_checked, refresh,
  refresh_spent, rotate, logout, build_session, verify, password_hash_of,
}
use finlytic_ecosystem.Auth.Invariant.{
  IsSound, spend_update-IsSound, revoke_family-IsSound, link_replacement-IsSound,
  insert_refresh_token-IsSound, insert_user-IsSound,
}
use finlytic_ecosystem.Auth.Rotation.{refresh_dead, refresh_live, spend_live-none_live}
use finlytic_ecosystem.Prelude.Counting.{count_mono}

detect_reuse-IsSound :
    (now : ℕ) (existing : Option RefreshToken) (db : Db)
    → IsSound db
    → IsSound (detect_reuse now existing db).1
unfolding detect_reuse
detect_reuse-IsSound now none db s = s
detect_reuse-IsSound now (some e) db s = elim (Bool-cases (is_some e.revoked_at)) [
  | inl reuse ↦
      rw (reuse, detect_reuse)
        (bind_keeps IsSound (revoke_family e.family_id now) (λ _. pure none) db
          (revoke_family-IsSound e.family_id now db s) (λ a t kept. kept))
  | inr fine ↦ rw (fine, detect_reuse) s
]

pub spend-IsSound :
    (fingerprint : String → String) (now : ℕ) (raw : String) (db : Db)
    → IsSound db
    → IsSound (spend fingerprint now raw db).1
unfolding spend
spend-IsSound fingerprint now raw db s =
    bind_keeps IsSound (spend_update (fingerprint raw) now) answer db
      (spend_update-IsSound (fingerprint raw) now db s) answer-IsSound
  where
    answer : ℕ → Eff Db Error (Option RefreshToken)
    answer n = do
      existing ← find_by_hash (fingerprint raw)
      if n == 1 then pure existing else detect_reuse now existing

    answer-IsSound : (n : ℕ) (t : Db) → IsSound t → IsSound (answer n t).1
    answer-IsSound n t kept = elim (Bool-cases (n == 1)) [
      | inl one ↦ rw (one, answer) kept
      | inr other ↦
          rw (other, answer)
            (detect_reuse-IsSound now (find (has_hash (fingerprint raw)) t.refresh_tokens) t kept)
    ]

module _ (fingerprint : String → String) (days now : ℕ) (fresh : Fresh) (user_id family_id : String)
    (meta : ClientMeta) where
  pub issue-IsSound :
      (db : Db)
      → IsSound db
      → count (is_live family_id) db.refresh_tokens ≡ 0
      → IsSound (issue fingerprint days now fresh user_id family_id meta db).1
  unfolding issue
  issue-IsSound db s none_live =
      bind_keeps IsSound
        (insert_refresh_token (issued_row fingerprint days now fresh user_id family_id meta))
        (λ row. pure (record { raw = fresh.raw; row = row })) db
        (insert_refresh_token-IsSound (issued_row fingerprint days now fresh user_id family_id meta)
          db s none_live)
        (λ row t kept. kept)

revoke_and_reject-IsSound :
    (f : String) (now : ℕ) (e : Error) (db : Db)
    → IsSound db
    → IsSound ((revoke_family f now >> throw {A = LoginResponse} e) db).1
revoke_and_reject-IsSound f now e db s =
    bind_keeps IsSound (revoke_family f now) (λ _. throw e) db (revoke_family-IsSound f now db s)
      (λ a t kept. kept)

module _ (p : Platform) (now : ℕ) (fresh : Fresh) (meta : ClientMeta) where
  rotate-IsSound :
      (spent : RefreshToken) (found : Option User) (db : Db)
      → IsSound db
      → count (is_live spent.family_id) db.refresh_tokens ≡ 0
      → IsSound (rotate p now fresh meta spent found db).1
  unfolding rotate
  rotate-IsSound spent none db s none_live =
      revoke_and_reject-IsSound spent.family_id now (unauthorized "Invalid refresh token") db s
  rotate-IsSound spent (some u) db s none_live =
      if_keeps IsSound u.is_active (issued >>= linked) rejected db
        (bind_keeps IsSound issued linked db
          (issue-IsSound p.sha256_hex p.refresh_token_ttl_days now fresh u.id spent.family_id meta
            db s none_live)
          (λ i t kept.
            bind_keeps IsSound (link_replacement spent.id i.row.id)
              (λ _. pure (build_session p u i.raw)) t
              (link_replacement-IsSound spent.id i.row.id t kept) (λ a t' kept'. kept')))
        (revoke_and_reject-IsSound spent.family_id now (unauthorized "Invalid refresh token") db s)
    where
      issued : Eff Db Error IssuedRefreshToken
      issued = issue p.sha256_hex p.refresh_token_ttl_days now fresh u.id spent.family_id meta

      rejected : Eff Db Error LoginResponse
      rejected = do revoke_family spent.family_id now; throw (unauthorized "Invalid refresh token")

      linked : IssuedRefreshToken → Eff Db Error LoginResponse
      linked i = do link_replacement spent.id i.row.id; pure (build_session p u i.raw)

  refresh_present-IsSound :
      (raw : String) (db : Db)
      → IsSound db
      → str_eq raw "" ≡ false
      → IsSound (refresh p now fresh (some raw) meta db).1
  unfolding refresh_spent find_by_id spend_update
  refresh_present-IsSound raw db s present =
      elim (Option-cases (find (has_hash (p.sha256_hex raw)) db.refresh_tokens)) [
        | inl missing ↦
            rw (refresh_dead p now fresh meta raw db s present (rw missing))
              (spend-IsSound p.sha256_hex now raw db s)
        | inr (e, found) ↦ elim (Bool-cases (is_unrevoked e && ltb now e.expires_at)) [
          | inr dead ↦
              rw (refresh_dead p now fresh meta raw db s present (rw found (ground (arith, dead))))
                (spend-IsSound p.sha256_hex now raw db s)
          | inl live ↦ rw (refresh_live p now fresh meta raw db s present e found live) (
              rotate-IsSound (revoke_at now e) (find (λ (u : User). str_eq u.id e.user_id) db.users)
                (spend_update (p.sha256_hex raw) now db).1
                (spend_update-IsSound (p.sha256_hex raw) now db s)
                (spend_live-none_live (p.sha256_hex raw) now db e s found live))
        ]
      ]

  pub refresh-IsSound :
      (presented : Option String) (db : Db)
      → IsSound db
      → IsSound (refresh p now fresh presented meta db).1
  unfolding refresh
  refresh-IsSound none db s = s
  refresh-IsSound (some raw) db s = elim (Bool-cases (str_eq raw "")) [
    | inl empty ↦ rw (empty, refresh) s
    | inr present ↦ refresh_present-IsSound raw db s present
  ]

start_family-IsSound :
    (fingerprint : String → String) (days now : ℕ) (fresh : Fresh) (random_uuid user_id : String)
    (meta : ClientMeta) (db : Db)
    → IsSound db
    → count (in_family random_uuid) db.refresh_tokens ≡ 0
    → IsSound (start_family fingerprint days now fresh random_uuid user_id meta db).1
unfolding start_family
start_family-IsSound fingerprint days now fresh random_uuid user_id meta db s unused =
    issue-IsSound fingerprint days now fresh user_id random_uuid meta db s (
      omega (
        arith,
        count_mono (is_live random_uuid) (in_family random_uuid) db.refresh_tokens
            (λ r k. ground arith),
      ))

module _ (p : Platform) (now : ℕ) where
  login_checked-IsSound :
      (fresh : Fresh) (random_uuid : String) (meta : ClientMeta) (matches : Bool)
      (found : Option User) (db : Db)
      → IsSound db
      → count (in_family random_uuid) db.refresh_tokens ≡ 0
      → IsSound (login_checked p now fresh random_uuid meta matches found db).1
  unfolding login_checked
  login_checked-IsSound fresh random_uuid meta matches none db s unused = s
  login_checked-IsSound fresh random_uuid meta matches (some u) db s unused =
      if_keeps IsSound (not matches || not u.is_active)
        (throw (unauthorized "Invalid email or password"))
        (started >>= λ issued. pure (build_session p u issued.raw)) db s
        (bind_keeps IsSound started (λ issued. pure (build_session p u issued.raw)) db
          (start_family-IsSound p.sha256_hex p.refresh_token_ttl_days now fresh random_uuid u.id
            meta db s unused)
          (λ a t kept. kept))
    where
      started : Eff Db Error IssuedRefreshToken
      started = start_family p.sha256_hex p.refresh_token_ttl_days now fresh random_uuid u.id meta

  pub login-IsSound :
      (decoy_hash : String) (fresh : Fresh) (random_uuid : String) (dto : Credentials)
      (meta : ClientMeta) (db : Db)
      → IsSound db
      → count (in_family random_uuid) db.refresh_tokens ≡ 0
      → IsSound (login p decoy_hash now fresh random_uuid dto meta db).1
  unfolding login find_by_email
  login-IsSound decoy_hash fresh random_uuid dto meta db s unused =
      login_checked-IsSound fresh random_uuid meta
        (verify p
          (password_hash_of (find (λ (u : User). str_eq u.email dto.email) db.users) decoy_hash)
          dto.password)
        (find (λ (u : User). str_eq u.email dto.email) db.users) db s unused

  pub register-IsSound :
      (salt row_id : String) (dto : Credentials) (db : Db)
      → IsSound db
      → IsSound (register p salt row_id now dto db).1
  unfolding register create_account create
  register-IsSound salt row_id dto db s =
      bind_keeps IsSound (create row_id now dto.email (p.argon2_hash salt dto.password))
        (λ u. pure (to_public_user p.to_iso_string u)) db (insert_user-IsSound _ db s)
        (λ a t kept. kept)

  pub logout-IsSound :
      (presented : Option String) (db : Db) → IsSound db → IsSound (logout p now presented db).1
  unfolding logout revoke_family_by_token find_by_hash revoke_found
  logout-IsSound none db s = s
  logout-IsSound (some raw) db s =
      if_keeps IsSound (str_eq raw "") (pure tt) (revoke_family_by_token p.sha256_hex now raw) db s
        (revoke_found-IsSound (find (has_hash (p.sha256_hex raw)) db.refresh_tokens))
    where
      revoke_found-IsSound :
          (found : Option RefreshToken) → IsSound (revoke_found p.sha256_hex now found db).1
      revoke_found-IsSound none = s
      revoke_found-IsSound (some e) = revoke_family-IsSound e.family_id now db s
