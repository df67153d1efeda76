-- ===== src/Auth/RefreshToken.antt =====
-- services/user-management/src/auth/refresh-token.service.ts and refresh-token-cleanup.service.ts.
-- SHA-256 is a parameter; random values, row ids and the clock are arguments.
pub mod Rows
pub mod Spend
pub mod Sweep
use finlytic_ecosystem.Prelude.{
  ℕ, ◌+◌, ◌*◌, Bool, not, ◌&&◌, Option, none, some, List, map, String, str_eq, ltb, ◌==◌,
  if◌then◌else◌, is_some, find, filter, count,
}
use finlytic_ecosystem.Prelude.Effects.{ok, err, Eff, ◌>>=◌, ◌>>◌, pure}
use finlytic_ecosystem.Auth.Store.{RefreshToken, Db, Error, known_request, insert_refresh_token}

pub record ClientMeta : Type 0 where
  pub ip_address : Option String
  pub user_agent : Option String

pub record IssuedRefreshToken : Type 0 where
  pub raw : String
  pub row : RefreshToken

-- What one call draws: `randomBytes`, and the id that the database gives to the row.
pub record Fresh : Type 0 where
  pub raw : String
  pub row_id : String

abbrev pub is_unrevoked : RefreshToken → Bool
is_unrevoked r = not (is_some r.revoked_at)

abbrev pub has_hash : String → RefreshToken → Bool
has_hash h r = str_eq r.token_hash h

abbrev pub in_family : String → RefreshToken → Bool
in_family f r = str_eq r.family_id f

-- The `where` of `revokeFamily`.
abbrev pub is_live : String → RefreshToken → Bool
is_live f r = in_family f r && is_unrevoked r

abbrev pub revoke_at : ℕ → RefreshToken → RefreshToken
revoke_at now r = record r { revoked_at = some now }

-- `updateMany`: the rows that pass the test are changed.
abbrev pub update_where :
    (RefreshToken → Bool) → (RefreshToken → RefreshToken) → List RefreshToken → List RefreshToken
update_where p f rows = map (λ r. if p r then f r else r) rows

-- The `where` of the update in `spend`.
abbrev pub is_spendable : String → ℕ → RefreshToken → Bool
is_spendable h now r = has_hash h r && (is_unrevoked r && ltb now r.expires_at)

unfoldable pub spend_update : String → ℕ → Eff Db Error ℕ
spend_update h now db = (
  ok (count (is_spendable h now) db.refresh_tokens),
  record db {
    refresh_tokens = update_where (is_spendable h now) (revoke_at now) db.refresh_tokens;
  },
)

unfoldable pub find_by_hash : String → Eff Db Error (Option RefreshToken)
find_by_hash h db = (ok (find (has_hash h) db.refresh_tokens), db)

unfoldable pub revoke_family : String → ℕ → Eff Db Error (Unit {0})
revoke_family f now db = (
  ok tt,
  record db { refresh_tokens = update_where (is_live f) (revoke_at now) db.refresh_tokens },
)

unfoldable pub link_replacement : String → String → Eff Db Error (Unit {0})
link_replacement spent_id replacement_id db =
    if is_some (find (λ (r : RefreshToken). str_eq r.id spent_id) db.refresh_tokens)
    then (
      ok tt,
      record db {
        refresh_tokens =
            update_where (λ r. str_eq r.id spent_id)
              (λ r. record r { replaced_by_id = some replacement_id }) db.refresh_tokens;
      },
    )
    else (err (known_request "P2025"), db)

-- The replay branch of `spend`.
unfoldable pub detect_reuse : ℕ → Option RefreshToken → Eff Db Error (Option RefreshToken)
detect_reuse now none = pure none
detect_reuse now (some existing) =
    if is_some existing.revoked_at
    then (do revoke_family existing.family_id now; pure none)
    else pure none

module _ (fingerprint : String → String) where
  -- The `data` of the insert in `issue`.
  abbrev pub issued_row : ℕ → ℕ → Fresh → String → String → ClientMeta → RefreshToken
  issued_row days now fresh user_id family_id meta = record {
    id = fresh.row_id;
    user_id = user_id;
    token_hash = fingerprint fresh.raw;
    family_id = family_id;
    expires_at = now + days * 24 * 60 * 60 * 1000;
    revoked_at = none;
    replaced_by_id = none;
    user_agent = meta.user_agent;
    ip_address = meta.ip_address;
    created_at = now;
  }

  unfoldable pub issue :
      ℕ → ℕ → Fresh → String → String → ClientMeta → Eff Db Error IssuedRefreshToken
  issue days now fresh user_id family_id meta = do
    row ← insert_refresh_token (issued_row days now fresh user_id family_id meta)
    pure (record { raw = fresh.raw; row = row })

  unfoldable pub start_family :
      ℕ → ℕ → Fresh → String → String → ClientMeta → Eff Db Error IssuedRefreshToken
  start_family days now fresh random_uuid user_id meta =
      issue days now fresh user_id random_uuid meta

  unfoldable pub spend : ℕ → String → Eff Db Error (Option RefreshToken)
  unfolding find_by_hash detect_reuse
  spend now raw = do
    n ← spend_update (fingerprint raw) now
    existing ← find_by_hash (fingerprint raw)
    if n == 1 then pure existing else detect_reuse now existing

  unfoldable pub revoke_found : ℕ → Option RefreshToken → Eff Db Error (Unit {0})
  revoke_found now none = pure tt
  revoke_found now (some r) = revoke_family r.family_id now

  unfoldable pub revoke_family_by_token : ℕ → String → Eff Db Error (Unit {0})
  revoke_family_by_token now raw = do r ← find_by_hash (fingerprint raw); revoke_found now r

-- `sweep` of the cleanup service. `reachable` is false where the database throws: the error is
-- swallowed and the count is 0.
unfoldable pub sweep : Bool → ℕ → Db → ℕ × Db
sweep reachable now db =
    if reachable
    then (
      count (λ (r : RefreshToken). ltb r.expires_at now) db.refresh_tokens,
      record db {
        refresh_tokens =
            filter (λ (r : RefreshToken). not (ltb r.expires_at now)) db.refresh_tokens;
      },
    )
    else (0, db)
