-- ===== src/Auth/Rotation.antt =====
-- Session rotation by services/user-management/src/auth/auth.service.ts: the refusals of `refresh`,
-- and what they leave behind.
pub mod Success
use finlytic_ecosystem.Prelude.{
  ℕ, ◌+◌, ◌≤◌, ◌<◌, ◌≡◌, ◌≢◌, refl, ◌∙◌, sym, ap, Bool, true, false, not, ◌&&◌, ◌||◌, Option, none,
  some, List, ◌∷◌, String, str_eq, eq_iff, arith, ltb, if◌then◌else◌, find, count, any,
  Option-cases, Bool-cases, inl, inr, find-some-holds,
}
use finlytic_ecosystem.Prelude.Counting.{count-pos_of_find, count_mono, count-zero_of_any}
use finlytic_ecosystem.Prelude.Effects.{
  Result, ok, err, bind_ok, bind_of_result, bind-eq-ok, ◌>>=◌, pure,
}
use finlytic_ecosystem.Auth.Store.{
  insert_refresh_token, RefreshToken, User, Db, Error, unauthorized,
}
use finlytic_ecosystem.Auth.RefreshToken.{
  ClientMeta, Fresh, is_unrevoked, has_hash, in_family, is_live, is_spendable, revoke_at, spend,
  spend_update, revoke_family, issue, issued_row, IssuedRefreshToken, link_replacement,
}
use finlytic_ecosystem.Auth.RefreshToken.Rows.{
  live-update_where, live-revoke_family, closed-update_where, count-update_where,
}
use finlytic_ecosystem.Auth.RefreshToken.Spend.{
  HasUniqueHashes, spent_of, spend_live, spend-eq-spent_of,
}
use finlytic_ecosystem.Auth.Service.{
  Platform, LoginResponse, refresh, refresh_spent, rotate, build_session,
}
use finlytic_ecosystem.Auth.Invariant.{IsSound}
use finlytic_ecosystem.Auth.Users.{find_by_id}

abbrev pub is_open : String → RefreshToken → Bool
is_open h r = has_hash h r && is_unrevoked r

-- Spending a live token leaves no unrevoked row in its family.
pub spend_live-none_live :
    (h : String) (now : ℕ) (db : Db) (e : RefreshToken)
    → IsSound db
    → find (has_hash h) db.refresh_tokens ≡ some e
    → is_unrevoked e && ltb now e.expires_at ≡ true
    → count (is_live e.family_id) (spend_update h now db).1.refresh_tokens ≡ 0
unfolding spend_update
spend_live-none_live h now db e s found live = omega (
  arith,
  s.one_live e.family_id,
  live-update_where (is_spendable h now) now e.family_id db.refresh_tokens,
  count-pos_of_find (λ r. is_live e.family_id r && is_spendable h now r) (has_hash h)
      db.refresh_tokens e found
      (ground (
        arith,
        find-some-holds (has_hash h) db.refresh_tokens e found,
        eq_iff e.family_id e.family_id,
      )),
)

-- So with the row of the token itself.
pub spend_live-none_open :
    (h : String) (now : ℕ) (db : Db) (e : RefreshToken)
    → IsSound db
    → find (has_hash h) db.refresh_tokens ≡ some e
    → is_unrevoked e && ltb now e.expires_at ≡ true
    → count (is_open h) (spend_update h now db).1.refresh_tokens ≡ 0
unfolding spend_update
spend_live-none_open h now db e s found live = omega (
  arith,
  s.one_hash h,
  count_mono (is_open h) (has_hash h) db.refresh_tokens (λ r k. ground arith),
  closed-update_where (is_open h) (is_spendable h now) now db.refresh_tokens (λ r. ground arith),
  count-pos_of_find (λ r. is_open h r && is_spendable h now r) (has_hash h) db.refresh_tokens e
      found (ground (arith, find-some-holds (has_hash h) db.refresh_tokens e found)),
)

pub count-link_replacement :
    (q : RefreshToken → Bool) (i j : String) (db : Db)
    → ((r : RefreshToken) → q (record r { replaced_by_id = some j }) ≡ q r)
    → count q (link_replacement i j db).1.refresh_tokens ≡ count q db.refresh_tokens
unfolding link_replacement
count-link_replacement q i j db h = ground (
  arith,
  count-update_where q (λ r. str_eq r.id i) (λ r. record r { replaced_by_id = some j })
      db.refresh_tokens h,
)

-- No unrevoked row holds the hash: `spend` gives null.
pub spend-none_of_count :
    (fingerprint : String → String) (now : ℕ) (raw : String) (db : Db)
    → HasUniqueHashes db
    → count (is_open (fingerprint raw)) db.refresh_tokens ≡ 0
    → (spend fingerprint now raw db).0 ≡ ok none
spend-none_of_count fingerprint now raw db unique closed =
    spend-eq-spent_of fingerprint now raw db unique
    ∙ elim (Option-cases (find (has_hash (fingerprint raw)) db.refresh_tokens)) [
      | inl missing ↦ rw missing
      | inr (e, found) ↦ rw found (
          ground (
            arith,
            find-some-holds (has_hash (fingerprint raw)) db.refresh_tokens e found,
            count-pos_of_find (is_open (fingerprint raw)) (has_hash (fingerprint raw))
                db.refresh_tokens e found,
          ))
    ]

module _ (p : Platform) (now : ℕ) (fresh : Fresh) (meta : ClientMeta) (raw : String) (db : Db)
    (s : IsSound db) (present : str_eq raw "" ≡ false) where
  pub refresh_dead :
      spent_of now (find (has_hash (p.sha256_hex raw)) db.refresh_tokens) ≡ none
      → refresh p now fresh (some raw) meta db
        ≡ (err (unauthorized "Invalid refresh token"), (spend p.sha256_hex now raw db).1)
  unfolding refresh refresh_spent
  refresh_dead dead = rw present (
      bind_of_result (spend p.sha256_hex now raw) (refresh_spent p now fresh meta) db
        (spend-eq-spent_of p.sha256_hex now raw db s.one_hash ∙ ap ok dead))

  pub refresh_live :
      (e : RefreshToken)
      → find (has_hash (p.sha256_hex raw)) db.refresh_tokens ≡ some e
      → is_unrevoked e && ltb now e.expires_at ≡ true
      → refresh p now fresh (some raw) meta db
        ≡ refresh_spent p now fresh meta
            (some (revoke_at now e))
            (spend_update (p.sha256_hex raw) now db).1
  unfolding refresh
  refresh_live e found live = rw present (
      bind_ok (spend p.sha256_hex now raw) (refresh_spent p now fresh meta)
        (spend_live p.sha256_hex now raw db s.one_hash e found live))

-- On a sound table, a non-empty live token whose owner is gone or disabled is refused, and its
-- session family is left with no unrevoked row.
pub refresh_idle :
    (p : Platform) (now : ℕ) (fresh : Fresh) (meta : ClientMeta) (raw : String) (db : Db)
    (e : RefreshToken)
    → IsSound db
    → str_eq raw "" ≡ false
    → find (has_hash (p.sha256_hex raw)) db.refresh_tokens ≡ some e
    → is_unrevoked e && ltb now e.expires_at ≡ true
    → ((u : User)
        → find (λ (u : User). str_eq u.id e.user_id) db.users ≡ some u
        → u.is_active ≡ false)
    → let after = refresh p now fresh (some raw) meta db in
      (after.0 ≡ err (unauthorized "Invalid refresh token"))
      × (count (is_live e.family_id) after.1.refresh_tokens ≡ 0)
unfolding refresh_spent find_by_id rotate revoke_family spend_update
refresh_idle p now fresh meta raw db e s present found live idle =
    rw (refresh_live p now fresh meta raw db s present e found live)
      (elim (Option-cases (find (λ (u : User). str_eq u.id e.user_id) db.users)) [
        | inl missing ↦ rw missing (refl, live-revoke_family now e.family_id _)
        | inr (u, owned) ↦ rw owned (
            ground (
              arith,
              idle u owned,
              live-revoke_family now e.family_id
                  (spend_update (p.sha256_hex raw) now db).1.refresh_tokens,
            ))
      ])
