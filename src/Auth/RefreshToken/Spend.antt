-- ===== src/Auth/RefreshToken/Spend.antt =====
-- `spend` of services/user-management/src/auth/refresh-token.service.ts: what it answers, and that a
-- replayed token costs its whole family.
use mathlib.Core.Option
use finlytic_ecosystem.Prelude.{
  ℕ, ◌≤◌, ◌≡◌, ap, true, false, ◌&&◌, Option, none, some, String, arith, ltb, if◌then◌else◌, find,
  count, Option-cases, inl, inr, find-some-holds,
}
use finlytic_ecosystem.Prelude.Effects.{ok}
use finlytic_ecosystem.Auth.Store.{RefreshToken, Db}
use finlytic_ecosystem.Auth.RefreshToken.{
  is_unrevoked, has_hash, is_live, revoke_at, update_where, is_spendable, spend, spend_update,
  revoke_family,
}
use finlytic_ecosystem.Auth.RefreshToken.Rows.{
  count-is_spendable, count-is_spendable-none, find-update_where, live-revoke_family,
}

-- The unique constraint on `token_hash`.
abbrev pub HasUniqueHashes : Db → Type 0
HasUniqueHashes db = (h : String) → count (has_hash h) db.refresh_tokens ≤ 1

-- What `spend` should answer, from the row of the token alone.
abbrev pub spent_of : ℕ → Option RefreshToken → Option RefreshToken
spent_of now none = none
spent_of now (some e) =
    if is_unrevoked e && ltb now e.expires_at then some (revoke_at now e) else none

module _ (fingerprint : String → String) (now : ℕ) (raw : String) (db : Db) where
  spend_missing :
      find (has_hash (fingerprint raw)) db.refresh_tokens ≡ none
      → spend fingerprint now raw db ≡ (ok none, (spend_update (fingerprint raw) now db).1)
  unfolding spend spend_update
  spend_missing missing = ground (
    arith,
    count-is_spendable-none (fingerprint raw) now db.refresh_tokens missing,
    find-update_where (fingerprint raw) (is_spendable (fingerprint raw) now) now db.refresh_tokens,
  )

  module _ (unique : HasUniqueHashes db) (e : RefreshToken)
      (found : find (has_hash (fingerprint raw)) db.refresh_tokens ≡ some e) where
    matched :
        count (is_spendable (fingerprint raw) now) db.refresh_tokens
        ≡ (if is_unrevoked e && ltb now e.expires_at then 1 else 0)
    matched =
        count-is_spendable (fingerprint raw) now db.refresh_tokens e (unique (fingerprint raw))
          found

    changed :
        find
          (has_hash (fingerprint raw))
          (update_where (is_spendable (fingerprint raw) now) (revoke_at now) db.refresh_tokens)
        ≡ Option.map
            (λ r. if is_spendable (fingerprint raw) now r then revoke_at now r else r)
            (find (has_hash (fingerprint raw)) db.refresh_tokens)
    changed =
        find-update_where (fingerprint raw) (is_spendable (fingerprint raw) now) now
          db.refresh_tokens

    holds : has_hash (fingerprint raw) e ≡ true
    holds = find-some-holds (has_hash (fingerprint raw)) db.refresh_tokens e found

    pub spend_live :
        is_unrevoked e && ltb now e.expires_at ≡ true
        → spend fingerprint now raw db
          ≡ (ok (some (revoke_at now e)), (spend_update (fingerprint raw) now db).1)
    unfolding spend spend_update
    spend_live live = ground (arith, matched, changed, holds)

    pub spend_revoked :
        is_unrevoked e ≡ false
        → spend fingerprint now raw db
          ≡ (ok none, (revoke_family e.family_id now (spend_update (fingerprint raw) now db).1).1)
    unfolding spend spend_update revoke_family
    spend_revoked revoked =
        let kept : find (has_hash (fingerprint raw))
              (update_where (is_spendable (fingerprint raw) now) (revoke_at now) db.refresh_tokens)
            ≡ some e =
          ground (arith, changed, found) in
        ground (arith, matched, kept)

    pub spend_expired :
        is_unrevoked e ≡ true
        → ltb now e.expires_at ≡ false
        → spend fingerprint now raw db ≡ (ok none, (spend_update (fingerprint raw) now db).1)
    unfolding spend spend_update
    spend_expired unrevoked expired = ground (arith, matched, changed, holds)

-- Where token hashes are unique, `spend` answers from the row of the presented token alone: the
-- revoked row where that was unrevoked and unexpired, and null on every other branch.
pub spend-eq-spent_of :
    (fingerprint : String → String) (now : ℕ) (raw : String) (db : Db)
    → HasUniqueHashes db
    → (spend fingerprint now raw db).0
      ≡ ok (spent_of now (find (has_hash (fingerprint raw)) db.refresh_tokens))
spend-eq-spent_of fingerprint now raw db unique =
    elim (Option-cases (find (has_hash (fingerprint raw)) db.refresh_tokens)) [
      | inl missing ↦ rw missing (ap (λ x. x.0) (spend_missing fingerprint now raw db missing))
      | inr (e, found) ↦ ground (
        arith,
        found,
        spend_live fingerprint now raw db unique e found,
        spend_revoked fingerprint now raw db unique e found,
        spend_expired fingerprint now raw db unique e found,
      )
    ]

-- Where token hashes are unique, presenting a token that has been spent or revoked before gives
-- null, and leaves no unrevoked row in the family of the token.
pub spend_replay :
    (fingerprint : String → String) (now : ℕ) (raw : String) (db : Db) (e : RefreshToken)
    → HasUniqueHashes db
    → find (has_hash (fingerprint raw)) db.refresh_tokens ≡ some e
    → is_unrevoked e ≡ false
    → ((spend fingerprint now raw db).0 ≡ ok none)
      × (count (is_live e.family_id) (spend fingerprint now raw db).1.refresh_tokens ≡ 0)
unfolding revoke_family spend_update
spend_replay fingerprint now raw db e unique found revoked =
    let outcome = spend_revoked fingerprint now raw db unique e found revoked in
    (ap (λ x. x.0) outcome, rw outcome (live-revoke_family now e.family_id _))
