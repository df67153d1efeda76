-- ===== src/Auth/RefreshToken/Sweep.antt =====
-- The hourly `sweep` of services/user-management/src/auth/refresh-token-cleanup.service.ts beside
-- `spend`: pruning is invisible to whoever presents a token.
use finlytic_ecosystem.Prelude.{
  ℕ, ◌≤◌, ◌≡◌, ◌∙◌, sym, ap, Bool, true, false, not, none, some, String, arith, ltb, find, count,
  Option-cases, Bool-cases, inl, inr,
}
use finlytic_ecosystem.Prelude.Counting.{
  find-filter-none, find-filter_kept, find-filter_dropped, count-filter-le,
}
use finlytic_ecosystem.Prelude.Effects.{ok}
use finlytic_ecosystem.Auth.Store.{RefreshToken, Db}
use finlytic_ecosystem.Auth.RefreshToken.{is_unrevoked, has_hash, is_live, spend, sweep}
use finlytic_ecosystem.Auth.RefreshToken.Spend.{
  HasUniqueHashes, spent_of, spend-eq-spent_of, spend_replay,
}

abbrev is_kept : ℕ → RefreshToken → Bool
is_kept t r = not (ltb r.expires_at t)

pub sweep-HasUniqueHashes :
    (reachable : Bool) (t : ℕ) (db : Db)
    → HasUniqueHashes db
    → HasUniqueHashes (sweep reachable t db).1
unfolding sweep
sweep-HasUniqueHashes true t db unique h =
    omega (arith, count-filter-le (has_hash h) (is_kept t) db.refresh_tokens, unique h)
sweep-HasUniqueHashes false t db unique h = unique h

module _ (t now : ℕ) (earlier : t ≤ now) (db : Db) (unique : HasUniqueHashes db) where
  spent_of-sweep :
      (h : String)
      → spent_of now (find (has_hash h) (sweep true t db).1.refresh_tokens)
        ≡ spent_of now (find (has_hash h) db.refresh_tokens)
  unfolding sweep
  spent_of-sweep h = elim (Option-cases (find (has_hash h) db.refresh_tokens)) [
    | inl missing ↦
        rw (find-filter-none (has_hash h) (is_kept t) db.refresh_tokens missing, missing)
    | inr (e, found) ↦ elim (Bool-cases (is_kept t e)) [
      | inl kept ↦
          rw (find-filter_kept (has_hash h) (is_kept t) db.refresh_tokens e found kept, found)
      | inr dropped ↦
          rw
            (
              find-filter_dropped (has_hash h) (is_kept t) db.refresh_tokens e (unique h) found
                  dropped,
              found,
            )
            (ground arith)
    ]
  ]

-- Where token hashes are unique, a sweep changes no later answer: whichever token is presented at
-- or after the time of the sweep, `spend` answers what it would have answered without it.
pub spend-sweep :
    (fingerprint : String → String) (t now : ℕ) (raw : String) (db : Db)
    → HasUniqueHashes db
    → t ≤ now
    → (spend fingerprint now raw (sweep true t db).1).0 ≡ (spend fingerprint now raw db).0
spend-sweep fingerprint t now raw db unique earlier =
    spend-eq-spent_of fingerprint now raw (sweep true t db).1
      (sweep-HasUniqueHashes true t db unique)
    ∙ ap ok (spent_of-sweep t now earlier db unique (fingerprint raw))
    ∙ sym (spend-eq-spent_of fingerprint now raw db unique)

-- Where token hashes are unique, a sweep keeps the evidence: a revoked row that has not expired when
-- the sweep runs still turns a replay of its token into the revocation of its family.
pub spend_replay-sweep :
    (fingerprint : String → String) (t now : ℕ) (raw : String) (db : Db) (e : RefreshToken)
    → HasUniqueHashes db
    → find (has_hash (fingerprint raw)) db.refresh_tokens ≡ some e
    → is_unrevoked e ≡ false
    → t ≤ e.expires_at
    → let swept = (sweep true t db).1 in
      ((spend fingerprint now raw swept).0 ≡ ok none)
      × (count (is_live e.family_id) (spend fingerprint now raw swept).1.refresh_tokens ≡ 0)
unfolding sweep
spend_replay-sweep fingerprint t now raw db e unique found revoked unexpired =
    spend_replay fingerprint now raw (sweep true t db).1 e (sweep-HasUniqueHashes true t db unique)
      (find-filter_kept (has_hash (fingerprint raw)) (is_kept t) db.refresh_tokens e found
        (ground arith))
      revoked
