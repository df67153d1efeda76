-- ===== src/Auth/Interleaving.antt =====
-- Concurrent requests to services/user-management/src/auth/refresh-token.service.ts. Handlers wait
-- between their queries, so the queries of many requests interleave in any order; each query is
-- atomic in the database.
use finlytic_ecosystem.Prelude.{
  ℕ, ◌+◌, ◌≤◌, ◌≡◌, refl, true, not, ◌&&◌, some, List, [], ◌∷◌, String, str_eq, arith, ltb,
  if◌then◌else◌, count, Bool-cases, inl, inr, eq_iff,
}
use finlytic_ecosystem.Prelude.Counting.{count-filter-le, count_mono}
use finlytic_ecosystem.Auth.Store.{RefreshToken, User, Db, insert_refresh_token, insert_user}
use finlytic_ecosystem.Auth.RefreshToken.{
  has_hash, is_live, is_spendable, spend_update, revoke_family, link_replacement, sweep,
}
use finlytic_ecosystem.Auth.RefreshToken.Rows.{closed-update_where, count-update_where}
use finlytic_ecosystem.Auth.Rotation.{is_open}

-- One atomic query of some handler that runs.
pub data Query : Type 0 where
  spends : (token_hash : String) (now : ℕ) → Query
  inserts : RefreshToken → Query
  revokes : (family_id : String) (now : ℕ) → Query
  links : (spent_id replacement_id : String) → Query
  prunes : (now : ℕ) → Query
  adds_user : User → Query

unfoldable pub exec : Query → Db → Db
exec (spends h now) db = (spend_update h now db).1
exec (inserts row) db = (insert_refresh_token row db).1
exec (revokes f now) db = (revoke_family f now db).1
exec (links i j) db = (link_replacement i j db).1
exec (prunes now) db = (sweep true now db).1
exec (adds_user u) db = (insert_user u db).1

-- How many rows of a hash the query spends: `spend` answers with the row where this is 1.
abbrev pub spent_by : String → Query → Db → ℕ
spent_by h (spends k now) db =
    if str_eq k h then count (is_spendable h now) db.refresh_tokens else 0
spent_by h (inserts row) db = 0
spent_by h (revokes f now) db = 0
spent_by h (links i j) db = 0
spent_by h (prunes now) db = 0
spent_by h (adds_user u) db = 0

abbrev pub issued_by : String → Query → ℕ
issued_by h (spends k now) = 0
issued_by h (inserts row) = if has_hash h row then 1 else 0
issued_by h (revokes f now) = 0
issued_by h (links i j) = 0
issued_by h (prunes now) = 0
issued_by h (adds_user u) = 0

unfoldable pub total_spent : String → List Query → Db → ℕ
total_spent h [] db = 0
total_spent h (q ∷ qs) db = spent_by h q db + total_spent h qs (exec q db)

unfoldable pub total_issued : String → List Query → ℕ
total_issued h [] = 0
total_issued h (q ∷ qs) = issued_by h q + total_issued h qs

abbrev open_rows : String → Db → ℕ
open_rows h db = count (is_open h) db.refresh_tokens

exec-open_rows :
    (h : String) (q : Query) (db : Db)
    → spent_by h q db + open_rows h (exec q db) ≤ open_rows h db + issued_by h q
unfolding exec spend_update insert_refresh_token revoke_family link_replacement sweep insert_user
exec-open_rows h (spends k now) db = elim (Bool-cases (str_eq k h)) [
  | inr other ↦ rw other (omega (arith, closed))
  | inl same ↦ rw same (omega (arith, closed, spent same))
]
  where
    closed :
        open_rows h (exec (spends k now) db)
          + count (λ r. is_open h r && is_spendable k now r) db.refresh_tokens
        ≡ open_rows h db
    closed =
        closed-update_where (is_open h) (is_spendable k now) now db.refresh_tokens
          (λ r. ground arith)

    spent :
        str_eq k h ≡ true
        → count (is_spendable h now) db.refresh_tokens
          ≤ count (λ r. is_open h r && is_spendable k now r) db.refresh_tokens
    spent same =
        count_mono (is_spendable h now) (λ r. is_open h r && is_spendable k now r) db.refresh_tokens
          (λ r m. ground (arith, eq_iff k h))
exec-open_rows h (inserts row) db = ground arith
exec-open_rows h (revokes f now) db =
    omega
      (arith, closed-update_where (is_open h) (is_live f) now db.refresh_tokens (λ r. ground arith))
exec-open_rows h (links i j) db = ground (
  arith,
  count-update_where (is_open h) (λ r. str_eq r.id i) (λ r. record r { replaced_by_id = some j })
      db.refresh_tokens (λ r. refl),
)
exec-open_rows h (prunes now) db =
    omega (arith, count-filter-le (is_open h) (λ r. not (ltb r.expires_at now)) db.refresh_tokens)
exec-open_rows h (adds_user u) db = ground arith

-- However the queries of concurrent requests interleave, the unrevoked rows of a token at the start
-- and the insertions of it are together at least the times that it is spent: a token that is issued
-- once is spent at most once.
pub total_spent-le-issued :
    (h : String) (qs : List Query) (db : Db)
    → total_spent h qs db ≤ count (is_open h) db.refresh_tokens + total_issued h qs
unfolding total_spent total_issued
total_spent-le-issued h [] db = omega arith
total_spent-le-issued h (q ∷ qs) db =
    omega (arith, exec-open_rows h q db, total_spent-le-issued h qs (exec q db))
