-- ===== src/Auth/RefreshToken/Rows.antt =====
-- What the updates of services/user-management/src/auth/refresh-token.service.ts do to the rows of
-- the table.
use mathlib.Core.Option
use finlytic_ecosystem.Prelude.{
  ℕ, ◌+◌, ◌≤◌, ◌≡◌, ◌∙◌, Bool, false, not, ◌&&◌, none, some, List, String, arith, ltb,
  if◌then◌else◌, find, count, any, find-some-holds,
}
use finlytic_ecosystem.Prelude.Counting.{
  count_congr, count-map, count_split, count_mono, find-map, find_unique, count-pos_of_find,
  count-zero_of_find, any-map,
}
use finlytic_ecosystem.Auth.Store.{RefreshToken}
use finlytic_ecosystem.Auth.RefreshToken.{
  is_unrevoked, has_hash, is_live, revoke_at, update_where, is_spendable,
}

pub count-update_where :
    (q p : RefreshToken → Bool) (g : RefreshToken → RefreshToken) (rows : List RefreshToken)
    → ((r : RefreshToken) → q (g r) ≡ q r)
    → count q (update_where p g rows) ≡ count q rows
count-update_where q p g rows h =
    count-map q (λ r. if p r then g r else r) rows
    ∙ count_congr (λ r. q (if p r then g r else r)) q rows (λ r. ground (arith, h r))

-- A test that no revoked row passes, before and after rows are revoked.
pub closed-update_where :
    (q p : RefreshToken → Bool) (now : ℕ) (rows : List RefreshToken)
    → ((r : RefreshToken) → q (revoke_at now r) ≡ false)
    → count q (update_where p (revoke_at now) rows) + count (λ r. q r && p r) rows ≡ count q rows
closed-update_where q p now rows h = omega (
  arith,
  count-map q (λ r. if p r then revoke_at now r else r) rows,
  count_congr (λ r. q (if p r then revoke_at now r else r)) (λ r. q r && not (p r)) rows
      (λ r. ground (arith, h r)),
  count_split q p rows,
)

pub live-update_where :
    (p : RefreshToken → Bool) (now : ℕ) (f : String) (rows : List RefreshToken)
    → count (is_live f) (update_where p (revoke_at now) rows) + count (λ r. is_live f r && p r) rows
      ≡ count (is_live f) rows
live-update_where p now f rows = closed-update_where (is_live f) p now rows (λ r. ground arith)

pub live-revoke_family :
    (now : ℕ) (f : String) (rows : List RefreshToken)
    → count (is_live f) (update_where (is_live f) (revoke_at now) rows) ≡ 0
live-revoke_family now f rows = omega (
  arith,
  live-update_where (is_live f) now f rows,
  count_congr (λ r. is_live f r && is_live f r) (is_live f) rows (λ r. ground arith),
)

pub find-update_where :
    (h : String) (p : RefreshToken → Bool) (now : ℕ) (rows : List RefreshToken)
    → find (has_hash h) (update_where p (revoke_at now) rows)
      ≡ Option.map (λ r. if p r then revoke_at now r else r) (find (has_hash h) rows)
find-update_where h p now rows =
    find-map (has_hash h) (λ r. if p r then revoke_at now r else r) rows (λ r. ground arith)

-- Token hashes are unique, so the row of a hash decides how many rows `spend` updates.
pub count-is_spendable :
    (h : String) (now : ℕ) (rows : List RefreshToken) (e : RefreshToken)
    → count (has_hash h) rows ≤ 1
    → find (has_hash h) rows ≡ some e
    → count (is_spendable h now) rows ≡ (if is_unrevoked e && ltb now e.expires_at then 1 else 0)
count-is_spendable h now rows e one found = ground (
  arith,
  count_mono (is_spendable h now) (has_hash h) rows (λ x k. ground arith),
  find_unique (has_hash h) (is_spendable h now) rows e (λ x k. ground arith) one,
  count-pos_of_find (is_spendable h now) (has_hash h) rows e found,
  find-some-holds (has_hash h) rows e found,
)

pub count-is_spendable-none :
    (h : String) (now : ℕ) (rows : List RefreshToken)
    → find (has_hash h) rows ≡ none
    → count (is_spendable h now) rows ≡ 0
count-is_spendable-none h now rows missing = omega (
  arith,
  count_mono (is_spendable h now) (has_hash h) rows (λ x k. ground arith),
  count-zero_of_find (has_hash h) rows missing,
)

pub any-update_where :
    (q p : RefreshToken → Bool) (g : RefreshToken → RefreshToken) (rows : List RefreshToken)
    → ((r : RefreshToken) → q (g r) ≡ q r)
    → any q (update_where p g rows) ≡ any q rows
any-update_where q p g rows h =
    any-map q (λ r. if p r then g r else r) rows (λ r. ground (arith, h r))
