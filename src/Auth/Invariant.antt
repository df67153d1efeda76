-- ===== src/Auth/Invariant.antt =====
-- The invariant of the tables behind services/user-management/src/auth, and the queries that keep it.
use finlytic_ecosystem.Prelude.{
  ℕ, ◌≤◌, ◌≡◌, refl, Bool, true, false, not, ◌||◌, some, is_some, String, str_eq, eq_iff, arith,
  ltb, find, count, any, Bool-cases, inl, inr,
}
use finlytic_ecosystem.Prelude.Counting.{count-zero_of_any, count-filter-le}
use finlytic_ecosystem.Auth.Store.{RefreshToken, User, Db, insert_refresh_token, insert_user}
use finlytic_ecosystem.Auth.RefreshToken.{
  has_hash, is_live, is_spendable, revoke_at, spend_update, revoke_family, link_replacement, sweep,
}
use finlytic_ecosystem.Auth.RefreshToken.Rows.{count-update_where, live-update_where}

abbrev pub has_id : String → RefreshToken → Bool
has_id i r = str_eq r.id i

abbrev pub has_email : String → User → Bool
has_email e u = str_eq u.email e

-- Row ids, token hashes and e-mail addresses are unique, and a session family has at most one
-- unrevoked row.
pub record IsSound (db : Db) : Type 0 where
  pub one_hash : (h : String) → count (has_hash h) db.refresh_tokens ≤ 1
  pub one_id : (i : String) → count (has_id i) db.refresh_tokens ≤ 1
  pub one_live : (f : String) → count (is_live f) db.refresh_tokens ≤ 1
  pub one_email : (e : String) → count (has_email e) db.users ≤ 1

pub spend_update-IsSound :
    (h : String) (now : ℕ) (db : Db) → IsSound db → IsSound (spend_update h now db).1
unfolding spend_update
spend_update-IsSound h now db s = record {
  one_hash = λ k. omega (
    arith,
    s.one_hash k,
    count-update_where (has_hash k) (is_spendable h now) (revoke_at now) db.refresh_tokens
        (λ r. refl),
  );
  one_id = λ i. omega (
    arith,
    s.one_id i,
    count-update_where (has_id i) (is_spendable h now) (revoke_at now) db.refresh_tokens
        (λ r. refl),
  );
  one_live = λ f.
      omega (arith, s.one_live f, live-update_where (is_spendable h now) now f db.refresh_tokens);
  one_email = s.one_email;
}

pub revoke_family-IsSound :
    (f : String) (now : ℕ) (db : Db) → IsSound db → IsSound (revoke_family f now db).1
unfolding revoke_family
revoke_family-IsSound f now db s = record {
  one_hash = λ k. omega (
    arith,
    s.one_hash k,
    count-update_where (has_hash k) (is_live f) (revoke_at now) db.refresh_tokens (λ r. refl),
  );
  one_id = λ i. omega (
    arith,
    s.one_id i,
    count-update_where (has_id i) (is_live f) (revoke_at now) db.refresh_tokens (λ r. refl),
  );
  one_live =
      λ g. omega (arith, s.one_live g, live-update_where (is_live f) now g db.refresh_tokens);
  one_email = s.one_email;
}

pub link_replacement-IsSound :
    (i j : String) (db : Db) → IsSound db → IsSound (link_replacement i j db).1
unfolding link_replacement
link_replacement-IsSound i j db s =
    elim (Bool-cases (is_some (find (has_id i) db.refresh_tokens))) [
      | inr missing ↦ rw (missing, link_replacement) s
      | inl found ↦
          rw (found, link_replacement)
            (record {
              one_hash = λ k. omega (
                arith,
                s.one_hash k,
                count-update_where (has_hash k) (has_id i) link db.refresh_tokens (λ r. refl),
              );
              one_id = λ k. omega (
                arith,
                s.one_id k,
                count-update_where (has_id k) (has_id i) link db.refresh_tokens (λ r. refl),
              );
              one_live = λ f. omega (
                arith,
                s.one_live f,
                count-update_where (is_live f) (has_id i) link db.refresh_tokens (λ r. refl),
              );
              one_email = s.one_email;
            })
    ]
  where
    link : RefreshToken → RefreshToken
    link r = record r { replaced_by_id = some j }

-- The family of a new row must hold no other unrevoked row.
pub insert_refresh_token-IsSound :
    (row : RefreshToken) (db : Db)
    → IsSound db
    → count (is_live row.family_id) db.refresh_tokens ≡ 0
    → IsSound (insert_refresh_token row db).1
unfolding insert_refresh_token
insert_refresh_token-IsSound row db s none_live = elim (Bool-cases (any taken db.refresh_tokens)) [
  | inl clash ↦ rw (clash, insert_refresh_token) s
  | inr free ↦
      rw (free, insert_refresh_token)
        (elim (Bool-cases (any (λ (u : User). str_eq u.id row.user_id) db.users)) [
          | inr orphan ↦ rw (orphan) s
          | inl owned ↦ rw (owned) (record {
            one_hash =
                λ k. ground (arith, s.one_hash k, eq_iff row.token_hash k, absent_hash free k);
            one_id = λ k. ground (arith, s.one_id k, eq_iff row.id k, absent_id free k);
            one_live = λ f. ground (arith, s.one_live f, eq_iff row.family_id f, none_live);
            one_email = s.one_email;
          })
        ])
]
  where
    taken : RefreshToken → Bool
    taken r = str_eq r.token_hash row.token_hash || str_eq r.id row.id

    absent_hash :
        any taken db.refresh_tokens ≡ false
        → (k : String) → row.token_hash ≡ k
        → count (has_hash k) db.refresh_tokens ≡ 0
    absent_hash free k e = rw (← e) (
        count-zero_of_any (has_hash row.token_hash) taken db.refresh_tokens (λ x h. ground arith)
          free)

    absent_id :
        any taken db.refresh_tokens ≡ false
        → (k : String) → row.id ≡ k
        → count (has_id k) db.refresh_tokens ≡ 0
    absent_id free k e =
        rw (← e)
          (count-zero_of_any (has_id row.id) taken db.refresh_tokens (λ x h. ground arith) free)

pub insert_user-IsSound : (row : User) (db : Db) → IsSound db → IsSound (insert_user row db).1
unfolding insert_user
insert_user-IsSound row db s = elim (Bool-cases (any taken db.users)) [
  | inl clash ↦ rw (clash, insert_user) s
  | inr free ↦
      rw (free, insert_user)
        (record {
          one_hash = s.one_hash;
          one_id = s.one_id;
          one_live = s.one_live;
          one_email = λ e. ground (arith, s.one_email e, eq_iff row.email e, absent free e);
        })
]
  where
    taken : User → Bool
    taken u = str_eq u.email row.email || str_eq u.id row.id

    absent :
        any taken db.users ≡ false → (k : String) → row.email ≡ k → count (has_email k) db.users ≡ 0
    absent free k e =
        rw (← e) (count-zero_of_any (has_email row.email) taken db.users (λ x h. ground arith) free)

pub sweep-IsSound :
    (reachable : Bool) (t : ℕ) (db : Db) → IsSound db → IsSound (sweep reachable t db).1
unfolding sweep
sweep-IsSound false t db s = s
sweep-IsSound true t db s = record {
  one_hash = λ k. omega (arith, s.one_hash k, count-filter-le (has_hash k) kept db.refresh_tokens);
  one_id = λ k. omega (arith, s.one_id k, count-filter-le (has_id k) kept db.refresh_tokens);
  one_live = λ f. omega (arith, s.one_live f, count-filter-le (is_live f) kept db.refresh_tokens);
  one_email = s.one_email;
}
  where
    kept : RefreshToken → Bool
    kept r = not (ltb r.expires_at t)
