-- ===== src/Auth/Rotation/Success.antt =====
-- Session rotation by services/user-management/src/auth/auth.service.ts: what a `refresh` that
-- succeeds has established, and when it succeeds.
use finlytic_ecosystem.Prelude.{
  ℕ, ◌<◌, ◌≡◌, refl, ◌∙◌, ap, Bool, true, false, ◌&&◌, ◌||◌, some, List, ◌∷◌, String, str_eq,
  eq_iff, arith, ltb, find, count, any, Option-cases, Bool-cases, is_some, inl, inr,
  find-some-holds,
}
use finlytic_ecosystem.Prelude.Counting.{
  count-pos_of_find, count_mono, count-zero_of_any, any-of_find, is_some-find,
}
use finlytic_ecosystem.Prelude.Effects.{ok}
use finlytic_ecosystem.Auth.Store.{insert_refresh_token, RefreshToken, User, Db}
use finlytic_ecosystem.Auth.RefreshToken.{
  ClientMeta, Fresh, is_unrevoked, has_hash, is_live, is_spendable, update_where, revoke_at,
  spend_update, revoke_family, issue, issued_row, link_replacement,
}
use finlytic_ecosystem.Auth.RefreshToken.Rows.{count-update_where, any-update_where}
use finlytic_ecosystem.Auth.Service.{
  Platform, LoginResponse, refresh, refresh_spent, rotate, build_session,
}
use finlytic_ecosystem.Auth.Invariant.{IsSound}
use finlytic_ecosystem.Auth.Users.{find_by_id}
use finlytic_ecosystem.Auth.Rotation.{
  is_open, spend_live-none_live, spend_live-none_open, count-link_replacement, refresh_dead,
  refresh_live,
}

module _ (p : Platform) (now : ℕ) (fresh : Fresh) (meta : ClientMeta) (spent : RefreshToken)
    (u : User) (db db' : Db) (response : LoginResponse)
    (done : rotate p now fresh meta spent (some u) db ≡ (ok response, db')) where
  abbrev row : RefreshToken
  row = issued_row p.sha256_hex p.refresh_token_ttl_days now fresh u.id spent.family_id meta

  rotate_ok :
      (u.is_active ≡ true)
      × (response ≡ build_session p u fresh.raw)
      × (any (λ r. str_eq r.token_hash row.token_hash || str_eq r.id row.id) db.refresh_tokens
          ≡ false)
      × (db'
          ≡ (link_replacement spent.id fresh.row_id
              (record db { refresh_tokens = row ∷ db.refresh_tokens })).1)
  unfolding rotate issue insert_refresh_token revoke_family link_replacement
  rotate_ok = ground arith

spend_update-count :
    (h : String) (now : ℕ) (db : Db) (e : RefreshToken)
    → find (has_hash h) db.refresh_tokens ≡ some e
    → 0 < count (has_hash h) (spend_update h now db).1.refresh_tokens
unfolding spend_update
spend_update-count h now db e found = omega (
  arith,
  count-update_where (has_hash h) (is_spendable h now) (revoke_at now) db.refresh_tokens
      (λ r. refl),
  count-pos_of_find (has_hash h) (has_hash h) db.refresh_tokens e found
      (find-some-holds (has_hash h) db.refresh_tokens e found),
)

-- A successful `refresh`: the token was live, its row is used up, its family holds one unrevoked row,
-- which is the new one, and the session is the active owner's.
pub record IsRotated (p : Platform) (now : ℕ) (fresh : Fresh) (raw : String) (db db' : Db)
    (response : LoginResponse) : Type 0 where
  pub spent : RefreshToken
  pub owner : User
  pub found : find (has_hash (p.sha256_hex raw)) db.refresh_tokens ≡ some spent
  pub was_live : is_unrevoked spent && ltb now spent.expires_at ≡ true
  pub owned : find (λ (u : User). str_eq u.id spent.user_id) db.users ≡ some owner
  pub active : owner.is_active ≡ true
  pub session : response ≡ build_session p owner fresh.raw
  pub used_up : count (is_open (p.sha256_hex raw)) db'.refresh_tokens ≡ 0
  pub one_live : count (is_live spent.family_id) db'.refresh_tokens ≡ 1
  pub new_open : count (is_open (p.sha256_hex fresh.raw)) db'.refresh_tokens ≡ 1

module _ (p : Platform) (now : ℕ) (fresh : Fresh) (meta : ClientMeta) (raw : String) (db db' : Db)
    (response : LoginResponse) (e : RefreshToken) (s : IsSound db)
    (found : find (has_hash (p.sha256_hex raw)) db.refresh_tokens ≡ some e)
    (live : is_unrevoked e && ltb now e.expires_at ≡ true) where
  abbrev h : String
  h = p.sha256_hex raw

  abbrev spent_db : Db
  spent_db = (spend_update h now db).1

  rotate-IsRotated :
      (u : User)
      → find (λ (u : User). str_eq u.id e.user_id) db.users ≡ some u
      → rotate p now fresh meta (revoke_at now e) (some u) spent_db ≡ (ok response, db')
      → IsRotated p now fresh raw db db' response
  rotate-IsRotated u owned done = record {
    spent = e;
    owner = u;
    found = found;
    was_live = live;
    owned = owned;
    active = rotated.0;
    session = rotated.1;
    used_up =
        after (is_open h) (λ r. refl)
        ∙ ground (
          arith,
          spend_live-none_open h now db e s found live,
          eq_iff new.token_hash h,
          unused,
          kept,
        );
    one_live =
        after (is_live e.family_id) (λ r. refl)
        ∙ ground
            (arith, spend_live-none_live h now db e s found live, eq_iff e.family_id e.family_id);
    new_open =
        after (is_open new.token_hash) (λ r. refl)
        ∙ ground (
          arith,
          unused,
          count_mono (is_open new.token_hash) (has_hash new.token_hash) spent_db.refresh_tokens
              (λ r k. ground arith),
          eq_iff new.token_hash new.token_hash,
        );
  }
    where
      new : RefreshToken
      new = issued_row p.sha256_hex p.refresh_token_ttl_days now fresh u.id e.family_id meta

      rotated :
          (u.is_active ≡ true)
          × (response ≡ build_session p u fresh.raw)
          × (any
                (λ r. str_eq r.token_hash new.token_hash || str_eq r.id new.id)
                spent_db.refresh_tokens
              ≡ false)
          × (db'
              ≡ (link_replacement e.id fresh.row_id
                  (record spent_db { refresh_tokens = new ∷ spent_db.refresh_tokens })).1)
      rotated = rotate_ok p now fresh meta (revoke_at now e) u spent_db db' response done

      after :
          (q : RefreshToken → Bool)
          → ((r : RefreshToken) → q (record r { replaced_by_id = some fresh.row_id }) ≡ q r)
          → count q db'.refresh_tokens ≡ count q (new ∷ spent_db.refresh_tokens)
      after q stable =
          ap (λ (d : Db). count q d.refresh_tokens) rotated.3
          ∙ count-link_replacement q e.id fresh.row_id
              (record spent_db { refresh_tokens = new ∷ spent_db.refresh_tokens }) stable

      unused : count (has_hash new.token_hash) spent_db.refresh_tokens ≡ 0
      unused =
          count-zero_of_any (has_hash new.token_hash)
            (λ r. str_eq r.token_hash new.token_hash || str_eq r.id new.id) spent_db.refresh_tokens
            (λ r k. ground arith) rotated.2

      kept : new.token_hash ≡ h → 0 < count (has_hash new.token_hash) spent_db.refresh_tokens
      kept same = rw same (spend_update-count h now db e found)

  pub refresh_spent-IsRotated :
      refresh_spent p now fresh meta (some (revoke_at now e)) spent_db ≡ (ok response, db')
      → IsRotated p now fresh raw db db' response
  unfolding refresh_spent find_by_id spend_update rotate revoke_family
  refresh_spent-IsRotated done =
      elim (Option-cases (find (λ (u : User). str_eq u.id e.user_id) db.users)) [
        | inl missing ↦ absurd (ground (arith, missing))
        | inr (u, owned) ↦ rotate-IsRotated u owned (rw owned at done)
      ]

refresh_empty :
    (p : Platform) (now : ℕ) (fresh : Fresh) (meta : ClientMeta) (raw : String) (db db' : Db)
    (response : LoginResponse)
    → str_eq raw "" ≡ true
    → ¬ (refresh p now fresh (some raw) meta db ≡ (ok response, db'))
unfolding refresh
refresh_empty p now fresh meta raw db db' response empty done = ground (arith, empty)

-- On a sound table, a refresh that succeeds presented a live token of an active user. It uses that
-- token up, leaves one unrevoked row in the session family, which has the hash of the new token,
-- and answers with a session of the owner.
pub refresh-IsRotated :
    (p : Platform) (now : ℕ) (fresh : Fresh) (meta : ClientMeta) (raw : String) (db db' : Db)
    (response : LoginResponse)
    → IsSound db
    → refresh p now fresh (some raw) meta db ≡ (ok response, db')
    → IsRotated p now fresh raw db db' response
refresh-IsRotated p now fresh meta raw db db' response s done = elim (Bool-cases (str_eq raw "")) [
  | inl empty ↦ absurd (refresh_empty p now fresh meta raw db db' response empty done)
  | inr present ↦ elim (Option-cases (find (has_hash (p.sha256_hex raw)) db.refresh_tokens)) [
    | inl missing ↦
        absurd (ground (arith, refresh_dead p now fresh meta raw db s present (rw missing), done))
    | inr (e, found) ↦ elim (Bool-cases (is_unrevoked e && ltb now e.expires_at)) [
      | inr dead ↦ absurd (
          ground (
            arith,
            refresh_dead p now fresh meta raw db s present (rw found (ground (arith, dead))),
            done,
          ))
      | inl live ↦
          refresh_spent-IsRotated p now fresh meta raw db db' response e s found live
            (rw (refresh_live p now fresh meta raw db s present e found live) at done)
    ]
  ]
]

-- Nothing in the table has the hash or the id of the row that is about to be issued.
unfoldable pub IsUnused : Platform → Fresh → Db → Type 0
IsUnused p fresh db =
    any (λ r. str_eq r.token_hash (p.sha256_hex fresh.raw) || str_eq r.id fresh.row_id)
      db.refresh_tokens
    ≡ false

any-spend_update :
    (h i j : String) (now : ℕ) (db : Db)
    → any (λ r. str_eq r.token_hash h || str_eq r.id i) (spend_update j now db).1.refresh_tokens
      ≡ any (λ r. str_eq r.token_hash h || str_eq r.id i) db.refresh_tokens
unfolding spend_update
any-spend_update h i j now db =
    any-update_where (λ r. str_eq r.token_hash h || str_eq r.id i) (is_spendable j now)
      (revoke_at now) db.refresh_tokens (λ r. refl)

-- On a sound table, a non-empty live token of an active owner is refreshed, where no row has the
-- hash of the new token or the id of its row: `refresh` answers with a session of the owner.
pub refresh_active :
    (p : Platform) (now : ℕ) (fresh : Fresh) (meta : ClientMeta) (raw : String) (db : Db)
    (e : RefreshToken) (u : User)
    → IsSound db
    → str_eq raw "" ≡ false
    → find (has_hash (p.sha256_hex raw)) db.refresh_tokens ≡ some e
    → is_unrevoked e && ltb now e.expires_at ≡ true
    → find (λ (u : User). str_eq u.id e.user_id) db.users ≡ some u
    → u.is_active ≡ true
    → IsUnused p fresh db
    → (refresh p now fresh (some raw) meta db).0 ≡ ok (build_session p u fresh.raw)
unfolding refresh_spent find_by_id rotate issue insert_refresh_token link_replacement spend_update
    IsUnused
refresh_active p now fresh meta raw db e u s present found live owned active unused =
    rw (refresh_live p now fresh meta raw db s present e found live) (
      rw owned (
        ground (
          arith,
          active,
          any-spend_update (p.sha256_hex fresh.raw) fresh.row_id (p.sha256_hex raw) now db,
          unused,
          present_row,
          owner_row,
        )))
  where
    spent_rows : List RefreshToken
    spent_rows =
        update_where (is_spendable (p.sha256_hex raw) now) (revoke_at now) db.refresh_tokens

    present_row : is_some (find (λ (r : RefreshToken). str_eq r.id e.id) spent_rows) ≡ true
    present_row =
        is_some-find (λ (r : RefreshToken). str_eq r.id e.id) spent_rows
        ∙ any-update_where (λ r. str_eq r.id e.id) (is_spendable (p.sha256_hex raw) now)
            (revoke_at now) db.refresh_tokens (λ r. refl)
        ∙ any-of_find (has_hash (p.sha256_hex raw)) (λ (r : RefreshToken). str_eq r.id e.id)
            db.refresh_tokens e found (ground (arith, eq_iff e.id e.id))

    owner_row : any (λ (v : User). str_eq v.id u.id) db.users ≡ true
    owner_row =
        any-of_find (λ (v : User). str_eq v.id e.user_id) (λ (v : User). str_eq v.id u.id) db.users
          u owned (ground (arith, eq_iff u.id u.id))
