-- ===== src/Auth/Sessions.antt =====
-- Histories of requests to services/user-management/src/auth/auth.service.ts, the hourly sweep among
-- them: each keeps the invariant of the tables.
mod Keeps
use finlytic_ecosystem.Prelude.{
  ℕ, ◌≤◌, ◌≡◌, refl, sym, ap, ◌∙◌, Bool, true, false, not, ◌&&◌, Option, none, some, List, [], ◌∷◌,
  String, str_eq, arith, ltb, if◌then◌else◌, find, count, Option-cases, Bool-cases, inl, inr, ◌==◌,
  is_some,
}
use finlytic_ecosystem.Prelude.Effects.{
  Result, Eff, ok, err, bind_keeps, ◌>>=◌, ◌>>◌, pure, throw, if_keeps,
}
use finlytic_ecosystem.Auth.Store.{
  RefreshToken, User, Db, Error, unauthorized, insert_user, insert_refresh_token,
}
use finlytic_ecosystem.Auth.RefreshToken.{
  ClientMeta, Fresh, IssuedRefreshToken, is_unrevoked, has_hash, in_family, is_live, revoke_at,
  spend, spend_update, issue, issued_row, start_family, revoke_family, revoke_family_by_token,
  revoke_found, find_by_hash, detect_reuse, sweep, link_replacement,
}
use finlytic_ecosystem.Auth.RefreshToken.Spend.{spent_of}
use finlytic_ecosystem.Auth.Users.{find_by_id, find_by_email, create}
use finlytic_ecosystem.Auth.Service.{
  Platform, Credentials, LoginResponse, register, create_account, login, login_checked, refresh,
  refresh_spent, rotate, logout, build_session,
}
use finlytic_ecosystem.Auth.Invariant.{
  IsSound, spend_update-IsSound, revoke_family-IsSound, link_replacement-IsSound,
  insert_refresh_token-IsSound, insert_user-IsSound, sweep-IsSound,
}
use finlytic_ecosystem.Auth.Rotation.{refresh_dead, refresh_live, spend_live-none_live}
use finlytic_ecosystem.Auth.Rotation.Success.{IsRotated, refresh_spent-IsRotated}
use Keeps.{register-IsSound, login-IsSound, refresh-IsSound, logout-IsSound}

pub data Request : Type 0 where
  registers : (salt row_id : String) (now : ℕ) → Credentials → Request
  logs_in :
      (decoy_hash : String) (now : ℕ)
      → Fresh
      → (random_uuid : String) → Credentials
      → ClientMeta
      → Request
  refreshes : (now : ℕ) → Fresh → Option String → ClientMeta → Request
  logs_out : (now : ℕ) → Option String → Request
  sweeps : (reachable : Bool) (now : ℕ) → Request

unfoldable pub step : Platform → Request → Db → Db
step p (registers salt row_id now dto) db = (register p salt row_id now dto db).1
step p (logs_in decoy_hash now fresh random_uuid dto meta) db =
    (login p decoy_hash now fresh random_uuid dto meta db).1
step p (refreshes now fresh presented meta) db = (refresh p now fresh presented meta db).1
step p (logs_out now presented) db = (logout p now presented db).1
step p (sweeps reachable now) db = (sweep reachable now db).1

-- `randomUUID` gives a family that no row has.
abbrev pub HasFreshFamily : Request → Db → Type 0
HasFreshFamily (registers _ _ _ _) db = Unit
HasFreshFamily (logs_in _ _ _ random_uuid _ _) db =
    count (in_family random_uuid) db.refresh_tokens ≡ 0
HasFreshFamily (refreshes _ _ _ _) db = Unit
HasFreshFamily (logs_out _ _) db = Unit
HasFreshFamily (sweeps _ _) db = Unit

unfoldable pub run : Platform → List Request → Db → Db
run p [] db = db
run p (r ∷ rs) db = run p rs (step p r db)

abbrev pub AllFresh : Platform → List Request → Db → Type 0
AllFresh p [] db = Unit
AllFresh p (r ∷ rs) db = HasFreshFamily r db × AllFresh p rs (step p r db)

module _ (p : Platform) where
  pub step-IsSound :
      (r : Request) (db : Db) → IsSound db → HasFreshFamily r db → IsSound (step p r db)
  unfolding step
  step-IsSound (registers salt row_id now dto) db s f = register-IsSound p now salt row_id dto db s
  step-IsSound (logs_in decoy_hash now fresh random_uuid dto meta) db s f =
      login-IsSound p now decoy_hash fresh random_uuid dto meta db s f
  step-IsSound (refreshes now fresh presented meta) db s f =
      refresh-IsSound p now fresh meta presented db s
  step-IsSound (logs_out now presented) db s f = logout-IsSound p now presented db s
  step-IsSound (sweeps reachable now) db s f = sweep-IsSound reachable now db s

-- After any history of registrations, logins, refreshes, logouts and sweeps, in which each login
-- draws a family id that no row has, row ids, token hashes and addresses are unique and each session
-- family has at most one unrevoked refresh token.
pub run-IsSound :
    (p : Platform) (rs : List Request) (db : Db)
    → IsSound db
    → AllFresh p rs db
    → IsSound (run p rs db)
unfolding run
run-IsSound p [] db s f = s
run-IsSound p (r ∷ rs) db s (f, fs) = run-IsSound p rs (step p r db) (step-IsSound p r db s f) fs
