-- ===== src/Auth/Users.antt =====
-- services/user-management/src/users: user.mapper.ts and users.service.ts.
use finlytic_ecosystem.Prelude.{
  ℕ, Bool, true, Option, none, some, String, str_eq, if◌then◌else◌, find,
}
use finlytic_ecosystem.Prelude.Effects.{ok, Eff, pure, throw, ◌>>=◌}
use finlytic_ecosystem.Auth.Store.{User, UserRole, user, Db, Error, unauthorized, insert_user}

pub record PublicUser : Type 0 where
  pub id : String
  pub email : String
  pub role : UserRole
  pub is_active : Bool
  pub created_at : String

unfoldable pub to_public_user : (ℕ → String) → User → PublicUser
to_public_user to_iso_string u = record {
  id = u.id;
  email = u.email;
  role = u.role;
  is_active = u.is_active;
  created_at = to_iso_string u.created_at;
}

unfoldable pub find_by_email : String → Eff Db Error (Option User)
find_by_email email db = (ok (find (λ (u : User). str_eq u.email email) db.users), db)

unfoldable pub find_by_id : String → Eff Db Error (Option User)
find_by_id id db = (ok (find (λ (u : User). str_eq u.id id) db.users), db)

-- The row's id and creation time are given by the database; role and isActive by the schema.
unfoldable pub create : String → ℕ → String → String → Eff Db Error User
create row_id now email password_hash = insert_user (record {
  id = row_id;
  email = email;
  password_hash = password_hash;
  role = user;
  is_active = true;
  created_at = now;
})

unfoldable pub public_profile_of : (ℕ → String) → Option User → Eff Db Error PublicUser
unfolding to_public_user
public_profile_of to_iso_string none = throw (unauthorized "Unauthorized")
public_profile_of to_iso_string (some u) =
    if u.is_active
    then pure (to_public_user to_iso_string u)
    else throw (unauthorized "Unauthorized")

unfoldable pub get_public_profile : (ℕ → String) → String → Eff Db Error PublicUser
unfolding find_by_id public_profile_of
get_public_profile to_iso_string id = do
  found ← find_by_id id
  public_profile_of to_iso_string found
