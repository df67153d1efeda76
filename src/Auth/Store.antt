-- ===== src/Auth/Store.antt =====
-- The tables of services/user-management/prisma/schema.prisma as lists of rows, and the errors that
-- reach a handler. Each query of the services is written out where the service makes it.
use finlytic_ecosystem.Prelude.{
  ℕ, Bool, ◌||◌, Option, List, ◌∷◌, any, String, str_eq, if◌then◌else◌,
}
use finlytic_ecosystem.Prelude.Effects.{ok, err, Eff}

pub data UserRole : Type 0 where
  user admin : UserRole

pub record User : Type 0 where
  pub id : String
  pub email : String
  pub password_hash : String
  pub role : UserRole
  pub is_active : Bool
  pub created_at : ℕ

pub record RefreshToken : Type 0 where
  pub id : String
  pub user_id : String
  pub token_hash : String
  pub family_id : String
  pub expires_at : ℕ
  pub revoked_at : Option ℕ
  pub replaced_by_id : Option String
  pub user_agent : Option String
  pub ip_address : Option String
  pub created_at : ℕ

pub record Db : Type 0 where
  pub users : List User
  pub refresh_tokens : List RefreshToken

-- `known_request` is PrismaClientKnownRequestError with its code; the others are exceptions of
-- @nestjs/common with their message.
pub data Error : Type 0 where
  known_request : String → Error
  unauthorized : String → Error
  conflict : String → Error

-- Inserts under the unique constraints of the schema and the reference to the user.
unfoldable pub insert_refresh_token : RefreshToken → Eff Db Error RefreshToken
insert_refresh_token row db =
    if any (λ r. str_eq r.token_hash row.token_hash || str_eq r.id row.id) db.refresh_tokens
    then (err (known_request "P2002"), db)
    else if any (λ (u : User). str_eq u.id row.user_id) db.users
    then (ok row, record db { refresh_tokens = row ∷ db.refresh_tokens })
    else (err (known_request "P2003"), db)

unfoldable pub insert_user : User → Eff Db Error User
insert_user row db =
    if any (λ (u : User). str_eq u.email row.email || str_eq u.id row.id) db.users
    then (err (known_request "P2002"), db)
    else (ok row, record db { users = row ∷ db.users })
