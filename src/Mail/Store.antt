-- ===== src/Mail/Store.antt =====
-- The tables of services/email-ingestion/prisma/schema.prisma, the bucket of object storage, and the
-- exceptions of the service.
use finlytic_ecosystem.Prelude.{ℕ, Bool, ◌&&◌, Option, List, [], ◌∷◌, if◌then◌else◌, any, find, map}
use finlytic_ecosystem.Prelude.Text.{Text, codes, text_eq}
use finlytic_ecosystem.Prelude.Effects.{ok, err, Eff}

pub data MailProvider : Type 0 where
  gmail zoho : MailProvider

pub data AccountStatus : Type 0 where
  active reauth_required disabled : AccountStatus

pub record MailAccount : Type 0 where
  pub id : Text
  pub user_id : Text
  pub provider : MailProvider
  pub provider_account_id : Text
  pub email_address : Text
  pub status : AccountStatus
  pub access_token_enc : Text
  pub access_token_expires : ℕ
  pub refresh_token_enc : Option Text
  pub scopes : List Text
  pub provider_metadata : Text
  pub sync_cursor : Option Text
  pub last_synced_at : Option ℕ
  pub last_sync_error : Option Text

pub record Message : Type 0 where
  pub id : Text
  pub account_id : Text
  pub provider_message_id : Text
  pub provider_thread_id : Option Text
  pub subject : Option Text
  pub from_address : Option Text
  pub from_name : Option Text
  pub to_addresses : List Text
  pub sent_at : ℕ
  pub snippet : Option Text
  pub labels : List Text
  pub size_bytes : ℕ
  pub has_attachments : Bool
  pub raw_object_key : Text
  pub body_text_key : Option Text

pub record Object : Type 0 where
  pub key : Text
  pub body : List ℕ
  pub content_type : Text

-- The latest object of a key stands first.
pub record Db : Type 0 where
  pub accounts : List MailAccount
  pub messages : List Message
  pub objects : List Object

-- An Error with its message. `auth_revoked` is ProviderAuthRevokedError, `known_request` is
-- PrismaClientKnownRequestError with its code. `out_of_fuel` is none of the source: the page loop of
-- the model has been cut off.
pub data Error : Type 0 where
  unrecoverable unauthorized auth_revoked failure : Text → Error
  known_request : (code message : Text) → Error
  out_of_fuel : Error

abbrev pub message_of : Error → Text
message_of (unrecoverable m) = m
message_of (unauthorized m) = m
message_of (auth_revoked m) = m
message_of (failure m) = m
message_of (known_request code m) = m
message_of out_of_fuel = []

abbrev pub is_row : Text → Text → Message → Bool
is_row account_id provider_message_id m =
    text_eq m.account_id account_id && text_eq m.provider_message_id provider_message_id

abbrev pub has_key : Text → List Object → Bool
has_key key objects = any (λ o. text_eq o.key key) objects

-- The insert, under the unique constraint on the account and the id of the provider, and the reference to
-- the account.
unfoldable pub insert_message : Message → Eff Db Error (Unit {0})
insert_message m db =
    if any (is_row m.account_id m.provider_message_id) db.messages
    then (err (known_request (codes "P2002") (codes "Unique constraint failed")), db)
    else if any (λ (a : MailAccount). text_eq a.id m.account_id) db.accounts
    then (ok tt, record db { messages = m ∷ db.messages })
    else (err (known_request (codes "P2003") (codes "Foreign key constraint violated")), db)

-- `mailAccount.update` by id; it throws P2025 where no row has the id.
unfoldable pub update_account : Text → (MailAccount → MailAccount) → Eff Db Error (Unit {0})
update_account id change db =
    if any (λ (a : MailAccount). text_eq a.id id) db.accounts
    then (
      ok tt,
      record db {
        accounts = map (λ (a : MailAccount). if text_eq a.id id then change a else a) db.accounts;
      },
    )
    else (err (known_request (codes "P2025") (codes "No record was found for an update")), db)

unfoldable pub find_account : Text → Db → Option MailAccount
find_account id db = find (λ (a : MailAccount). text_eq a.id id) db.accounts
