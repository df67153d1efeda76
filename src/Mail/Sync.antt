-- ===== src/Mail/Sync.antt =====
-- services/email-ingestion/src/sync/mail-sync.service.ts. The adapter of the provider, which is
-- reached over the network, and the connection of the account are parameters.
pub mod Capped
pub mod Loop
pub mod Progress
use finlytic_ecosystem.Prelude.{
  ℕ, zero, suc, ◌+◌, Bool, true, false, not, ◌&&◌, Option, none, some, List, [], ◌∷◌, ◌++◌, map,
  if◌then◌else◌, any, filter, length, ltb, or_else,
}
use finlytic_ecosystem.Prelude.Text.{Text, codes, text_eq}
use finlytic_ecosystem.Prelude.Effects.{Result, ok, err, Eff, pure, throw, ◌>>=◌, ◌>>◌}
use finlytic_ecosystem.Mail.Store.{
  MailProvider, MailAccount, AccountStatus, active, reauth_required, disabled, Message, Db, Error,
  unrecoverable, out_of_fuel, message_of, update_account, find_account,
}
use finlytic_ecosystem.Mail.Ingestion.{Platform, RawMessage, IngestResult, ingest}

pub record MessageChangePage : Type 0 where
  pub message_ids : List Text
  pub next_page_token : Option Text
  pub cursor : Option Text
  pub cursor_invalid : Bool

-- A MailProviderAdapter at a connection, as far as the sync calls it.
pub record Adapter : Type 0 where
  -- The cursor of `getProfile`.
  pub get_profile : Result Error Text
  -- The ids of the first page, of the size that is asked for.
  pub list_message_ids : ℕ → Result Error (List Text)
  pub list_changed_message_ids : Text → Option Text → Result Error MessageChangePage
  pub fetch_raw_message : Text → Result Error (Option RawMessage)

pub data Mode : Type 0 where
  initial incremental : Mode

pub record Counts : Type 0 where
  pub fetched : ℕ
  pub created : ℕ
  pub skipped : ℕ
  pub gone : ℕ

pub record SyncOutcome : Type 0 where
  pub account_id : Text
  pub mode : Mode
  pub counts : Counts

abbrev pub initial_batch : ℕ
initial_batch = 50

abbrev pub max_ids_per_run : ℕ
max_ids_per_run = 200

abbrev pub has_id : Text → List Text → Bool
has_id id ids = any (text_eq id) ids

-- `collected.add(id)` for each id of a page; a Set keeps the order of insertion.
abbrev pub add_ids : List Text → List Text → List Text
add_ids [] collected = collected
add_ids (id ∷ ids) collected =
    add_ids ids (if has_id id collected then collected else collected ++ (id ∷ []))

-- An empty string is falsy.
abbrev pub truthy : Option Text → Option Text
truthy (some (a ∷ s)) = some (a ∷ s)
truthy _ = none

-- What the page loop has found: `none` where the provider cannot answer from the cursor, else the ids
-- and the next cursor.
abbrev pub Found : Type 0
Found = Result Error (Option (List Text × Text))

module _ (adapter : Adapter) (cursor : Text) where
  -- The rest of a round: `again` is the loop from the next page on.
  unfoldable pub after_page :
      (List Text → Text → Option Text → Found)
      → List Text
      → Text
      → Result Error MessageChangePage
      → Found
  after_page again collected next_cursor (err e) = err e
  after_page again collected next_cursor (ok page) =
      if page.cursor_invalid
      then ok none
      else let ids = add_ids page.message_ids collected in
        let next = or_else (truthy page.cursor) next_cursor in
        elim (truthy page.next_page_token) [
          | none ↦ ok (some (ids, next))
          | some token ↦
              if ltb (length ids) max_ids_per_run
              then again ids next (some token)
              else ok (some (ids, next))
        ]

  -- The do-while loop over the pages.
  unfoldable pub collect : ℕ → List Text → Text → Option Text → Found
  collect zero collected next_cursor page_token = err out_of_fuel
  collect (suc n) collected next_cursor page_token =
      after_page (collect n) collected next_cursor
        (adapter.list_changed_message_ids cursor page_token)

-- A call of the provider changes no table.
abbrev pub of_result : {A : Type 0} → Result Error A → Eff Db Error A
of_result r db = (r, db)

abbrev of_account : Text → List Text → Message → Bool
of_account account_id ids m = text_eq m.account_id account_id && has_id m.provider_message_id ids

module _ (p : Platform) (now : ℕ) (adapter : Adapter) where
  -- The loop of `ingestAll` over the ids to fetch.
  abbrev counted : Bool → Counts → Counts
  counted true counts = record counts { created = counts.created + 1 }
  counted false counts = record counts { skipped = counts.skipped + 1 }

  abbrev pub fetch_one :
      Text
      → Counts
      → (Counts → Eff Db Error Counts)
      → Result Error (Option RawMessage)
      → Eff Db Error Counts
  fetch_one account_id counts rest (err e) db = (err e, db)
  fetch_one account_id counts rest (ok none) db = rest (record counts { gone = counts.gone + 1 }) db
  fetch_one account_id counts rest (ok (some raw)) db =
      (ingest p now account_id raw >>= λ result. rest (counted result.created counts)) db

  unfoldable pub fetch_each : Text → List Text → Counts → Eff Db Error Counts
  fetch_each account_id [] counts = pure counts
  fetch_each account_id (id ∷ ids) counts =
      fetch_one account_id counts (fetch_each account_id ids) (adapter.fetch_raw_message id)

  abbrev pub known_ids : Text → List Text → Db → List Text
  known_ids account_id ids db =
      map (λ (m : Message). m.provider_message_id) (filter (of_account account_id ids) db.messages)

  abbrev pub to_fetch : Text → List Text → Db → List Text
  to_fetch account_id ids db = filter (λ id. not (has_id id (known_ids account_id ids db))) ids

  -- The rows of one account have different provider ids, so the set of the known ones has as many
  -- members as there are rows.
  unfoldable pub ingest_all : Text → List Text → Eff Db Error Counts
  ingest_all account_id ids db =
      fetch_each account_id (to_fetch account_id ids db)
        (record {
          fetched = length (to_fetch account_id ids db);
          created = 0;
          skipped = length (known_ids account_id ids db);
          gone = 0;
        })
        db

  abbrev set_cursor : Option Text → MailAccount → MailAccount
  set_cursor cursor a = record a { sync_cursor = cursor }

  unfoldable pub initial_sync : Text → Eff Db Error SyncOutcome
  initial_sync account_id = do
    cursor ← of_result adapter.get_profile
    ids ← of_result (adapter.list_message_ids initial_batch)
    counts ← ingest_all account_id ids
    update_account account_id (set_cursor (some cursor))
    pure (record { account_id = account_id; mode = initial; counts = counts })

  -- `incrementalSync` behind the page loop.
  unfoldable pub finish_incremental : Text → Found → Eff Db Error SyncOutcome
  finish_incremental account_id (err e) = throw e
  finish_incremental account_id (ok none) = do
    update_account account_id (set_cursor none)
    initial_sync account_id
  finish_incremental account_id (ok (some (ids, next_cursor))) = do
    counts ← ingest_all account_id ids
    update_account account_id (set_cursor (some next_cursor))
    pure (record { account_id = account_id; mode = incremental; counts = counts })

  unfoldable pub incremental_sync : ℕ → Text → Text → Eff Db Error SyncOutcome
  incremental_sync fuel account_id cursor =
      finish_incremental account_id (collect adapter cursor fuel [] cursor none)

module _ (p : Platform) (now fuel : ℕ) (get_connection : MailAccount → Eff Db Error Adapter) where
  abbrev synced : Option Text → Text → Adapter → Eff Db Error SyncOutcome
  synced none id adapter = initial_sync p now adapter id
  synced (some cursor) id adapter = incremental_sync p now adapter fuel id cursor

  -- The body of the try.
  unfoldable pub try_sync : MailAccount → Eff Db Error SyncOutcome
  try_sync account = do
    adapter ← get_connection account
    outcome ← synced (truthy account.sync_cursor) account.id adapter
    update_account account.id (λ a. record a { last_synced_at = some now; last_sync_error = none })
    pure outcome

  -- The catch: the reason is recorded and the error thrown on.
  abbrev record_error : Text → Result Error SyncOutcome → Eff Db Error SyncOutcome
  record_error id (ok outcome) = pure outcome
  record_error id (err e) = do
    update_account id (λ a. record a { last_sync_error = some (message_of e) })
    throw e

  abbrev is_active : AccountStatus → Bool
  is_active active = true
  is_active _ = false

  abbrev status_text : AccountStatus → Text
  status_text active = codes "ACTIVE"
  status_text reauth_required = codes "REAUTH_REQUIRED"
  status_text disabled = codes "DISABLED"

  unfoldable pub sync_found : Text → Option MailAccount → Eff Db Error SyncOutcome
  sync_found id none db =
      (err (unrecoverable (codes "Account " ++ id ++ codes " no longer exists")), db)
  sync_found id (some account) db =
      if not (is_active account.status)
      then (
        err (
            unrecoverable (
              codes "Account "
              ++ id
              ++ codes " is "
              ++ status_text account.status
              ++ codes "; reconnection required")),
        db,
      )
      else record_error account.id (try_sync account db).0 (try_sync account db).1

  unfoldable pub sync_account : Text → Eff Db Error SyncOutcome
  sync_account id db = sync_found id (find_account id db) db
