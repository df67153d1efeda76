-- ===== src/Mail/Zoho/Synced.antt =====
-- An incremental sync (services/email-ingestion/src/sync/mail-sync.service.ts) of a Zoho mailbox, through the
-- adapter of src/mail/providers/zoho.provider.ts.
use finlytic_ecosystem.Prelude.{ℕ, suc, ◌-◌, ◌≤◌, ◌≡◌, some, List, take, drop, filter, All, or_else}
use finlytic_ecosystem.Prelude.Text.{Text, codes}
use finlytic_ecosystem.Prelude.Effects.{ok}
use finlytic_ecosystem.Mail.Store.{Db, update_account}
use finlytic_ecosystem.Mail.Ingestion
use finlytic_ecosystem.Mail.Sync.{SyncOutcome, truthy, incremental_sync}
use finlytic_ecosystem.Mail.Sync.Loop.{IsAccounted}
use finlytic_ecosystem.Mail.Sync.Progress.{incremental_sync-IsAccounted}
use finlytic_ecosystem.Mail.Providers.{Connection}
use finlytic_ecosystem.Mail.Zoho.{
  Platform, ZohoMessage, view_page, is_fresh, ids_of, first_time, adapter,
}
use finlytic_ecosystem.Mail.Zoho.Faithful.{adapter-IsFaithful}
use finlytic_ecosystem.Mail.Zoho.Watermark.{IsDistinct, IsNewestFirst, collect-newest}

-- When an incremental sync of a Zoho mailbox succeeds, each of the newest 200 messages since the cursor
-- has a row, or Zoho no longer has it, and the cursor of the account is the time of the newest message.
-- The mailbox is served in slices, newest first, with no id twice, and decimal numbers are read back.
pub incremental_sync-newest :
    (ingestion : Ingestion.Platform) (p : Platform) (now n : ℕ) (connection : Connection)
    (account_id cursor : Text) (mailbox : List ZohoMessage) (d d' : Db) (outcome : SyncOutcome)
    → p.number (codes "1") ≡ 1
    → ((start limit : ℕ)
        → 1 ≤ start
        → view_page p connection start limit ≡ ok (take limit (drop (start - 1) mailbox)))
    → IsNewestFirst p mailbox
    → IsDistinct (ids_of p mailbox)
    → incremental_sync ingestion now (adapter p connection) (suc n) account_id cursor d
      ≡ (ok outcome, d')
    → All
        (IsAccounted (adapter p connection) account_id d')
        (ids_of p (take 200 (filter (is_fresh p (p.number cursor)) mailbox)))
      × (d'.accounts
          ≡ (update_account account_id
              (λ a. record a {
                sync_cursor = some (or_else (truthy (first_time p mailbox)) cursor);
              })
              d).1.accounts)
incremental_sync-newest ingestion p now n connection account_id cursor mailbox d d' outcome one
      serves sorted distinct done =
    incremental_sync-IsAccounted ingestion now (suc n) (adapter p connection) account_id cursor _ _
      d d' outcome (adapter-IsFaithful p connection)
      (collect-newest p connection cursor n mailbox one serves sorted distinct) done
