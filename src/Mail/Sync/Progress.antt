-- ===== src/Mail/Sync/Progress.antt =====
-- What a sync by services/email-ingestion/src/sync/mail-sync.service.ts achieves: no message is
-- lost before the cursor moves on.
use finlytic_ecosystem.Prelude.{
  ℕ, ◌≡◌, sym, ap, ◌∙◌, none, some, List, [], ◌∷◌, arith, any, All, inl, inr,
}
use finlytic_ecosystem.Prelude.Text.{Text}
use finlytic_ecosystem.Prelude.Effects.{Result, ok, err, bind-eq-ok, pure, ◌>>◌}
use finlytic_ecosystem.Mail.Store.{Db, Error, is_row, update_account}
use finlytic_ecosystem.Mail.Ingestion.{Platform}
use finlytic_ecosystem.Mail.Ingestion.Later.{IsLater}
use finlytic_ecosystem.Mail.Sync.{
  Adapter, incremental, Counts, SyncOutcome, ingest_all, collect, finish_incremental,
  incremental_sync,
}
use finlytic_ecosystem.Mail.Sync.Loop.{
  IsFaithful, IsAccounted, ingest_all-IsAccounted, ingest_all-IsLater,
}

All-messages :
    (adapter : Adapter) (account_id : Text) (d d' : Db) (ids : List Text)
    → d'.messages ≡ d.messages
    → All (IsAccounted adapter account_id d) ids
    → All (IsAccounted adapter account_id d') ids
All-messages adapter account_id d d' [] same h = tt
All-messages adapter account_id d d' (id ∷ ids) same (inl there, hs) = (
  inl (ap (any (is_row account_id id)) same ∙ there),
  All-messages adapter account_id d d' ids same hs,
)
All-messages adapter account_id d d' (id ∷ ids) same (inr gone, hs) =
    (inr gone, All-messages adapter account_id d d' ids same hs)

cursor_written :
    (account_id next : Text) (d e d' : Db) (outcome outcome' : SyncOutcome)
    → e.accounts ≡ d.accounts
    → (update_account account_id (λ a. record a { sync_cursor = some next }) >> pure outcome) e
      ≡ (ok outcome', d')
    → (d'.messages ≡ e.messages)
      × (d'.accounts
          ≡ (update_account account_id (λ a. record a { sync_cursor = some next }) d).1.accounts)
unfolding update_account
cursor_written account_id next d e d' outcome outcome' same done =
    (ground (arith, done), ground (arith, done, same))

-- When an incremental sync that found ids and a next cursor succeeds, each of these ids has a row, or
-- the provider no longer has it, and the next cursor has been written; the adapter gives the message
-- that it is asked for.
pub incremental_sync-IsAccounted :
    (p : Platform) (now fuel : ℕ) (adapter : Adapter) (account_id cursor next : Text)
    (ids : List Text) (d d' : Db) (outcome : SyncOutcome)
    → IsFaithful adapter
    → collect adapter cursor fuel [] cursor none ≡ ok (some (ids, next))
    → incremental_sync p now adapter fuel account_id cursor d ≡ (ok outcome, d')
    → All (IsAccounted adapter account_id d') ids
      × (d'.accounts
          ≡ (update_account account_id (λ a. record a { sync_cursor = some next }) d).1.accounts)
unfolding incremental_sync finish_incremental
incremental_sync-IsAccounted p now fuel adapter account_id cursor next ids d d' outcome f found
      done =
    go (
      bind-eq-ok (ingest_all p now adapter account_id ids)
        (λ c.
          update_account account_id (λ a. record a { sync_cursor = some next }) >> pure (done_of c))
        (rw found at done))
  where
    done_of : Counts → SyncOutcome
    done_of c = record { account_id = account_id; mode = incremental; counts = c }

    go :
        (c : Counts) × (e : Db) × (ingest_all p now adapter account_id ids d ≡ (ok c, e))
          × ((update_account account_id (λ a. record a { sync_cursor = some next })
                  >> pure (done_of c))
                e
              ≡ (ok outcome, d'))
        → All (IsAccounted adapter account_id d') ids
          × (d'.accounts
              ≡ (update_account account_id
                  (λ a. record a { sync_cursor = some next })
                  d).1.accounts)
    go (c, e, ingested, rest) =
        let same : e.accounts ≡ d.accounts =
          ap (λ (x : Result Error Counts × Db). x.1.accounts) (sym ingested)
          ∙ (ingest_all-IsLater p now adapter account_id ids d).0 in
        let (messages, accounts) =
          cursor_written account_id next d e d' (done_of c) outcome same rest in
        (
          All-messages adapter account_id e d' ids messages
              (ingest_all-IsAccounted p now adapter account_id ids c d e f ingested),
          accounts,
        )

-- When an incremental sync fails after its ids were found, the accounts are as before, so the cursor has
-- not moved, and what was stored before stays: messages have only been added.
pub incremental_sync_failed :
    (p : Platform) (now fuel : ℕ) (adapter : Adapter) (account_id cursor next : Text)
    (ids : List Text) (d d' : Db) (e : Error)
    → collect adapter cursor fuel [] cursor none ≡ ok (some (ids, next))
    → incremental_sync p now adapter fuel account_id cursor d ≡ (err e, d')
    → IsLater d d'
unfolding incremental_sync finish_incremental update_account
incremental_sync_failed p now fuel adapter account_id cursor next ids d d' e found done =
    let later = ingest_all-IsLater p now adapter account_id ids d in
    let same : (ingest_all p now adapter account_id ids d).1 ≡ d' = ground (arith, found, done) in
    rw same at later
