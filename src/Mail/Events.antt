-- ===== src/Mail/Events.antt =====
-- The stream of sync events: services/email-ingestion/src/queue/sync-events.service.ts, and `events` of
-- src/accounts/accounts.controller.ts, which writes it to a browser. JSON is a parameter.
use finlytic_ecosystem.Prelude.{
  Bool, Option, none, some, List, [], ◌∷◌, ◌++◌, map, filter, any, drop, if◌then◌else◌,
}
use finlytic_ecosystem.Prelude.Text.{Text, codes, text_eq, starts_with}
use finlytic_ecosystem.Mail.Store.{MailAccount, Db}

pub data Outcome : Type 0 where
  completed failed : Outcome

pub record SyncEvent : Type 0 where
  pub account_id : Text
  pub outcome : Outcome

-- An empty string is falsy.
abbrev account_or_null : Text → Option Text
account_or_null [] = none
account_or_null (c ∷ id) = some (c ∷ id)

-- The account that the name of a job tells, `sync-<accountId>`.
abbrev pub account_of : Text → Option Text
account_of job_id =
    if starts_with (codes "sync-") job_id then account_or_null (drop 5 job_id) else none

-- `publish`: what each listener is told.
unfoldable pub publish : Text → Outcome → Option SyncEvent
publish job_id outcome = elim (account_of job_id) [
  | none ↦ none
  | some id ↦ some (record { account_id = id; outcome = outcome })
]

-- What happens while a stream is open: a job ends and its outcome is published, or 15 seconds have
-- gone by.
pub data Happening : Type 0 where
  ended : (job_id : Text) → Outcome → Happening
  ticked : Happening

abbrev pub owned_ids : Text → Db → List Text
owned_ids user_id db =
    map (λ (a : MailAccount). a.id)
      (filter (λ (a : MailAccount). text_eq a.user_id user_id) db.accounts)

abbrev pub is_owned : List Text → Text → Bool
is_owned owned id = any (text_eq id) owned

module _ (stringify : SyncEvent → Text) where
  unfoldable pub event_frame : SyncEvent → Text
  event_frame event =
      codes "event: sync" ++ 10 ∷ (codes "data: " ++ (stringify event ++ 10 ∷ 10 ∷ []))

  -- The listener of `subscribe`, for what is published, and the heartbeat.
  unfoldable pub listener : List Text → Option SyncEvent → Text
  listener owned none = []
  listener owned (some event) = if is_owned owned event.account_id then event_frame event else []

  unfoldable pub written : List Text → Happening → Text
  written owned (ended job_id outcome) = listener owned (publish job_id outcome)
  written owned ticked = codes ": ping" ++ 10 ∷ 10 ∷ []

  unfoldable pub written_all : List Text → List Happening → Text
  written_all owned [] = []
  written_all owned (h ∷ hs) = written owned h ++ written_all owned hs

  -- Everything that `events` writes to a caller whose accounts were read at the start.
  unfoldable pub events : Text → Db → List Happening → Text
  events user_id db hs =
      (codes ": connected" ++ 10 ∷ 10 ∷ []) ++ written_all (owned_ids user_id db) hs
