-- ===== src/Mail/Queue.antt =====
-- services/email-ingestion/src/queue/sync-queue.service.ts and src/sync/sync-scheduler.service.ts: one
-- job per account. The queue of BullMQ is a parameter.
pub mod Polling
use finlytic_ecosystem.Prelude.{
  ℕ, ◌+◌, ◌≡◌, ◌≢◌, Bool, true, false, not, Option, none, some, List, [], ◌∷◌, ◌++◌, map, filter,
  if◌then◌else◌,
}
use finlytic_ecosystem.Prelude.Text.{Text, codes}
use finlytic_ecosystem.Mail.Store.{MailAccount, AccountStatus, Db}

pub data JobState : Type 0 where
  waiting waiting_children active delayed prioritized completed failed unknown : JobState

pub data Reason : Type 0 where
  manual scheduled : Reason

pub record MailSyncJobData : Type 0 where
  pub account_id : Text
  pub reason : Reason
  pub request_id : Option Text

-- The queue, as far as it is called: the state of the job of an id, where there is one.
pub record JobQueue (Q : Type 0) : Type 0 where
  pub get_state : Text → Q → Option JobState
  pub remove : Text → Q → Q
  pub add : Text → MailSyncJobData → Q → Q

-- What is relied on: a job that is added under a free id waits, one that is removed is gone, and neither
-- touches another id.
pub record IsJobQueue {Q : Type 0} (queue : JobQueue Q) : Type 0 where
  pub get_state-add :
      (id : Text) (d : MailSyncJobData) (q : Q)
      → queue.get_state id q ≡ none
      → queue.get_state id (queue.add id d q) ≡ some waiting
  pub get_state-remove : (id : Text) (q : Q) → queue.get_state id (queue.remove id q) ≡ none
  pub other-add :
      (id other : Text) (d : MailSyncJobData) (q : Q)
      → id ≢ other
      → queue.get_state other (queue.add id d q) ≡ queue.get_state other q
  pub other-remove :
      (id other : Text) (q : Q)
      → id ≢ other
      → queue.get_state other (queue.remove id q) ≡ queue.get_state other q

abbrev pub is_pending : JobState → Bool
is_pending waiting = true
is_pending waiting_children = true
is_pending active = true
is_pending delayed = true
is_pending prioritized = true
is_pending _ = false

pub record Enqueued : Type 0 where
  pub job_id : Text
  pub already_queued : Bool

abbrev pub job_id_of : Text → Text
job_id_of account_id = codes "sync-" ++ account_id

module _ {Q : Type 0} (queue : JobQueue Q) where
  abbrev added : Text → MailSyncJobData → Q → Enqueued × Q
  added job_id d q = (record { job_id = job_id; already_queued = false }, queue.add job_id d q)

  unfoldable pub enqueue_over : Text → MailSyncJobData → Option JobState → Q → Enqueued × Q
  enqueue_over job_id d none q = added job_id d q
  enqueue_over job_id d (some state) q =
      if is_pending state
      then (record { job_id = job_id; already_queued = true }, q)
      else added job_id d (queue.remove job_id q)

  -- The id of the current request is an argument.
  unfoldable pub enqueue_account_sync : Text → Reason → Option Text → Q → Enqueued × Q
  enqueue_account_sync account_id reason request_id q =
      let job_id = job_id_of account_id in
      enqueue_over job_id
        (record { account_id = account_id; reason = reason; request_id = request_id })
        (queue.get_state job_id q) q

  abbrev count_queued : Enqueued → ℕ → ℕ
  count_queued result queued = if not result.already_queued then queued + 1 else queued

  -- The loop over the accounts, with the number queued so far.
  unfoldable pub enqueue_each : List Text → ℕ → Q → ℕ × Q
  enqueue_each [] queued q = (queued, q)
  enqueue_each (id ∷ ids) queued q =
      let (result, q') = enqueue_account_sync id scheduled none q in
      enqueue_each ids (count_queued result queued) q'

  abbrev pub is_active : AccountStatus → Bool
  is_active AccountStatus.active = true
  is_active _ = false

  abbrev pub active_ids : Db → List Text
  active_ids db =
      map (λ (a : MailAccount). a.id) (filter (λ (a : MailAccount). is_active a.status) db.accounts)

  unfoldable pub poll_active_accounts : Db → Q → ℕ × Q
  poll_active_accounts db q = enqueue_each (active_ids db) 0 q
