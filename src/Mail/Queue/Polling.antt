-- ===== src/Mail/Queue/Polling.antt =====
-- What a poll by services/email-ingestion/src/sync/sync-scheduler.service.ts leaves in the queue.
use finlytic_ecosystem.Prelude.{
  ℕ, ◌≡◌, ◌≢◌, inl, inr, refl, sym, ap, ◌∙◌, Bool, true, false, Option, none, some, List, [], ◌∷◌,
  All, Bool-cases,
}
use finlytic_ecosystem.Prelude.Text.{Text, text_eq, text_eq_iff}
use finlytic_ecosystem.Mail.Store.{Db}
use finlytic_ecosystem.Mail.Queue.{
  JobState, MailSyncJobData, JobQueue, IsJobQueue, is_pending, job_id_of, enqueue_over,
  enqueue_account_sync, enqueue_each, active_ids, poll_active_accounts, Reason, scheduled,
}

abbrev pub pending_of : Option JobState → Bool
pending_of none = false
pending_of (some state) = is_pending state

module _ {Q : Type 0} (queue : JobQueue Q) (laws : IsJobQueue queue) where
  abbrev pub IsPending : Q → Text → Type 0
  IsPending q id = pending_of (queue.get_state (job_id_of id) q) ≡ true

  enqueue_over-pending :
      (id : Text) (d : MailSyncJobData) (o : Option JobState) (q : Q)
      → queue.get_state id q ≡ o
      → pending_of (queue.get_state id (enqueue_over queue id d o q).1) ≡ true
  unfolding enqueue_over
  enqueue_over-pending id d none q same = ap pending_of (laws.get_state-add id d q same)
  enqueue_over-pending id d (some state) q same = elim (Bool-cases (is_pending state)) [
    | inl there ↦ rw there (ap pending_of same ∙ there)
    | inr stale ↦
        rw stale
          (ap pending_of (laws.get_state-add id d (queue.remove id q) (laws.get_state-remove id q)))
  ]

  enqueue_over-other :
      (id other : Text) (d : MailSyncJobData) (o : Option JobState) (q : Q)
      → id ≢ other
      → queue.get_state other (enqueue_over queue id d o q).1 ≡ queue.get_state other q
  unfolding enqueue_over
  enqueue_over-other id other d none q apart = laws.other-add id other d q apart
  enqueue_over-other id other d (some state) q apart = elim (Bool-cases (is_pending state)) [
    | inl there ↦ rw there refl
    | inr stale ↦
        rw stale
          (laws.other-add id other d (queue.remove id q) apart ∙ laws.other-remove id other q apart)
  ]

  enqueue-IsPending :
      (id : Text) (reason : Reason) (request_id : Option Text) (q : Q)
      → IsPending (enqueue_account_sync queue id reason request_id q).1 id
  unfolding enqueue_account_sync
  enqueue-IsPending id reason request_id q = enqueue_over-pending (job_id_of id) _ _ q refl

  enqueue-other :
      (id job : Text) (reason : Reason) (request_id : Option Text) (q : Q)
      → job_id_of id ≢ job
      → queue.get_state job (enqueue_account_sync queue id reason request_id q).1
        ≡ queue.get_state job q
  unfolding enqueue_account_sync
  enqueue-other id job reason request_id q apart = enqueue_over-other (job_id_of id) job _ _ q apart

  -- A job that is pending stays so, whatever is queued.
  enqueue-keeps :
      (id other : Text) (reason : Reason) (request_id : Option Text) (q : Q)
      → IsPending q other
      → IsPending (enqueue_account_sync queue id reason request_id q).1 other
  enqueue-keeps id other reason request_id q h =
      elim (Bool-cases (text_eq (job_id_of id) (job_id_of other))) [
        | inl same ↦
            ap
              (λ x.
                pending_of
                  (queue.get_state x (enqueue_account_sync queue id reason request_id q).1))
              (sym ((text_eq_iff (job_id_of id) (job_id_of other)).0 same))
            ∙ enqueue-IsPending id reason request_id q
        | inr apart ↦
            ap pending_of (
              enqueue-other id (job_id_of other) reason request_id q
                (λ e. cc (apart, (text_eq_iff (job_id_of id) (job_id_of other)).1 e)))
            ∙ h
      ]

  each-keeps :
      (ids : List Text) (other : Text) (queued : ℕ) (q : Q)
      → IsPending q other
      → IsPending (enqueue_each queue ids queued q).1 other
  unfolding enqueue_each
  each-keeps [] other queued q h = h
  each-keeps (id ∷ ids) other queued q h =
      each-keeps ids other _ _ (enqueue-keeps id other scheduled none q h)

  each-IsPending :
      (ids : List Text) (queued : ℕ) (q : Q)
      → All (IsPending (enqueue_each queue ids queued q).1) ids
  unfolding enqueue_each
  each-IsPending [] queued q = tt
  each-IsPending (id ∷ ids) queued q =
      (each-keeps ids id _ _ (enqueue-IsPending id scheduled none q), each-IsPending ids _ _)

  each-other :
      (ids : List Text) (job : Text) (queued : ℕ) (q : Q)
      → All (λ id. job_id_of id ≢ job) ids
      → queue.get_state job (enqueue_each queue ids queued q).1 ≡ queue.get_state job q
  unfolding enqueue_each
  each-other [] job queued q apart = refl
  each-other (id ∷ ids) job queued q (apart, others) =
      each-other ids job _ _ others ∙ enqueue-other id job scheduled none q apart

  -- After a poll every active account has a pending job, and a job that is no active account's is as it
  -- was, of a queue where a job added under a free id is pending, a removed one is gone and neither
  -- changes the job of another id.
  pub poll_active_accounts-IsPending :
      (db : Db) (q : Q) (job : Text)
      → All (λ id. job_id_of id ≢ job) (active_ids queue db)
      → All (IsPending (poll_active_accounts queue db q).1) (active_ids queue db)
        × (queue.get_state job (poll_active_accounts queue db q).1 ≡ queue.get_state job q)
  unfolding poll_active_accounts
  poll_active_accounts-IsPending db q job apart =
      (each-IsPending (active_ids queue db) 0 q, each-other (active_ids queue db) job 0 q apart)
