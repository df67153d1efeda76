-- ===== src/Mail/Zoho/Faithful.antt =====
-- fetchRawMessage of services/email-ingestion/src/mail/providers/zoho.provider.ts.
use finlytic_ecosystem.Prelude.{◌≡◌, ◌==◌, Bool-cases, inl, inr, arith, none, some, if◌then◌else◌}
use finlytic_ecosystem.Prelude.Text.{Text}
use finlytic_ecosystem.Prelude.Effects.{Result, ok, err}
use finlytic_ecosystem.Mail.Store.{Error}
use finlytic_ecosystem.Mail.Http.{Response, then_do}
use finlytic_ecosystem.Mail.Ingestion.{RawMessage}
use finlytic_ecosystem.Mail.Sync.Loop.{IsFaithful}
use finlytic_ecosystem.Mail.Providers.{Connection}
use finlytic_ecosystem.Mail.Zoho.{Platform, fetch_raw_message, request, handle, raw_of, adapter}

module _ (p : Platform) where
  content_faithful :
      (id : Text) (raw : RawMessage) (r : Result Error Text)
      → then_do r (λ content. ok (some (raw_of p id content))) ≡ ok (some raw)
      → raw.provider_message_id ≡ id
  content_faithful id raw (err e) h = absurd (cc)
  content_faithful id raw (ok content) h = ground (arith, h)

  response_faithful :
      (id : Text) (raw : RawMessage) (r : Result Error Response)
      → then_do r (λ response.
        if response.status == 404
        then ok none
        else then_do
            (handle p p.content_json response)
            (λ content. ok (some (raw_of p id content))))
        ≡ ok (some raw)
      → raw.provider_message_id ≡ id
  response_faithful id raw (err e) h = absurd (cc)
  response_faithful id raw (ok response) h = elim (Bool-cases (response.status == 404)) [
    | inl gone ↦ absurd (cc (rw gone at h))
    | inr there ↦ content_faithful id raw (handle p p.content_json response) (rw there at h)
  ]

  pub adapter-IsFaithful : (connection : Connection) → IsFaithful (adapter p connection)
  unfolding fetch_raw_message
  adapter-IsFaithful connection id raw h = response_faithful id raw (request p connection _) h
