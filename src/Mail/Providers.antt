-- ===== src/Mail/Providers.antt =====
-- What the adapters of services/email-ingestion/src/mail/providers share
-- (mail-provider.interface.ts): tokens, identities and pages.
use finlytic_ecosystem.Prelude.{ℕ, Option, List}
use finlytic_ecosystem.Prelude.Text.{Text}

pub record ProviderIdentity : Type 0 where
  pub provider_account_id : Text
  pub email_address : Text

-- The tokens of a provider, with their scopes.
pub record OauthTokens : Type 0 where
  pub access_token : Text
  pub refresh_token : Option Text
  pub expires_at : ℕ
  pub scopes : List Text

pub record ConnectResult : Type 0 where
  pub tokens : OauthTokens
  pub identity : ProviderIdentity
  -- The location, for a provider that has one.
  pub location : Option Text

pub record MessageListPage : Type 0 where
  pub message_ids : List Text
  pub next_page_token : Option Text

pub record ProviderProfile : Type 0 where
  pub email_address : Text
  pub cursor : Text

pub record Connection : Type 0 where
  pub access_token : Text
  pub provider_account_id : Text
  pub location : Option Text
