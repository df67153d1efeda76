-- ===== src/Mail/Accounts.antt =====
-- services/email-ingestion/src/accounts/accounts.service.ts (connecting and syncing an account),
-- src/mail/mail-provider.registry.ts and src/oauth/oauth.controller.ts. The adapters, the encryption and
-- the queue are parameters; the id of a new row is an argument.
pub mod Keyed
pub mod Owner
pub mod Preview
use finlytic_ecosystem.Prelude.{
  ℕ, Bool, true, false, not, ◌&&◌, Option, none, some, List, [], ◌∷◌, ◌++◌, map, filter, find,
  if◌then◌else◌, or_else,
}
use finlytic_ecosystem.Prelude.Text.{Text, codes, text_eq}
use finlytic_ecosystem.Prelude.Effects.{Result, ok, err, Eff, pure, throw, ◌>>=◌, ◌>>◌}
use finlytic_ecosystem.Mail.Encryption.{CipherPurpose, access, refresh}
use finlytic_ecosystem.Mail.Store.{
  MailProvider, gmail, zoho, MailAccount, AccountStatus, active, Db, Error,
}
use finlytic_ecosystem.Mail.Sync.{has_id, truthy}
use finlytic_ecosystem.Mail.Providers.{OauthTokens, ProviderIdentity, ConnectResult}
use finlytic_ecosystem.Mail.Zoho.{scopes}
use finlytic_ecosystem.Mail.Gmail.{gmail_readonly}
use finlytic_ecosystem.Mail.OauthState.{Codec, StateError, Redeemed, verify, issue}
use finlytic_ecosystem.Mail.Queue.{JobQueue, Enqueued, enqueue_account_sync, manual}

-- What is thrown: an exception of HTTP, or what the state or the provider throws.
pub data HttpException : Type 0 where
  -- The scopes that are missing.
  forbidden : List Text → HttpException
  not_found bad_request : Text → HttpException
  of_state : StateError → HttpException
  of_provider : Error → HttpException

abbrev pub same_provider : MailProvider → MailProvider → Bool
same_provider gmail gmail = true
same_provider zoho zoho = true
same_provider _ _ = false

abbrev provider_text : MailProvider → Text
provider_text gmail = codes "GMAIL"
provider_text zoho = codes "ZOHO"

-- The unique key of a row.
abbrev pub is_key : Text → MailProvider → Text → MailAccount → Bool
is_key user_id provider provider_account_id a =
    text_eq a.user_id user_id
    && (same_provider a.provider provider && text_eq a.provider_account_id provider_account_id)

abbrev pub required_scopes : MailProvider → List Text
required_scopes gmail = gmail_readonly ∷ []
required_scopes zoho = scopes

-- The scopes of the adapter that were not granted.
abbrev pub missing_scopes : MailProvider → List Text → List Text
missing_scopes provider granted =
    filter (λ scope. not (has_id scope granted)) (required_scopes provider)

-- `MailProviderRegistry.resolve`
unfoldable pub resolve : (Text → Text) → Text → Result HttpException MailProvider
resolve to_upper_case slug =
    let key = to_upper_case slug in
    if text_eq key (codes "GMAIL")
    then ok gmail
    else if text_eq key (codes "ZOHO")
    then ok zoho
    else err (not_found (codes "Unknown mail provider '" ++ slug ++ codes "'"))

module _ (encrypt : Text → CipherPurpose → Text) where
  abbrev pub refresh_token_enc_of : Option Text → Option Text
  refresh_token_enc_of refresh_token = elim (truthy refresh_token) [
    | none ↦ none
    | some token ↦ some (encrypt token refresh)
  ]

  -- A value that is not there leaves the column as it is.
  abbrev pub or_kept : Option Text → Option Text → Option Text
  or_kept none old = old
  or_kept (some new) old = some new

  abbrev created :
      Text → Text → MailProvider → OauthTokens → ProviderIdentity → Option Text → MailAccount
  created id user_id provider tokens identity metadata = record {
    id = id;
    user_id = user_id;
    provider = provider;
    provider_account_id = identity.provider_account_id;
    email_address = identity.email_address;
    status = active;
    access_token_enc = encrypt tokens.access_token access;
    access_token_expires = tokens.expires_at;
    refresh_token_enc = refresh_token_enc_of tokens.refresh_token;
    scopes = tokens.scopes;
    provider_metadata = or_else metadata [];
    sync_cursor = none;
    last_synced_at = none;
    last_sync_error = none;
  }

  abbrev updated : OauthTokens → ProviderIdentity → Option Text → MailAccount → MailAccount
  updated tokens identity metadata a = record a {
    email_address = identity.email_address;
    access_token_enc = encrypt tokens.access_token access;
    access_token_expires = tokens.expires_at;
    scopes = tokens.scopes;
    status = active;
    last_sync_error = none;
    refresh_token_enc = or_kept (refresh_token_enc_of tokens.refresh_token) a.refresh_token_enc;
    provider_metadata = or_else metadata a.provider_metadata;
  }

  -- `upsert` under the unique key.
  unfoldable pub upsert :
      (MailAccount → Bool)
      → MailAccount
      → (MailAccount → MailAccount)
      → Option MailAccount
      → Eff Db HttpException MailAccount
  upsert key row change none db = (ok row, record db { accounts = row ∷ db.accounts })
  upsert key row change (some a) db = (
    ok (change a),
    record db { accounts = map (λ (b : MailAccount). if key b then change b else b) db.accounts },
  )

  abbrev store :
      Text
      → Text
      → MailProvider
      → OauthTokens
      → ProviderIdentity
      → Option Text
      → Eff Db HttpException MailAccount
  store id user_id provider tokens identity metadata db =
      let key = is_key user_id provider identity.provider_account_id in
      upsert key (created id user_id provider tokens identity metadata)
        (updated tokens identity metadata) (find key db.accounts) db

  abbrev store_if_granted :
      List Text
      → Text
      → Text
      → MailProvider
      → OauthTokens
      → ProviderIdentity
      → Option Text
      → Eff Db HttpException MailAccount
  store_if_granted [] = store
  store_if_granted (scope ∷ scopes) =
      λ id user_id provider tokens identity metadata. throw (forbidden (scope ∷ scopes))

  unfoldable pub connect :
      Text
      → Text
      → MailProvider
      → OauthTokens
      → ProviderIdentity
      → Option Text
      → Eff Db HttpException MailAccount
  connect id user_id provider tokens identity metadata =
      store_if_granted (missing_scopes provider tokens.scopes) id user_id provider tokens identity
        metadata

-- The query of the redirect.
pub record CallbackQuery : Type 0 where
  pub code : Option Text
  pub state : Option Text
  pub error : Option Text
  pub location : Option Text

abbrev pub State : Type 0
State = Redeemed × Db

module _ {A : Type 0} where
  abbrev on_redeemed : Eff Redeemed StateError A → Eff State HttpException A
  on_redeemed m (r, db) = (elim (m r).0 [ ok a ↦ ok a | err e ↦ err (of_state e) ], ((m r).1, db))

  abbrev on_db : Eff Db HttpException A → Eff State HttpException A
  on_db m (r, db) = ((m db).0, (r, (m db).1))

  abbrev of_provider_result : Result Error A → Eff State HttpException A
  of_provider_result (ok a) = pure a
  of_provider_result (err e) = throw (of_provider e)

module _ (codec : Codec) (to_upper_case : Text → Text) (encrypt : Text → CipherPurpose → Text)
    -- `exchangeCode` of the adapters, with the code and the location.
    (exchange_code : MailProvider → Text → Option Text → Result Error ConnectResult)
    -- The metadata that holds a location, as JSON.
    (metadata_of : Text → Text) where
  abbrev metadata_or_none : Option Text → Option Text
  metadata_or_none none = none
  metadata_or_none (some location) = some (metadata_of location)

  unfoldable pub connect_with :
      ℕ → Text → MailProvider → Text → Text → Option Text → Eff State HttpException MailAccount
  connect_with now id provider code state location = do
    user_id ← on_redeemed (verify codec now state)
    result ← of_provider_result (exchange_code provider code location)
    on_db (
        connect encrypt id user_id provider result.tokens result.identity
          (metadata_or_none result.location))

  abbrev code_and_state :
      ℕ
      → Text
      → MailProvider
      → Option Text
      → Option Text
      → Option Text
      → Eff State HttpException MailAccount
  code_and_state now id provider (some code) (some state) location =
      connect_with now id provider code state location
  code_and_state now id provider _ _ location = throw (bad_request (codes "Missing code or state"))

  abbrev unless_declined :
      ℕ → Text → CallbackQuery → MailProvider → Option Text → Eff State HttpException MailAccount
  unless_declined now id query provider (some error) =
      throw (bad_request (provider_text provider ++ codes " declined the request: " ++ error))
  unless_declined now id query provider none =
      code_and_state now id provider (truthy query.code) (truthy query.state) query.location

  abbrev resolved :
      ℕ
      → Text
      → CallbackQuery
      → Result HttpException MailProvider
      → Eff State HttpException MailAccount
  resolved now id query (err e) = throw e
  resolved now id query (ok provider) = unless_declined now id query provider (truthy query.error)

  -- The answer shows fields of the account.
  unfoldable pub callback : ℕ → Text → Text → CallbackQuery → Eff State HttpException MailAccount
  callback now id slug query = resolved now id query (resolve to_upper_case slug)

pub record SyncRequestResult : Type 0 where
  pub accepted : Bool
  pub job_id : Text
  pub already_queued : Bool
  pub status : AccountStatus

module _ {Q : Type 0} (queue : JobQueue Q) where
  abbrev queued : Option MailAccount → Option Text → Q → Result HttpException SyncRequestResult × Q
  queued none request_id q = (err (not_found (codes "Account not found")), q)
  queued (some a) request_id q =
      let (result, q') = enqueue_account_sync queue a.id manual request_id q in
      (
        ok (record {
          accepted = true;
          job_id = result.job_id;
          already_queued = result.already_queued;
          status = a.status;
        }),
        q',
      )

  unfoldable pub request_sync :
      Text → Text → Option Text → Db → Q → Result HttpException SyncRequestResult × Q
  request_sync user_id account_id request_id db q =
      queued
        (find (λ (a : MailAccount). text_eq a.id account_id && text_eq a.user_id user_id)
          db.accounts)
        request_id q
