-- ===== src/Mail/Gmail.antt =====
-- services/email-ingestion/src/mail/providers/gmail.provider.ts. `fetch`, JSON, base64url and the encoding
-- of URLs are parameters. A response of the wrong shape makes the code throw; the decoder says so.
pub mod Revoked
use finlytic_ecosystem.Prelude.{
  ℕ, ◌+◌, ◌*◌, Bool, true, false, not, ◌||◌, Option, none, some, List, [], ◌∷◌, ◌++◌, map,
  if◌then◌else◌, ◌==◌, or_else,
}
use finlytic_ecosystem.Prelude.Text.{Text, codes, starts_with}
use finlytic_ecosystem.Prelude.Split.{split, join, parts_list}
use finlytic_ecosystem.Prelude.Effects.{Result, ok, err}
use finlytic_ecosystem.Mail.Store.{Error, unauthorized, auth_revoked, failure}
use finlytic_ecosystem.Mail.Http.{HttpRequest, Response, Fetch, is_ok, uncaught, then_do}
use finlytic_ecosystem.Mail.Ingestion.{RawMessage}
use finlytic_ecosystem.Mail.Sync.{Adapter, MessageChangePage, truthy}
use finlytic_ecosystem.Mail.Providers.{
  OauthTokens, ProviderIdentity, ConnectResult, MessageListPage, ProviderProfile, Connection,
}

abbrev auth_endpoint : Text
auth_endpoint = codes "https://accounts.google.com/o/oauth2/v2/auth"

abbrev token_endpoint : Text
token_endpoint = codes "https://oauth2.googleapis.com/token"

abbrev api_base : Text
api_base = codes "https://gmail.googleapis.com/gmail/v1/users/me"

abbrev pub gmail_readonly : Text
gmail_readonly = codes "https://www.googleapis.com/auth/gmail.readonly"

abbrev scopes : List Text
scopes = codes "openid" ∷ codes "email" ∷ gmail_readonly ∷ []

pub record GoogleTokenResponse : Type 0 where
  pub access_token : Text
  pub refresh_token : Option Text
  pub expires_in : ℕ
  pub scope : Text
  pub id_token : Option Text

pub record GmailProfileResponse : Type 0 where
  pub email_address : Text
  pub history_id : Text

pub record GmailListResponse : Type 0 where
  -- The ids of the messages.
  pub messages : Option (List Text)
  pub next_page_token : Option Text

pub record GmailRawMessageResponse : Type 0 where
  pub id : Text
  pub thread_id : Text
  pub label_ids : Option (List Text)
  pub snippet : Option Text
  pub size_estimate : Option ℕ
  pub internal_date : Text
  pub raw : Text

pub record GmailHistoryResponse : Type 0 where
  -- The ids of the messages that each entry adds.
  pub history : Option (List (Option (List Text)))
  pub next_page_token : Option Text
  pub history_id : Option Text

pub record Platform : Type 0 where
  pub fetch : Fetch
  pub client_id : Text
  pub client_secret : Text
  pub redirect_uri : Text
  pub number : Text → ℕ
  pub to_string : ℕ → Text
  -- `URLSearchParams.toString`
  pub encode_params : List (Text × Text) → Text
  -- `Buffer.from(s, 'base64url')`, and with `toString` and `JSON.parse` for the claims of a token.
  pub from_base64url : Text → List ℕ
  pub claims_json : Text → Result Text ProviderIdentity
  pub token_json : Text → Result Text GoogleTokenResponse
  pub profile_json : Text → Result Text GmailProfileResponse
  pub list_json : Text → Result Text GmailListResponse
  pub message_json : Text → Result Text GmailRawMessageResponse
  pub history_json : Text → Result Text GmailHistoryResponse

-- `text.includes(part)`
unfoldable pub includes : Text → Text → Bool
includes [] part = starts_with part []
includes (a ∷ s) part = starts_with part (a ∷ s) || includes s part

-- The part of an id token behind the first dot; without one, `Buffer.from(undefined)` throws.
abbrev payload_part : List Text → Result Text Text
payload_part [] = err (codes "TypeError")
payload_part (payload ∷ others) = ok payload

abbrev flat : List (Option (List Text)) → List Text
flat [] = []
flat (entry ∷ entries) = or_else entry [] ++ flat entries

-- `params.set('pageToken', pageToken)`, where there is one.
abbrev with_page_token : Option Text → List (Text × Text) → List (Text × Text)
with_page_token (some (c ∷ t)) params = params ++ ((codes "pageToken", c ∷ t) ∷ [])
with_page_token _ params = params

module _ (p : Platform) where
  pub build_authorization_url : Text → Text
  build_authorization_url state =
      auth_endpoint
      ++ codes "?"
      ++ p.encode_params (
          (codes "client_id", p.client_id)
          ∷ (codes "redirect_uri", p.redirect_uri)
          ∷ (codes "response_type", codes "code")
          ∷ (codes "scope", join 32 scopes)
          ∷ (codes "access_type", codes "offline")
          ∷ (codes "prompt", codes "consent")
          ∷ (codes "include_granted_scopes", codes "true")
          ∷ (codes "state", state)
          ∷ [])

  unfoldable pub token_or_refuse : Response → Result Error GoogleTokenResponse
  token_or_refuse response =
      if not (is_ok response)
      then if includes response.text (codes "invalid_grant")
        then err (auth_revoked (codes "Google rejected the refresh token: invalid_grant"))
        else err (failure (codes "Could not complete Google authorization"))
      else uncaught (p.token_json response.text)

  abbrev pub token_request : List (Text × Text) → HttpRequest
  token_request fields = record {
    method = codes "POST";
    url = token_endpoint;
    authorization = none;
    body =
        fields
        ++ ((codes "client_id", p.client_id) ∷ (codes "client_secret", p.client_secret) ∷ []);
  }

  unfoldable pub post_token : List (Text × Text) → Result Error GoogleTokenResponse
  post_token fields = then_do (uncaught (p.fetch (token_request fields))) token_or_refuse

  abbrev to_tokens : ℕ → GoogleTokenResponse → OauthTokens
  to_tokens now payload = record {
    access_token = payload.access_token;
    refresh_token = payload.refresh_token;
    expires_at = now + payload.expires_in * 1000;
    scopes = parts_list (split 32 payload.scope);
  }

  abbrev claims_of : Result Text Text → Result Error ProviderIdentity
  claims_of (err e) = err (failure e)
  claims_of (ok payload) = uncaught (p.claims_json payload)

  unfoldable pub identity_from_id_token : Option Text → Result Error ProviderIdentity
  identity_from_id_token id_token = elim (truthy id_token) [
    | none ↦ err (failure (codes "Google did not return an id_token"))
    | some token ↦ claims_of (payload_part (split b'.' token).1)
  ]

  unfoldable pub exchange_code : ℕ → Text → Result Error ConnectResult
  exchange_code now code =
      then_do
        (post_token (
          (codes "code", code)
          ∷ (codes "redirect_uri", p.redirect_uri)
          ∷ (codes "grant_type", codes "authorization_code")
          ∷ []))
        (λ payload. then_do (identity_from_id_token payload.id_token) (λ identity.
          ok (record { tokens = to_tokens now payload; identity = identity; location = none })))

  abbrev pub refresh_fields : Text → List (Text × Text)
  refresh_fields refresh_token =
      (codes "refresh_token", refresh_token) ∷ (codes "grant_type", codes "refresh_token") ∷ []

  unfoldable pub refresh_access_token : ℕ → Text → Result Error OauthTokens
  refresh_access_token now refresh_token =
      then_do (post_token (refresh_fields refresh_token)) (λ payload. ok (to_tokens now payload))

  unfoldable pub request : Text → Text → Result Error Response
  request access_token path = uncaught (
      p.fetch (record {
        method = codes "GET";
        url = api_base ++ path;
        authorization = some (codes "Bearer " ++ access_token);
        body = [];
      }))

  unfoldable pub handle : {A : Type 0} → (Text → Result Text A) → Response → Result Error A
  handle decode response =
      if not (is_ok response)
      then if response.status == 401
        then err (unauthorized (codes "Gmail rejected the access token"))
        else if response.status == 429 || response.status == 403
        then err (failure (codes "Gmail rate limit exceeded"))
        else err (failure (codes "Gmail API request failed"))
      else uncaught (decode response.text)

  unfoldable pub api_get : {A : Type 0} → (Text → Result Text A) → Text → Text → Result Error A
  api_get decode access_token path = then_do (request access_token path) (handle decode)

  unfoldable pub get_profile : Connection → Result Error ProviderProfile
  get_profile connection =
      then_do (api_get p.profile_json connection.access_token (codes "/profile")) (λ profile.
        ok (record { email_address = profile.email_address; cursor = profile.history_id }))

  unfoldable pub list_message_ids : Connection → Option Text → ℕ → Result Error MessageListPage
  list_message_ids connection page_token max_results =
      then_do
        (api_get p.list_json connection.access_token (
          codes "/messages?"
          ++ p.encode_params
              (with_page_token page_token ((codes "maxResults", p.to_string max_results) ∷ []))))
        (λ list. ok (record {
          message_ids = or_else list.messages [];
          next_page_token = list.next_page_token;
        }))

  abbrev raw_of : GmailRawMessageResponse → RawMessage
  raw_of message = record {
    provider_message_id = message.id;
    provider_thread_id = some message.thread_id;
    labels = or_else message.label_ids [];
    snippet = message.snippet;
    size_bytes = message.size_estimate;
    internal_date = some (p.number message.internal_date);
    raw = p.from_base64url message.raw;
  }

  unfoldable pub raw_or_gone : Response → Result Error (Option RawMessage)
  raw_or_gone response =
      if response.status == 404
      then ok none
      else then_do (handle p.message_json response) (λ message. ok (some (raw_of message)))

  unfoldable pub fetch_raw_message : Connection → Text → Result Error (Option RawMessage)
  fetch_raw_message connection id =
      then_do (request connection.access_token (codes "/messages/" ++ id ++ codes "?format=RAW"))
        raw_or_gone

  abbrev invalid_cursor : MessageChangePage
  invalid_cursor = record {
    message_ids = [];
    next_page_token = none;
    cursor = none;
    cursor_invalid = true;
  }

  abbrev history_page : GmailHistoryResponse → MessageChangePage
  history_page history = record {
    message_ids = flat (or_else history.history []);
    next_page_token = history.next_page_token;
    cursor = history.history_id;
    cursor_invalid = false;
  }

  unfoldable pub changes_or_invalid : Response → Result Error MessageChangePage
  changes_or_invalid response =
      if response.status == 404
      then ok invalid_cursor
      else then_do (handle p.history_json response) (λ history. ok (history_page history))

  unfoldable pub list_changed_message_ids :
      Connection → Text → Option Text → Result Error MessageChangePage
  list_changed_message_ids connection cursor page_token =
      then_do
        (request connection.access_token (
          codes "/history?"
          ++ p.encode_params (
              with_page_token page_token (
                (codes "startHistoryId", cursor)
                ∷ (codes "historyTypes", codes "messageAdded")
                ∷ []))))
        changes_or_invalid

  -- The adapter at a connection, as the sync calls it.
  abbrev pub adapter : Connection → Adapter
  adapter connection = record {
    get_profile = then_do (get_profile connection) (λ profile. ok profile.cursor);
    list_message_ids =
        λ n. then_do (list_message_ids connection none n) (λ page. ok page.message_ids);
    list_changed_message_ids = list_changed_message_ids connection;
    fetch_raw_message = fetch_raw_message connection;
  }
