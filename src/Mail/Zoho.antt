-- ===== src/Mail/Zoho.antt =====
-- services/email-ingestion/src/mail/providers/zoho.provider.ts. `fetch`, JSON and the encoding of URLs are
-- parameters. A response of the wrong shape makes the code throw; the decoder says so.
pub mod Watermark
pub mod Locations
pub mod Faithful
pub mod Synced
use finlytic_ecosystem.Prelude.{
  ℕ, ◌+◌, ◌*◌, Bool, true, false, not, ◌&&◌, ◌||◌, Option, none, some, List, [], ◌∷◌, ◌++◌, map,
  if◌then◌else◌, filter, find, length, leb, ◌==◌, min, or_else,
}
use finlytic_ecosystem.Prelude.Text.{Text, codes, text_eq}
use finlytic_ecosystem.Prelude.Effects.{Result, ok, err}
use finlytic_ecosystem.Mail.Store.{Error, unauthorized, auth_revoked, failure}
use finlytic_ecosystem.Mail.Http.{HttpRequest, Response, Fetch, is_ok, uncaught, then_do}
use finlytic_ecosystem.Mail.Providers.{
  ProviderIdentity, OauthTokens, ConnectResult, MessageListPage, ProviderProfile, Connection,
}
use finlytic_ecosystem.Mail.Ingestion.{RawMessage}
use finlytic_ecosystem.Mail.Sync.{Adapter, MessageChangePage, truthy}

pub record Centre : Type 0 where
  pub key : Text
  -- `none` is undefined.
  pub accounts : Option Text
  pub mail : Option Text

abbrev centre : Text → Text → Text → Centre
centre key accounts mail = record { key = key; accounts = some accounts; mail = some mail }

abbrev pub data_centres : List Centre
data_centres =
    centre (codes "us") (codes "https://accounts.zoho.com") (codes "https://mail.zoho.com")
    ∷ centre (codes "eu") (codes "https://accounts.zoho.eu") (codes "https://mail.zoho.eu")
    ∷ centre (codes "in") (codes "https://accounts.zoho.in") (codes "https://mail.zoho.in")
    ∷ centre (codes "au") (codes "https://accounts.zoho.com.au") (codes "https://mail.zoho.com.au")
    ∷ centre (codes "jp") (codes "https://accounts.zoho.jp") (codes "https://mail.zoho.jp")
    ∷ centre (codes "ca") (codes "https://accounts.zohocloud.ca")
        (codes "https://mail.zohocloud.ca")
    ∷ centre (codes "sa") (codes "https://accounts.zoho.sa") (codes "https://mail.zoho.sa")
    ∷ centre (codes "uk") (codes "https://accounts.zoho.uk") (codes "https://mail.zoho.uk")
    ∷ []

abbrev pub scopes : List Text
scopes = codes "ZohoMail.accounts.READ" ∷ codes "ZohoMail.messages.READ" ∷ []

pub record ZohoTokenResponse : Type 0 where
  pub access_token : Option Text
  pub refresh_token : Option Text
  pub expires_in : Option ℕ
  pub scope : Option Text
  pub error : Option Text

pub record ZohoMessage : Type 0 where
  pub message_id : Text
  pub received_time : Text

pub record Platform : Type 0 where
  pub fetch : Fetch
  pub client_id : Text
  pub client_secret : Text
  pub redirect_uri : Text
  pub accounts_domain : Text
  pub to_lower_case : Text → Text
  -- `Number` and `String` on decimal integers.
  pub number : Text → ℕ
  pub to_string : ℕ → Text
  -- `URLSearchParams.toString`
  pub encode_params : List (Text × Text) → Text
  -- `split(/[\s,]+/)`
  pub split_scopes : Text → List Text
  pub token_json : Text → Result Text ZohoTokenResponse
  pub accounts_json : Text → Result Text (List ProviderIdentity)
  -- The `data` of a response.
  pub messages_json : Text → Result Text (List ZohoMessage)
  pub content_json : Text → Result Text Text
  pub utf8 : Text → List ℕ

-- A template literal writes undefined out.
abbrev template : Option Text → Text
template none = codes "undefined"
template (some t) = t

-- The lower-case names that every object inherits.
abbrev pub is_inherited : Text → Bool
is_inherited key = text_eq key (codes "constructor") || text_eq key (codes "__proto__")

-- `DATA_CENTRES[key]`: its own rows, then what the object inherits, which has neither domain.
unfoldable pub centre_of : Text → Option Centre
centre_of key = elim (find (λ (c : Centre). text_eq c.key key) data_centres) [
  | some c ↦ some c
  | none ↦
      if is_inherited key then some (record { key = key; accounts = none; mail = none }) else none
]

abbrev centre_or_refuse : Text → Option Centre → Result Error Centre
centre_or_refuse location (some c) = ok c
centre_or_refuse location none =
    err (failure (codes "Unknown Zoho data centre '" ++ location ++ codes "'"))

abbrev is_granted : Option Text → Bool
is_granted (some (c ∷ s)) = true
is_granted _ = false

-- `payload.error === text`
abbrev is_error : Option Text → Text → Bool
is_error (some e) t = text_eq e t
is_error none t = false

abbrev authorization_of : Text → Text
authorization_of access_token = codes "Zoho-oauthtoken " ++ access_token

module _ (p : Platform) where
  abbrev get_of : Text → Text → HttpRequest
  get_of url access_token = record {
    method = codes "GET";
    url = url;
    authorization = some (authorization_of access_token);
    body = [];
  }

  unfoldable pub resolve_location : Option Text → Result Error Centre
  resolve_location none =
      err
        (failure (codes "Zoho did not return a location; start authorization at accounts.zoho.com"))
  resolve_location (some []) =
      err
        (failure (codes "Zoho did not return a location; start authorization at accounts.zoho.com"))
  resolve_location (some (c ∷ s)) = centre_or_refuse (c ∷ s) (centre_of (p.to_lower_case (c ∷ s)))

  abbrev or_unavailable : Result Text Response → Result Error Response
  or_unavailable (ok response) = ok response
  or_unavailable (err detail) = err (failure (codes "Zoho transport failure: " ++ detail))

  unfoldable pub request : Connection → Text → Result Error Response
  request connection path = then_do (resolve_location connection.location) (λ c. or_unavailable (
      p.fetch (
        get_of (template c.mail ++ codes "/api/accounts/" ++ connection.provider_account_id ++ path)
          connection.access_token)))

  unfoldable pub handle : {A : Type 0} → (Text → Result Text A) → Response → Result Error A
  handle decode response =
      if not (is_ok response)
      then if response.status == 401
        then err (unauthorized (codes "Zoho rejected the access token"))
        else if response.status == 429
        then err (failure (codes "Zoho rate limit exceeded"))
        else err (failure (codes "Zoho API request failed"))
      else uncaught (decode response.text)

  abbrev pub view : ℕ → ℕ → Text
  view start limit =
      codes "/messages/view?start="
      ++ p.to_string start
      ++ codes "&limit="
      ++ p.to_string limit
      ++ codes "&sortBy=date&sortorder=false"

  -- One page of the mailbox, newest first.
  unfoldable pub view_page : Connection → ℕ → ℕ → Result Error (List ZohoMessage)
  view_page connection start limit =
      then_do (request connection (view start limit)) (handle p.messages_json)

  pub build_authorization_url : Text → Text
  build_authorization_url state =
      p.accounts_domain
      ++ codes "/oauth/v2/auth?"
      ++ p.encode_params (
          (codes "client_id", p.client_id)
          ∷ (codes "redirect_uri", p.redirect_uri)
          ∷ (codes "response_type", codes "code")
          ∷ (codes "scope", codes "ZohoMail.accounts.READ,ZohoMail.messages.READ")
          ∷ (codes "access_type", codes "offline")
          ∷ (codes "prompt", codes "consent")
          ∷ (codes "state", state)
          ∷ [])

  unfoldable pub token_or_refuse : Response → ZohoTokenResponse → Result Error ZohoTokenResponse
  token_or_refuse response payload =
      if not (is_ok response) || is_granted payload.error || not (is_granted payload.access_token)
      then if is_error payload.error (codes "invalid_grant")
          || is_error payload.error (codes "invalid_code")
        then err
            (auth_revoked (codes "Zoho rejected the refresh token: " ++ template payload.error))
        else err (failure (codes "Could not complete Zoho authorization"))
      else ok payload

  unfoldable pub post_token : Option Text → List (Text × Text) → Result Error ZohoTokenResponse
  post_token accounts fields =
      then_do
        (uncaught (
          p.fetch (record {
            method = codes "POST";
            url = template accounts ++ codes "/oauth/v2/token";
            authorization = none;
            body =
                fields
                ++ ((codes "client_id", p.client_id)
                    ∷ (codes "client_secret", p.client_secret)
                    ∷ []);
          })))
        (λ response. then_do (uncaught (p.token_json response.text)) (token_or_refuse response))

  abbrev scopes_of : Option Text → List Text
  scopes_of (some (c ∷ s)) = p.split_scopes (c ∷ s)
  scopes_of _ = scopes

  abbrev to_tokens : ℕ → ZohoTokenResponse → OauthTokens
  to_tokens now payload = record {
    access_token = or_else payload.access_token [];
    refresh_token = payload.refresh_token;
    expires_at = now + or_else payload.expires_in 3600 * 1000;
    scopes = scopes_of payload.scope;
  }

  abbrev first_account : List ProviderIdentity → Result Error ProviderIdentity
  first_account [] = err (failure (codes "Zoho returned no accounts"))
  first_account (a ∷ _) = ok a

  unfoldable pub fetch_identity : Option Text → Text → Result Error ProviderIdentity
  fetch_identity mail access_token =
      then_do (uncaught (p.fetch (get_of (template mail ++ codes "/api/accounts") access_token)))
        (λ response.
          if not (is_ok response)
          then err (failure (codes "Could not read the Zoho account"))
          else then_do (uncaught (p.accounts_json response.text)) first_account)

  unfoldable pub exchange_code : ℕ → Text → Option Text → Result Error ConnectResult
  exchange_code now code location = then_do (resolve_location location) (λ c.
      then_do
        (post_token c.accounts (
          (codes "code", code)
          ∷ (codes "redirect_uri", p.redirect_uri)
          ∷ (codes "grant_type", codes "authorization_code")
          ∷ []))
        (λ payload.
          then_do (fetch_identity c.mail (to_tokens now payload).access_token) (λ identity.
            ok (record {
              tokens = to_tokens now payload;
              identity = identity;
              location = some c.key;
            }))))

  unfoldable pub refresh_access_token : ℕ → Text → Option Text → Result Error OauthTokens
  refresh_access_token now refresh_token location = then_do (resolve_location location) (λ c.
      then_do
        (post_token c.accounts (
          (codes "refresh_token", refresh_token)
          ∷ (codes "grant_type", codes "refresh_token")
          ∷ []))
        (λ payload. ok (to_tokens now payload)))

  abbrev newest_time : List ZohoMessage → Text
  newest_time [] = codes "0"
  newest_time (m ∷ _) = m.received_time

  unfoldable pub get_profile : Connection → Result Error ProviderProfile
  get_profile connection = then_do (resolve_location connection.location) (λ c.
      then_do (fetch_identity c.mail connection.access_token) (λ identity.
        then_do (view_page connection 1 1) (λ page.
          ok (record { email_address = identity.email_address; cursor = newest_time page }))))

  abbrev start_of : Option Text → ℕ
  start_of page_token = p.number (or_else page_token (codes "1"))

  abbrev pub ids_of : List ZohoMessage → List Text
  ids_of page = map (λ (m : ZohoMessage). m.message_id) page

  unfoldable pub list_message_ids : Connection → Option Text → ℕ → Result Error MessageListPage
  list_message_ids connection page_token max_results =
      let start = start_of page_token in
      let limit = min max_results 200 in
      then_do (view_page connection start limit) (λ page. ok (record {
        message_ids = ids_of page;
        next_page_token = if length page == limit then some (p.to_string (start + limit)) else none;
      }))

  abbrev pub is_fresh : ℕ → ZohoMessage → Bool
  is_fresh since m = leb since (p.number m.received_time)

  abbrev pub first_time : List ZohoMessage → Option Text
  first_time [] = none
  first_time (m ∷ _) = some m.received_time

  abbrev pub change_page : ℕ → ℕ → List ZohoMessage → MessageChangePage
  change_page since start page =
      let fresh = filter (is_fresh since) page in
      record {
        message_ids = ids_of fresh;
        next_page_token =
            if length fresh == length page && length page == 200
            then some (p.to_string (start + 200))
            else none;
        cursor = if start == 1 then first_time page else none;
        cursor_invalid = false;
      }

  unfoldable pub list_changed_message_ids :
      Connection → Text → Option Text → Result Error MessageChangePage
  list_changed_message_ids connection cursor page_token =
      then_do (view_page connection (start_of page_token) 200)
        (λ page. ok (change_page (p.number cursor) (start_of page_token) page))

  abbrev raw_of : Text → Text → RawMessage
  raw_of id content = record {
    provider_message_id = id;
    provider_thread_id = none;
    labels = [];
    snippet = none;
    size_bytes = none;
    internal_date = none;
    raw = p.utf8 content;
  }

  unfoldable pub fetch_raw_message : Connection → Text → Result Error (Option RawMessage)
  fetch_raw_message connection id =
      then_do (request connection (codes "/messages/" ++ id ++ codes "/originalmessage"))
        (λ response.
          if response.status == 404
          then ok none
          else then_do (handle p.content_json response) (λ content. ok (some (raw_of id content))))

  -- The adapter at a connection, as the sync calls it.
  abbrev pub adapter : Connection → Adapter
  adapter connection = record {
    get_profile = then_do (get_profile connection) (λ profile. ok profile.cursor);
    list_message_ids =
        λ n. then_do (list_message_ids connection none n) (λ page. ok page.message_ids);
    list_changed_message_ids = list_changed_message_ids connection;
    fetch_raw_message = fetch_raw_message connection;
  }
