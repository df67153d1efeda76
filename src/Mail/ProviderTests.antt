-- ===== src/Mail/ProviderTests.antt =====
-- Runs of the providers, the queue and the accounts of services/email-ingestion on small inputs.
use finlytic_ecosystem.Prelude.{
  ℕ, ◌+◌, ◌-◌, ◌≤◌, ◌≡◌, ◌≢◌, refl, false, Option, none, some, List, [], ◌∷◌, take, drop, arith,
  if◌then◌else◌, All, Bool-cases, inl, inr,
}
use finlytic_ecosystem.Prelude.Text.{
  Text, codes, text_eq, text_eq_iff, text_eq_refl, text_eq_sound, starts_with,
}
use finlytic_ecosystem.Prelude.Effects.{Result, ok, err}
use finlytic_ecosystem.Mail.Store.{
  Error, MailProvider, MailAccount, AccountStatus, gmail, active, reauth_required, Db,
}
use finlytic_ecosystem.Mail.Http.{Response}
use finlytic_ecosystem.Mail.Sync.{collect}
use finlytic_ecosystem.Mail.OauthState.{
  StateClaims, Codec, verify, verify_parts, verify_claims, forget,
}
use finlytic_ecosystem.Mail.Store.{update_account, insert_message}
use finlytic_ecosystem.Mail.Ingestion
use finlytic_ecosystem.Mail.Ingestion.{
  ingest, store_if_parsed, store_parsed, put, put_body, insert_or_raced,
}
use finlytic_ecosystem.Mail.Sync.{
  SyncOutcome, incremental, incremental_sync, finish_incremental, collect, after_page, ingest_all,
  fetch_each,
}
use finlytic_ecosystem.Mail.Sync.Loop.{IsAccounted}
use finlytic_ecosystem.Mail.Zoho.Synced.{incremental_sync-newest}
use finlytic_ecosystem.Mail.Zoho
use finlytic_ecosystem.Mail.Providers
use finlytic_ecosystem.Mail.Providers.{Connection, ConnectResult}
use finlytic_ecosystem.Mail.Zoho.{ZohoMessage, Centre, view_page, resolve_location}
use finlytic_ecosystem.Mail.Zoho.Locations.{IsAllowed, resolve_location-IsAllowed}
use finlytic_ecosystem.Mail.Gmail
use finlytic_ecosystem.Mail.Gmail.{
  gmail_readonly, token_request, refresh_fields, refresh_access_token,
}
use finlytic_ecosystem.Mail.Gmail.Revoked.{IsGone, refresh_access_token-IsGone}
use finlytic_ecosystem.Mail.Queue.{JobState, JobQueue, IsJobQueue, poll_active_accounts}
use finlytic_ecosystem.Mail.Queue.Polling.{IsPending, poll_active_accounts-IsPending}
use finlytic_ecosystem.Mail.Accounts.{
  connect, connect_with, resolve, upsert, callback, CallbackQuery, HttpException, State,
}
use finlytic_ecosystem.Prelude.Split.{split}
use finlytic_ecosystem.Mail.Accounts.Keyed.{IsKeyed, connect-IsKeyed}
use finlytic_ecosystem.Mail.Accounts.Owner.{IsRedeemed, callback-IsRedeemed}
use finlytic_ecosystem.Mail.Accounts.Preview.{MailProviderAdapter, preview}
use finlytic_ecosystem.Mail.AccountToken.{Tokens, get_connection}
use finlytic_ecosystem.Mail.Store.{failure}
use finlytic_ecosystem.Mail.Accounts.{not_found}

-- Three messages, two of them since the cursor.
abbrev mailbox : List ZohoMessage
mailbox =
    record { message_id = codes "m3"; received_time = codes "9" }
    ∷ record { message_id = codes "m2"; received_time = codes "5" }
    ∷ record { message_id = codes "m1"; received_time = codes "2" }
    ∷ []

-- A number is written as one character; it is read where it stands.
abbrev number : Text → ℕ
number [] = 0
number (c ∷ s) = c - 48

-- The server cuts its answer out of the mailbox, as the URL of the request asks.
abbrev slice : Text → List ZohoMessage
slice s = take (number (drop 8 s)) (drop (number s - 1) mailbox)

abbrev platform : Zoho.Platform
platform = record {
  fetch = λ request. ok (record { status = 200; text = request.url });
  client_id = codes "c";
  client_secret = codes "s";
  redirect_uri = codes "r";
  accounts_domain = codes "https://accounts.zoho.com";
  to_lower_case = λ s. s;
  number = number;
  to_string = λ n. (n + 48) ∷ [];
  encode_params = λ params. [];
  split_scopes = λ s. s ∷ [];
  token_json = λ s. err [];
  accounts_json = λ s. err [];
  messages_json = λ url. ok (slice (drop 57 url));
  content_json = λ s. ok s;
  utf8 = λ s. s;
}

abbrev connection : Connection
connection = record {
  access_token = codes "t";
  provider_account_id = codes "7";
  location = some (codes "us");
}

back : (n : ℕ) → n + 48 - 48 ≡ n
back n = omega arith

serves :
    (start limit : ℕ)
    → 1 ≤ start
    → view_page platform connection start limit ≡ ok (take limit (drop (start - 1) mailbox))
unfolding view_page Zoho.request Zoho.handle resolve_location Zoho.centre_of text_eq
serves start limit h = rw (back limit, back start) refl

abbrev europe : Centre
europe = record {
  key = codes "eu";
  accounts = some (codes "https://accounts.zoho.eu");
  mail = some (codes "https://mail.zoho.eu");
}

resolve_location-IsAllowed_example :
    (s : Text) × (some (codes "eu") ≡ some s) × IsAllowed (platform.to_lower_case s) europe
unfolding resolve_location Zoho.centre_of text_eq
resolve_location-IsAllowed_example =
    resolve_location-IsAllowed platform (some (codes "eu")) europe refl

abbrev google : Gmail.Platform
google = record {
  fetch = λ request. ok (record { status = 400; text = codes "{\"error\":\"invalid_grant\"}" });
  client_id = codes "c";
  client_secret = codes "s";
  redirect_uri = codes "r";
  number = number;
  to_string = λ n. (n + 48) ∷ [];
  encode_params = λ params. [];
  from_base64url = λ s. s;
  claims_json = λ s. err [];
  token_json = λ s. err [];
  profile_json = λ s. err [];
  list_json = λ s. err [];
  message_json = λ s. err [];
  history_json = λ s. err [];
}

refresh_access_token-IsGone_example :
    (response : Response) × (google.fetch
        (token_request google (refresh_fields google (codes "old")))
      ≡ ok response)
    × IsGone response
unfolding refresh_access_token Gmail.post_token Gmail.token_or_refuse Gmail.includes starts_with
refresh_access_token-IsGone_example =
    refresh_access_token-IsGone google 5 (codes "old")
      (codes "Google rejected the refresh token: invalid_grant") refl

-- A queue as the function of its ids.
abbrev Jobs : Type 0
Jobs = Text → Option JobState

abbrev jobs : JobQueue Jobs
jobs = record {
  get_state = λ id q. q id;
  remove = λ id q other. if text_eq id other then none else q other;
  add = λ id d q other. if text_eq id other then some JobState.waiting else q other;
}

apart : (id other : Text) → id ≢ other → text_eq id other ≡ false
apart id other h = elim (Bool-cases (text_eq id other)) [
  | inl same ↦ absurd (h (text_eq_sound id other same))
  | inr differ ↦ differ
]

jobs-IsJobQueue : IsJobQueue jobs
jobs-IsJobQueue = record {
  get_state-add = λ id d q h. rw (text_eq_refl id) refl;
  get_state-remove = λ id q. rw (text_eq_refl id) refl;
  other-add = λ id other d q h. rw (apart id other h) refl;
  other-remove = λ id other q h. rw (apart id other h) refl;
}

abbrev account : Text → Text → AccountStatus → MailAccount
account id provider_account_id status = record {
  id = id;
  user_id = codes "u1";
  provider = gmail;
  provider_account_id = provider_account_id;
  email_address = codes "ann@example.org";
  status = status;
  access_token_enc = [];
  access_token_expires = 9;
  refresh_token_enc = none;
  scopes = [];
  provider_metadata = [];
  sync_cursor = none;
  last_synced_at = none;
  last_sync_error = none;
}

abbrev db : Db
db = record {
  accounts =
      account (codes "a1") (codes "g1") active
      ∷ account (codes "a2") (codes "g2") reauth_required
      ∷ [];
  messages = [];
  objects = [];
}

-- The job of the active account has failed before.
abbrev before_poll : Jobs
before_poll id = if text_eq id (codes "sync-a1") then some JobState.failed else none

poll_active_accounts-IsPending_example :
    All
      (IsPending jobs jobs-IsJobQueue (poll_active_accounts jobs db before_poll).1)
      (codes "a1" ∷ [])
    × ((poll_active_accounts jobs db before_poll).1 (codes "sync-a2") ≡ none)
unfolding text_eq
poll_active_accounts-IsPending_example =
    poll_active_accounts-IsPending jobs jobs-IsJobQueue db before_poll (codes "sync-a2")
      ((λ e. cc ((text_eq_iff (codes "sync-a1") (codes "sync-a2")).1 e)), tt)

abbrev granted : Providers.OauthTokens
granted = record {
  access_token = codes "t";
  refresh_token = none;
  expires_at = 9;
  scopes = gmail_readonly ∷ [];
}

abbrev identity : Providers.ProviderIdentity
identity = record { provider_account_id = codes "g1"; email_address = codes "ann@example.org" }

abbrev one_account : Db
one_account = record db { accounts = account (codes "a1") (codes "g1") active ∷ [] }

one_account-IsKeyed : IsKeyed one_account
one_account-IsKeyed u provider i = ground arith

connect-IsKeyed_example :
    IsKeyed
      (connect (λ s purpose. s) (codes "a9") (codes "u1") gmail granted identity none one_account).1
connect-IsKeyed_example =
    connect-IsKeyed (λ s purpose. s) (codes "a9") (codes "u1") gmail granted identity none
      one_account one_account-IsKeyed

abbrev claims : StateClaims
claims = record { user_id = codes "u1"; nonce = codes "n1"; exp = 601 }

abbrev codec : Codec
codec = record {
  sign = λ s. codes "mac";
  encode_claims = λ c. codes "claims";
  decode_claims = λ s. some claims;
}

abbrev exchange : MailProvider → Text → Option Text → Result Error ConnectResult
exchange provider code location =
    ok (record { tokens = granted; identity = identity; location = none })

abbrev query : CallbackQuery
query = record {
  code = some (codes "code");
  state = some (codes "claims.mac");
  error = none;
  location = none;
}

connected : Result HttpException MailAccount × State
unfolding callback resolve connect_with verify verify_parts verify_claims split forget connect
    upsert text_eq
connected =
    callback codec (λ s. s) (λ s purpose. s) exchange (λ s. s) 2000 (codes "a9") (codes "GMAIL")
      query ([], one_account)

-- The account "a1" is connected again.
abbrev renewed : MailAccount
renewed = record (account (codes "a1") (codes "g1") active) {
  access_token_enc = codes "t";
  scopes = gmail_readonly ∷ [];
}

callback-IsRedeemed_example :
    IsRedeemed codec
      (λ s. s)
      (λ s purpose. s)
      exchange
      (λ s. s)
      2000
      (some (codes "claims.mac"))
      []
      renewed
      connected.1
unfolding connected callback resolve connect_with verify verify_parts verify_claims split forget
    connect upsert text_eq
callback-IsRedeemed_example =
    callback-IsRedeemed codec (λ s. s) (λ s purpose. s) exchange (λ s. s) 2000 (codes "a9")
      (codes "GMAIL") query renewed ([], one_account) connected.1 refl

-- The parser finds an empty message.
abbrev ingestion : Ingestion.Platform
ingestion = record {
  simple_parser = λ raw.
      ok (record { date = none; text = none; subject = none; from = []; to = []; attachments = 0 });
  to_lower_case = λ s. s;
  utf8 = λ s. s;
  year_and_month = λ t. codes "2026/08";
  put_failure = λ key. none;
  row_id = λ s. s;
}

synced : Result Error SyncOutcome × Db
unfolding incremental_sync
synced =
    incremental_sync ingestion 50 (Zoho.adapter platform connection) 1 (codes "a1") (codes "4")
      one_account

abbrev outcome : SyncOutcome
outcome = record {
  account_id = codes "a1";
  mode = incremental;
  counts = record { fetched = 2; created = 2; skipped = 0; gone = 0 };
}

incremental_sync-newest_example :
    All
      (IsAccounted (Zoho.adapter platform connection) (codes "a1") synced.1)
      (codes "m3" ∷ codes "m2" ∷ [])
    × (synced.1.accounts
        ≡ (update_account
            (codes "a1")
            (λ a. record a { sync_cursor = some (codes "9") })
            one_account).1.accounts)
unfolding text_eq synced incremental_sync finish_incremental collect after_page
    Zoho.list_changed_message_ids view_page Zoho.request Zoho.handle resolve_location Zoho.centre_of
    ingest_all fetch_each Zoho.fetch_raw_message ingest store_if_parsed store_parsed put put_body
    insert_or_raced insert_message update_account
incremental_sync-newest_example =
    incremental_sync-newest ingestion platform 50 0 connection (codes "a1") (codes "4") mailbox
      one_account synced.1 outcome refl serves
      ((omega arith, (omega arith, tt)), ((omega arith, tt), (tt, tt))) (refl, (refl, (refl, tt)))
      refl

abbrev preview_adapter : MailProviderAdapter
preview_adapter = record {
  get_profile =
      λ connection. ok (record { email_address = codes "ann@example.org"; cursor = codes "7" });
  list_message_ids = λ connection page_token n.
      ok (record { message_ids = codes "m1" ∷ codes "m2" ∷ []; next_page_token = some [] });
  fetch_raw_message = λ connection id. ok none;
}

abbrev preview_tokens : Tokens
preview_tokens = record {
  encrypt = λ s purpose. s;
  decrypt = λ s purpose. ok s;
  refresh_access_token = λ provider refresh_token metadata. err (failure (codes "503"));
}

-- The first message is gone and the page token is empty.
preview_test :
    let a = record (account (codes "a1") (codes "g1") active) { access_token_expires = 400000 } in
    let own = record one_account { accounts = a ∷ [] } in
    preview preview_tokens (λ provider. preview_adapter) (λ s. []) 0 (codes "u1") (codes "a1") own
    ≡ (
      ok (record {
        email_address = codes "ann@example.org";
        cursor = codes "7";
        ids_returned = 2;
        has_more_pages = false;
        first_message = none;
      }),
      own,
    )
unfolding preview get_connection text_eq
preview_test = refl

-- Another user is told that there is no such account.
preview_other_test :
    preview preview_tokens
      (λ provider. preview_adapter)
      (λ s. [])
      0
      (codes "u2")
      (codes "a1")
      one_account
    ≡ (err (not_found (codes "Account not found")), one_account)
unfolding preview text_eq
preview_other_test = refl
