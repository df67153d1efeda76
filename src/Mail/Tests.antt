-- ===== src/Mail/Tests.antt =====
-- Runs of the services of services/email-ingestion on small inputs.
use finlytic_ecosystem.Prelude.{
  ◌+◌, ◌-◌, ◌≤◌, ◌≡◌, ◌≢◌, refl, true, false, Option, none, some, [], ◌∷◌, if◌then◌else◌, arith,
  All, Bool-cases, inl, inr, ◌⊎◌,
}
use finlytic_ecosystem.Prelude.Text.{Text, codes, text_eq, text_eq_refl, text_eq_iff}
use finlytic_ecosystem.Prelude.Split.{Lacks, trim}
use finlytic_ecosystem.Prelude.Effects.{ok, err}
use finlytic_ecosystem.Mail.OauthState.{StateClaims, Codec}
use finlytic_ecosystem.Mail.OauthState.SingleUse
use finlytic_ecosystem.Mail.OauthState.SingleUse.{
  Attempt, redemptions, redemptions_le, verify-issue,
}
use finlytic_ecosystem.Mail.Encryption
use finlytic_ecosystem.Mail.Encryption.{
  Bytes, Cipher, Sealed, CipherPurpose, access, refresh, encrypt, decrypt, decrypt-encrypt,
  not_authentic,
}
use finlytic_ecosystem.Mail.Ingestion.Later.{IsLater}
use finlytic_ecosystem.Mail.Sync.Capped.{all_bring_new, collect_capped}
use finlytic_ecosystem.Mail.Store.{Error, is_row}
use finlytic_ecosystem.Prelude.{Memᴰ, any, or_else, ltb, ◌≢◌, ◌+◌, ◌⊎◌, true}
use finlytic_ecosystem.Mail.Store.{
  MailAccount, gmail, active, Db, failure, out_of_fuel, insert_message, update_account,
}
use finlytic_ecosystem.Mail.Ingestion
use finlytic_ecosystem.Mail.Ingestion.{
  RawMessage, ingest, store_if_parsed, store_parsed, put, put_body, insert_or_raced, created_of,
}
use finlytic_ecosystem.Mail.Ingestion.Stored.{IsStored, ingest-IsStored, ingest_again}
use finlytic_ecosystem.Mail.Sync.{
  Adapter, incremental, SyncOutcome, collect, after_page, fetch_each, ingest_all,
  finish_incremental, incremental_sync,
}
use finlytic_ecosystem.Mail.Sync.Loop.{IsFaithful, IsAccounted}
use finlytic_ecosystem.Mail.Sync.Progress.{incremental_sync-IsAccounted, incremental_sync_failed}
use finlytic_ecosystem.Mail.AccountToken.{
  Tokens, refresh_skew_ms, IsLost, IsMarked, get_connection, refresh_tokens, store_tokens,
  get_connection_err,
}
use finlytic_ecosystem.Mail.Messages.{
  Formats, MessageDetail, get_for_account, raw_object_key_for, get_for_account-owner, detail_of,
  read_body,
}
use finlytic_ecosystem.Prelude.{◌&&◌, any}
use finlytic_ecosystem.Mail.Store.{Message}
use finlytic_ecosystem.Prelude.{ℕ, map, count}
use finlytic_ecosystem.Mail.MessageList.{newest_first, insert, text_leb, summary_of}
use finlytic_ecosystem.Prelude.Effects.{Result}
use finlytic_ecosystem.Mail.RawDownload.{StorageError, ObjectStream, RawResponse, raw, raw-owner}
use finlytic_ecosystem.Mail.MessageList.Walk.{walk, walk-rows_of}

abbrev claims : StateClaims
claims = record { user_id = codes "u1"; nonce = codes "n1"; exp = 601 }

abbrev codec : Codec
codec = record {
  sign = λ s. codes "mac";
  encode_claims = λ c. codes "claims";
  decode_claims = λ s. some claims;
}

codec-IsFaithful : SingleUse.IsFaithful codec claims
codec-IsFaithful = record {
  payload_no_dot = omega arith;
  payload_some = refl;
  signature_no_dot = λ s. omega arith;
  signature_some = λ s. refl;
  decoded = refl;
}

redemptions_le_example :
    redemptions codec
      (codes "claims.mac")
      (record { now_ms = 2000; state = codes "claims.mac" }
        ∷ record { now_ms = 3000; state = codes "claims.mac" }
        ∷ [])
      []
    ≤ 1
redemptions_le_example =
    redemptions_le codec (codes "claims.mac") 1000
      (record { now_ms = 2000; state = codes "claims.mac" }
        ∷ record { now_ms = 3000; state = codes "claims.mac" }
        ∷ [])
      [] (omega arith, (omega arith, tt))

-- A cipher that keeps the text and puts the additional data into the tag.
abbrev tag_of : Option Text → Bytes
tag_of none = 0 ∷ []
tag_of (some t) = 1 ∷ t

-- Every number moved past the ASCII range.
abbrev shift : Bytes → Text
shift [] = []
shift (n ∷ b) = (n + 200) ∷ shift b

abbrev unshift : Text → Bytes
unshift [] = []
unshift (n ∷ b) = (n - 200) ∷ unshift b

abbrev cipher : Cipher
cipher = record {
  seal = λ nonce aad b. record { cipher_text = b; auth_tag = tag_of aad };
  open_sealed = λ nonce aad s. if text_eq s.auth_tag (tag_of aad) then some s.cipher_text else none;
  utf8 = λ s. s;
  from_utf8 = λ s. s;
  base64url = shift;
  from_base64url = unshift;
}

unshift-shift : (b : Bytes) → unshift (shift b) ≡ b
unshift-shift [] = refl
unshift-shift (n ∷ b) = ground (arith, unshift-shift b)

shift-Lacks : (b : Bytes) → Lacks b'.' (shift b)
shift-Lacks [] = tt
shift-Lacks (n ∷ b) = (omega arith, shift-Lacks b)

tag_of-injective : (a b : Option Text) → tag_of a ≡ tag_of b → a ≡ b
tag_of-injective none none e = refl
tag_of-injective none (some t) e = ground arith
tag_of-injective (some s) none e = ground arith
tag_of-injective (some s) (some t) e = ground arith

tag_of-some : (a : Option Text) → tag_of a ≢ []
tag_of-some none e = cc
tag_of-some (some t) e = cc

shift-some : (b : Bytes) → b ≢ [] → Encryption.is_empty (shift b) ≡ false
shift-some [] h = absurd (h refl)
shift-some (n ∷ b) h = refl

cipher-IsFaithful : Encryption.IsFaithful cipher
cipher-IsFaithful = record {
  opens = λ nonce aad b. rw (text_eq_refl (tag_of aad)) refl;
  binds = λ nonce a b t differ. elim (Bool-cases (text_eq (tag_of a) (tag_of b))) [
    | inr other ↦ rw other refl
    | inl same ↦ absurd (differ (tag_of-injective a b ((text_eq_iff (tag_of a) (tag_of b)).0 same)))
  ];
  tag_some = λ nonce aad b. tag_of-some aad;
  text_some = λ nonce aad b h. h;
  utf8_some = λ s h. h;
  utf8_back = λ s. refl;
  base64url_back = unshift-shift;
  base64url_some = shift-some;
  base64url_no_dot = shift-Lacks;
}

decrypt-encrypt_example :
    decrypt cipher (encrypt cipher (7 ∷ 9 ∷ []) (codes "token") access) refresh ≡ err not_authentic
decrypt-encrypt_example =
    decrypt-encrypt cipher (7 ∷ 9 ∷ []) (codes "token") access refresh cipher-IsFaithful (λ e. cc)
      (λ e. cc)

abbrev ingestion : Ingestion.Platform
ingestion = record {
  simple_parser = λ raw. ok (record {
    date = none;
    text = some (codes " hello ");
    subject = some (codes "Hi");
    from = record { address = some (codes "ann@example.org"); name = codes "Ann" } ∷ [];
    to = [];
    attachments = 0;
  });
  to_lower_case = λ s. s;
  utf8 = λ s. s;
  year_and_month = λ t. codes "2026/08";
  put_failure = λ key. none;
  row_id = λ s. s;
}

abbrev raw_message : Text → RawMessage
raw_message id = record {
  provider_message_id = id;
  provider_thread_id = none;
  labels = [];
  snippet = none;
  size_bytes = none;
  internal_date = some 5;
  raw = 1 ∷ 2 ∷ [];
}

abbrev account : MailAccount
account = record {
  id = codes "a1";
  user_id = codes "u1";
  provider = gmail;
  provider_account_id = codes "g1";
  email_address = codes "ann@example.org";
  status = active;
  access_token_enc = [];
  access_token_expires = 9;
  refresh_token_enc = none;
  scopes = [];
  provider_metadata = [];
  sync_cursor = some (codes "c1");
  last_synced_at = none;
  last_sync_error = none;
}

abbrev db : Db
db = record { accounts = account ∷ []; messages = []; objects = [] }

sound : IsStored db
sound = record { backed = tt; one_row = λ a i. omega arith }

computed : Unit {0}
unfolding ingest store_if_parsed store_parsed put put_body insert_or_raced insert_message text_eq
    trim update_account fetch_each ingest_all finish_incremental incremental_sync collect after_page
computed = tt

ingest-IsStored_example :
    IsStored (ingest ingestion 50 (codes "a1") (raw_message (codes "m1")) db).1
    × IsLater db (ingest ingestion 50 (codes "a1") (raw_message (codes "m1")) db).1
    × (((e : Error) × ((ingest ingestion 50 (codes "a1") (raw_message (codes "m1")) db).0 ≡ err e))
        ⊎ (any
              (is_row (codes "a1") (codes "m1"))
              (ingest ingestion 50 (codes "a1") (raw_message (codes "m1")) db).1.messages
            ≡ true))
ingest-IsStored_example =
    ingest-IsStored ingestion 50 (codes "a1") (raw_message (codes "m1")) db sound

ingested : Db
unfolding computed
ingested = (ingest ingestion 50 (codes "a1") (raw_message (codes "m1")) db).1

ingest_again_example :
    ingest ingestion 60 (codes "a1") (raw_message (codes "m1")) ingested
    ≡ (ok (created_of (codes "m1") false), ingested)
unfolding computed ingested
ingest_again_example =
    ingest_again ingestion 50 60 (codes "a1") (raw_message (codes "m1")) db ingested
      (created_of (codes "m1") true) refl

-- Two pages; the message "m2" is gone.
abbrev adapter : Adapter
adapter = record {
  get_profile = ok (codes "c9");
  list_message_ids = λ n. ok [];
  list_changed_message_ids = λ cursor token. elim token [
    | none ↦ ok (record {
      message_ids = codes "m1" ∷ codes "m2" ∷ [];
      next_page_token = some (codes "p2");
      cursor = some (codes "c2");
      cursor_invalid = false;
    })
    | some t ↦ ok (record {
      message_ids = codes "m1" ∷ codes "m3" ∷ [];
      next_page_token = none;
      cursor = some (codes "c3");
      cursor_invalid = false;
    })
  ];
  fetch_raw_message = λ id. if text_eq id (codes "m2") then ok none else ok (some (raw_message id));
}

adapter-IsFaithful : IsFaithful adapter
adapter-IsFaithful id raw e = ground arith

synced : Db
unfolding computed
synced = (incremental_sync ingestion 50 adapter 5 (codes "a1") (codes "c1") db).1

abbrev outcome : SyncOutcome
outcome = record {
  account_id = codes "a1";
  mode = incremental;
  counts = record { fetched = 3; created = 2; skipped = 0; gone = 1 };
}

incremental_sync-IsAccounted_example :
    All (IsAccounted adapter (codes "a1") synced) (codes "m1" ∷ codes "m2" ∷ codes "m3" ∷ [])
    × (synced.accounts
        ≡ (update_account
            (codes "a1")
            (λ a. record a { sync_cursor = some (codes "c3") })
            db).1.accounts)
unfolding computed synced
incremental_sync-IsAccounted_example =
    incremental_sync-IsAccounted ingestion 50 5 adapter (codes "a1") (codes "c1") (codes "c3")
      (codes "m1" ∷ codes "m2" ∷ codes "m3" ∷ []) db synced outcome adapter-IsFaithful refl refl

-- The provider fails on every message.
abbrev failing : Adapter
failing = record adapter { fetch_raw_message = λ id. err (failure (codes "503")) }

failed : Db
unfolding computed
failed = (incremental_sync ingestion 50 failing 5 (codes "a1") (codes "c1") db).1

incremental_sync_failed_example : IsLater db failed
unfolding computed failed
incremental_sync_failed_example =
    incremental_sync_failed ingestion 50 5 failing (codes "a1") (codes "c1") (codes "c3")
      (codes "m1" ∷ codes "m2" ∷ codes "m3" ∷ []) db failed (failure (codes "503")) refl refl

abbrev next_token : Text → Text
next_token [] = []
next_token (c ∷ s) = (c + 1) ∷ []

-- Each page has one message and names another page.
abbrev endless : Adapter
endless = record adapter {
  list_changed_message_ids = λ cursor token. ok (record {
    message_ids = or_else token (b'a' ∷ []) ∷ [];
    next_page_token = some (next_token (or_else token (b'a' ∷ [])));
    cursor = none;
    cursor_invalid = false;
  });
}

collect_capped_example : collect endless (codes "c1") 200 [] (codes "c1") none ≢ err out_of_fuel
unfolding computed all_bring_new
collect_capped_example = collect_capped endless (codes "c1") (λ t e. cc) refl

-- The token endpoint is down.
abbrev tokens : Tokens
tokens = record {
  encrypt = λ s purpose. s;
  decrypt = λ s purpose. ok s;
  refresh_access_token = λ provider refresh_token metadata. err (failure (codes "503"));
}

get_connection_err_example :
    ((ltb (50 + refresh_skew_ms) account.access_token_expires ≡ false)
      × IsLost tokens (record account { refresh_token_enc = some (codes "r") })
      × ((reason : Text) × IsMarked tokens
            (record account { refresh_token_enc = some (codes "r") })
            reason
            db
            db
            (failure (codes "503"))))
    ⊎ (db ≡ db)
unfolding get_connection refresh_tokens store_tokens
get_connection_err_example =
    get_connection_err tokens 50 (record account { refresh_token_enc = some (codes "r") }) db db
      (failure (codes "503")) refl

abbrev formats : Formats
formats = record { from_utf8 = λ s. s; to_iso_string = λ ms. codes "1970-01-01T00:00:00.005Z" }

abbrev read : MessageDetail
read = record {
  id = codes "m1";
  subject = some (codes "Hi");
  from_address = some (codes "ann@example.org");
  from_name = some (codes "Ann");
  sent_at = codes "1970-01-01T00:00:00.005Z";
  snippet = none;
  has_attachments = false;
  labels = [];
  size_bytes = 2;
  provider_thread_id = none;
  to_addresses = [];
  body_text = some (codes "hello");
  body_truncated = false;
}

get_for_account-owner_example :
    (m : Message) × Memᴰ m ingested.messages
    × (read ≡ detail_of formats m (read_body formats m.body_text_key ingested))
    × (m.id ≡ codes "m1")
    × (m.account_id ≡ codes "a1")
    × (any
          (λ (a : MailAccount). text_eq a.id m.account_id && text_eq a.user_id (codes "u1"))
          ingested.accounts
        ≡ true)
    × (raw_object_key_for (codes "u1") (codes "a1") (codes "m1") ingested ≡ ok m.raw_object_key)
unfolding computed ingested get_for_account
get_for_account-owner_example =
    get_for_account-owner formats (codes "u1") (codes "a1") (codes "m1") ingested read refl

abbrev message : Text → ℕ → Message
message id sent_at = record {
  id = id;
  account_id = codes "a1";
  provider_message_id = id;
  provider_thread_id = none;
  subject = none;
  from_address = none;
  from_name = none;
  to_addresses = [];
  sent_at = sent_at;
  snippet = none;
  labels = [];
  size_bytes = 0;
  has_attachments = false;
  raw_object_key = [];
  body_text_key = none;
}

-- Two of the messages were sent at the same time.
abbrev three : Db
three = record db {
  messages = message (codes "m1") 5 ∷ message (codes "m3") 7 ∷ message (codes "m2") 7 ∷ [];
}

three-IsUnique : (id : Text) → count (λ (m : Message). text_eq m.id id) three.messages ≤ 1
three-IsUnique id =
    ground
      (arith, text_eq_iff (codes "m1") id, text_eq_iff (codes "m2") id, text_eq_iff (codes "m3") id)

abbrev to_iso_string : ℕ → Text
to_iso_string ms = ms ∷ []

-- Pages of two messages.
walk-rows_of_example :
    walk to_iso_string 4 (codes "u1") (codes "a1") 2 three none
    ≡ some (
        map
          (summary_of to_iso_string)
          (message (codes "m3") 7 ∷ message (codes "m2") 7 ∷ message (codes "m1") 5 ∷ []))
unfolding newest_first insert text_leb text_eq
walk-rows_of_example =
    walk-rows_of to_iso_string (codes "u1") (codes "a1") 1 three 3 refl three-IsUnique refl
      (omega arith)

-- A store that has every object as one byte.
abbrev get_stream : Text → Result StorageError ObjectStream
get_stream key = ok (record { content_length = some 1; body = 9 ∷ []; breaks_after = none })

abbrev downloaded : RawResponse
downloaded = record {
  content_type = codes "message/rfc822";
  content_disposition = codes "attachment; filename=\"message-m1.eml\"";
  content_length = some 1;
  sent = 9 ∷ [];
  is_destroyed = false;
}

raw-owner_example :
    (m : Message) × Memᴰ m ingested.messages
    × (m.id ≡ codes "m1")
    × (m.account_id ≡ codes "a1")
    × (any
          (λ (a : MailAccount). text_eq a.id m.account_id && text_eq a.user_id (codes "u1"))
          ingested.accounts
        ≡ true)
    × ((object : ObjectStream) × (get_stream m.raw_object_key ≡ ok object)
        × ((downloaded.is_destroyed ≡ true) ⊎ (downloaded.sent ≡ object.body)))
unfolding computed ingested raw raw_object_key_for
raw-owner_example =
    raw-owner get_stream (codes "u1") (codes "a1") (codes "m1") ingested downloaded refl
