-- ===== src/Mail/Ingestion.antt =====
-- services/email-ingestion/src/messages/message-ingestion.service.ts, with `put` and the keys of
-- src/storage/object-storage.service.ts. The MIME parser is a parameter.
pub mod Later
pub mod Stored
use finlytic_ecosystem.Prelude.{
  ℕ, Bool, true, false, Option, none, some, List, [], ◌∷◌, ◌++◌, if◌then◌else◌, any, or_else,
  length, ltb,
}
use mathlib.Core.Option
use finlytic_ecosystem.Prelude.Text.{Text, codes, text_eq}
use finlytic_ecosystem.Prelude.Split.{trim}
use finlytic_ecosystem.Prelude.Effects.{Result, ok, err, Eff, pure, throw, ◌>>=◌, ◌>>◌}
use finlytic_ecosystem.Mail.Store.{
  MailAccount, Message, Object, Db, Error, known_request, failure, is_row, insert_message,
}

pub record RawMessage : Type 0 where
  pub provider_message_id : Text
  pub provider_thread_id : Option Text
  pub labels : List Text
  pub snippet : Option Text
  pub size_bytes : Option ℕ
  pub internal_date : Option ℕ
  pub raw : List ℕ

-- A mailbox of a parsed address: its address and its name.
pub record Address : Type 0 where
  pub address : Option Text
  pub name : Text

-- What `simpleParser` returns. An absent `to`, one group and several are a list of groups.
pub record ParsedMail : Type 0 where
  pub date : Option ℕ
  pub text : Option Text
  pub subject : Option Text
  pub from : List Address
  pub to : List (List Address)
  pub attachments : ℕ

pub record IngestResult : Type 0 where
  pub provider_message_id : Text
  pub created : Bool

pub record Platform : Type 0 where
  pub simple_parser : List ℕ → Result Error ParsedMail
  pub to_lower_case : Text → Text
  pub utf8 : Text → List ℕ
  -- The year and the month of a time in UTC, as "2026/08".
  pub year_and_month : ℕ → Text
  -- The failure of a `put` under a key, where the bucket refuses it.
  pub put_failure : Text → Option Error
  -- The id that the database draws for a row.
  pub row_id : Text → Text

abbrev pub truthy : Option Text → Option Text
truthy (some (a ∷ s)) = some (a ∷ s)
truthy _ = none

abbrev pub created_of : Text → Bool → IngestResult
created_of id created = record { provider_message_id = id; created = created }

module _ (p : Platform) where
  abbrev pub build_raw_key : Text → ℕ → Text → Text
  build_raw_key account_id sent_at id =
      codes "raw/"
      ++ account_id
      ++ codes "/"
      ++ p.year_and_month sent_at
      ++ codes "/"
      ++ id
      ++ codes ".eml"

  abbrev pub build_body_key : Text → ℕ → Text → Text
  build_body_key account_id sent_at id =
      codes "text/"
      ++ account_id
      ++ codes "/"
      ++ p.year_and_month sent_at
      ++ codes "/"
      ++ id
      ++ codes ".txt"

  abbrev put_checked : Option Error → Object → Eff Db Error (Unit {0})
  put_checked (some e) object db = (err e, db)
  put_checked none object db = (ok tt, record db { objects = object ∷ db.objects })

  unfoldable pub put : Text → List ℕ → Text → Eff Db Error (Unit {0})
  put key body content_type =
      put_checked (p.put_failure key)
        (record { key = key; body = body; content_type = content_type })

  abbrev addresses_of : List Address → List Text
  addresses_of [] = []
  addresses_of (a ∷ as_) =
      let rest = addresses_of as_ in
      elim (truthy (Option.map p.to_lower_case a.address)) [ none ↦ rest | some s ↦ s ∷ rest ]

  abbrev address_list : List (List Address) → List Text
  address_list [] = []
  address_list (g ∷ gs) = addresses_of g ++ address_list gs

  abbrev first_address : List Address → Option Text
  first_address [] = none
  first_address (a ∷ _) = Option.map p.to_lower_case a.address

  abbrev first_name : List Address → Option Text
  first_name [] = none
  first_name (a ∷ _) = truthy (some a.name)

  -- `parsed.date ?? raw.internalDate ?? new Date()`
  abbrev pub sent_at_of : ℕ → ParsedMail → RawMessage → ℕ
  sent_at_of now parsed raw = or_else parsed.date (or_else raw.internal_date now)

  -- The body, where there is one, is stored before the row; its key is the result.
  unfoldable pub put_body : Text → Option Text → Eff Db Error (Option Text)
  put_body key none = pure none
  put_body key (some body_text) = do
    put key (p.utf8 body_text) (codes "text/plain; charset=utf-8")
    pure (some key)

  abbrev pub row_of : Text → ℕ → RawMessage → ParsedMail → Text → Option Text → Message
  row_of account_id sent_at raw parsed raw_object_key body_text_key = record {
    id = p.row_id raw.provider_message_id;
    account_id = account_id;
    provider_message_id = raw.provider_message_id;
    provider_thread_id = raw.provider_thread_id;
    subject = parsed.subject;
    from_address = first_address parsed.from;
    from_name = first_name parsed.from;
    to_addresses = address_list parsed.to;
    sent_at = sent_at;
    snippet = raw.snippet;
    labels = raw.labels;
    size_bytes = or_else raw.size_bytes (length raw.raw);
    has_attachments = ltb 0 parsed.attachments;
    raw_object_key = raw_object_key;
    body_text_key = body_text_key;
  }

  -- The try around the insert: P2002 means that another worker was first.
  abbrev created_or_raced : Text → Result Error (Unit {0}) → Result Error IngestResult
  created_or_raced id (ok _) = ok (created_of id true)
  created_or_raced id (err (known_request code m)) =
      if text_eq code (codes "P2002") then ok (created_of id false) else err (known_request code m)
  created_or_raced id (err e) = err e

  unfoldable pub insert_or_raced : Message → Eff Db Error IngestResult
  insert_or_raced m db =
      (created_or_raced m.provider_message_id (insert_message m db).0, (insert_message m db).1)

  -- The part of `ingest` behind the parser.
  unfoldable pub store_parsed : Text → RawMessage → ℕ → ParsedMail → Eff Db Error IngestResult
  store_parsed account_id raw sent_at parsed =
      let raw_object_key = build_raw_key account_id sent_at raw.provider_message_id in
      do
        put raw_object_key raw.raw (codes "message/rfc822")
        body_text_key ←
            put_body (build_body_key account_id sent_at raw.provider_message_id)
              (truthy (Option.map trim parsed.text))
        insert_or_raced (row_of account_id sent_at raw parsed raw_object_key body_text_key)

  unfoldable pub store_if_parsed :
      ℕ → Text → RawMessage → Result Error ParsedMail → Eff Db Error IngestResult
  store_if_parsed now account_id raw (err e) db = (err e, db)
  store_if_parsed now account_id raw (ok parsed) db =
      store_parsed account_id raw (sent_at_of now parsed raw) parsed db

  unfoldable pub ingest : ℕ → Text → RawMessage → Eff Db Error IngestResult
  ingest now account_id raw db =
      if any (is_row account_id raw.provider_message_id) db.messages
      then (ok (created_of raw.provider_message_id false), db)
      else store_if_parsed now account_id raw (p.simple_parser raw.raw) db
