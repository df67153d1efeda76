-- ===== src/Mail/Messages.antt =====
-- services/email-ingestion/src/messages/messages.service.ts: reading one message of an account that the
-- caller owns. UTF-8 and dates are parameters.
use finlytic_ecosystem.Prelude.{
  ℕ, ◌*◌, ◌≡◌, Bool, true, false, ◌&&◌, Option, none, some, List, ◌∷◌, ltb, arith, any, find, take,
  length, Option-cases, inl, inr, find-some-holds, find-some-Mem, Memᴰ,
}
use finlytic_ecosystem.Prelude.Text.{Text, text_eq, text_eq_iff}
use finlytic_ecosystem.Prelude.Effects.{Result, ok, err}
use finlytic_ecosystem.Mail.Store.{MailAccount, Message, Object, Db}

-- NotFoundException, with what is not found.
pub data NotFound : Type 0 where
  message_not_found : NotFound

pub record MessageDetail : Type 0 where
  pub id : Text
  pub subject : Option Text
  pub from_address : Option Text
  pub from_name : Option Text
  pub sent_at : Text
  pub snippet : Option Text
  pub has_attachments : Bool
  pub labels : List Text
  pub size_bytes : ℕ
  pub provider_thread_id : Option Text
  pub to_addresses : List Text
  pub body_text : Option Text
  pub body_truncated : Bool

pub record Formats : Type 0 where
  pub from_utf8 : List ℕ → Text
  pub to_iso_string : ℕ → Text

abbrev max_body_bytes : ℕ
max_body_bytes = 256 * 1024

-- `where: { id, accountId, account: { userId } }`
abbrev pub is_owned : Text → Text → Text → Db → Message → Bool
is_owned user_id account_id message_id db m =
    text_eq m.id message_id
    && (text_eq m.account_id account_id
        && any (λ (a : MailAccount). text_eq a.id m.account_id && text_eq a.user_id user_id)
            db.accounts)

abbrev pub find_owned : Text → Text → Text → Db → Option Message
find_owned user_id account_id message_id db =
    find (is_owned user_id account_id message_id db) db.messages

abbrev pub key_of : Option Message → Result NotFound Text
key_of none = err message_not_found
key_of (some m) = ok m.raw_object_key

unfoldable pub raw_object_key_for : Text → Text → Text → Db → Result NotFound Text
raw_object_key_for user_id account_id message_id db =
    key_of (find_owned user_id account_id message_id db)

-- What is found is a row, of the account, and the caller owns an account with that id.
pub find_owned-owner :
    (user_id account_id message_id : Text) (db : Db) (m : Message)
    → find_owned user_id account_id message_id db ≡ some m
    → Memᴰ m db.messages
      × (m.id ≡ message_id)
      × (m.account_id ≡ account_id)
      × (any
            (λ (a : MailAccount). text_eq a.id m.account_id && text_eq a.user_id user_id)
            db.accounts
          ≡ true)
find_owned-owner user_id account_id message_id db m found =
    let holds = find-some-holds (is_owned user_id account_id message_id db) db.messages m found in
    (
      find-some-Mem (is_owned user_id account_id message_id db) db.messages m found,
      (text_eq_iff m.id message_id).0 (ground (arith, holds)),
      (text_eq_iff m.account_id account_id).0 (ground (arith, holds)),
      ground (arith, holds),
    )

module _ (formats : Formats) where
  -- The body and whether it is cut; an object that cannot be read gives none.
  abbrev body_of : Option Object → Option Text × Bool
  body_of none = (none, false)
  body_of (some o) =
      (some (formats.from_utf8 (take max_body_bytes o.body)), ltb max_body_bytes (length o.body))

  -- An empty key is falsy.
  abbrev pub read_body : Option Text → Db → Option Text × Bool
  read_body (some (c ∷ key)) db =
      body_of (find (λ (o : Object). text_eq o.key (c ∷ key)) db.objects)
  read_body _ db = (none, false)

  abbrev pub detail_of : Message → Option Text × Bool → MessageDetail
  detail_of m body = record {
    id = m.id;
    subject = m.subject;
    from_address = m.from_address;
    from_name = m.from_name;
    sent_at = formats.to_iso_string m.sent_at;
    snippet = m.snippet;
    has_attachments = m.has_attachments;
    labels = m.labels;
    size_bytes = m.size_bytes;
    provider_thread_id = m.provider_thread_id;
    to_addresses = m.to_addresses;
    body_text = body.0;
    body_truncated = body.1;
  }

  abbrev detail_or_not : Option Message → Db → Result NotFound MessageDetail
  detail_or_not none db = err message_not_found
  detail_or_not (some m) db = ok (detail_of m (read_body m.body_text_key db))

  unfoldable pub get_for_account : Text → Text → Text → Db → Result NotFound MessageDetail
  get_for_account user_id account_id message_id db =
      detail_or_not (find_owned user_id account_id message_id db) db

  -- Who reads a message owns its account: what is returned are the fields and the stored body of a row of
  -- the table, which has the id of the path and is of the account of the path, and an account with that
  -- id is of the caller. The key of the raw object is given out for the same row.
  pub get_for_account-owner :
      (user_id account_id message_id : Text) (db : Db) (detail : MessageDetail)
      → get_for_account user_id account_id message_id db ≡ ok detail
      → (m : Message) × Memᴰ m db.messages
        × (detail ≡ detail_of m (read_body m.body_text_key db))
        × (m.id ≡ message_id)
        × (m.account_id ≡ account_id)
        × (any
              (λ (a : MailAccount). text_eq a.id m.account_id && text_eq a.user_id user_id)
              db.accounts
            ≡ true)
        × (raw_object_key_for user_id account_id message_id db ≡ ok m.raw_object_key)
  unfolding get_for_account raw_object_key_for
  get_for_account-owner user_id account_id message_id db detail done =
      elim (Option-cases (find_owned user_id account_id message_id db)) [
        | inl missing ↦ absurd (ground (arith, missing, done))
        | inr (m, found) ↦
            let (there, same, listed, owner) =
              find_owned-owner user_id account_id message_id db m found in
            (m, there, ground (arith, found, done), same, listed, owner, ground (arith, found))
      ]
