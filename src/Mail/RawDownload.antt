-- ===== src/Mail/RawDownload.antt =====
-- The original of a message: `raw` of services/email-ingestion/src/messages/messages.controller.ts, over
-- rawObjectKeyFor. The store is a parameter: a stream has the bytes of its object, and may break.
use finlytic_ecosystem.Prelude.{
  ℕ, suc, ◌≡◌, refl, sym, ap, ◌∙◌, Bool, true, false, ◌&&◌, Option, none, some, List, ◌++◌, any,
  take, is_some, Memᴰ, arith, Option-cases, Bool-cases, ◌⊎◌, inl, inr,
}
use finlytic_ecosystem.Prelude.Text.{Text, codes, text_eq}
use finlytic_ecosystem.Prelude.Effects.{Result, ok, err}
use finlytic_ecosystem.Mail.Store.{MailAccount, Message, Db}
use finlytic_ecosystem.Mail.Messages.{NotFound, raw_object_key_for, find_owned, find_owned-owner}

pub record ObjectStream : Type 0 where
  pub content_length : Option ℕ
  pub body : List ℕ
  -- The number of bytes after which the stream breaks.
  pub breaks_after : Option ℕ

pub data StorageError : Type 0 where
  no_such_key unavailable : StorageError

-- What is thrown before the status line, with its message.
pub data RawError : Type 0 where
  not_found service_unavailable : Text → RawError

pub record RawResponse : Type 0 where
  pub content_type : Text
  pub content_disposition : Text
  pub content_length : Option ℕ
  pub sent : List ℕ
  -- The socket was dropped.
  pub is_destroyed : Bool

abbrev truthy : Option ℕ → Option ℕ
truthy (some (suc n)) = some (suc n)
truthy _ = none

abbrev sent_of : Option ℕ → List ℕ → List ℕ
sent_of none body = body
sent_of (some n) body = take n body

-- The headers, and the pipeline.
abbrev started : Text → ObjectStream → RawResponse
started message_id object = record {
  content_type = codes "message/rfc822";
  content_disposition = codes "attachment; filename=\"message-" ++ message_id ++ codes ".eml\"";
  content_length = truthy object.content_length;
  sent = sent_of object.breaks_after object.body;
  is_destroyed = is_some object.breaks_after;
}

abbrev opened : Text → Result StorageError ObjectStream → Result RawError RawResponse
opened message_id (ok object) = ok (started message_id object)
opened message_id (err no_such_key) = err (not_found (codes "Original message is no longer stored"))
opened message_id (err unavailable) =
    err (service_unavailable (codes "Message storage is unavailable"))

sent_of-whole : (o : Option ℕ) (body : List ℕ) → is_some o ≡ false → sent_of o body ≡ body
sent_of-whole none body h = refl
sent_of-whole (some n) body h = absurd (cc)

module _ (get_stream : Text → Result StorageError ObjectStream) where
  abbrev streamed : Text → Result NotFound Text → Result RawError RawResponse
  streamed message_id (err e) = err (not_found (codes "Message not found"))
  streamed message_id (ok key) = opened message_id (get_stream key)

  unfoldable pub raw : Text → Text → Text → Db → Result RawError RawResponse
  raw user_id account_id message_id db =
      streamed message_id (raw_object_key_for user_id account_id message_id db)

  opened-sent :
      (message_id : Text) (r : Result StorageError ObjectStream) (response : RawResponse)
      → opened message_id r ≡ ok response
      → (object : ObjectStream) × (r ≡ ok object)
        × ((response.is_destroyed ≡ true) ⊎ (response.sent ≡ object.body))
  opened-sent message_id (err no_such_key) response h = absurd (cc)
  opened-sent message_id (err unavailable) response h = absurd (cc)
  opened-sent message_id (ok object) response h =
      let same : started message_id object ≡ response = cc in
      (
        object,
        refl,
        elim (Bool-cases (is_some object.breaks_after)) [
          | inl broken ↦ inl (ap (λ (x : RawResponse). x.is_destroyed) (sym same) ∙ broken)
          | inr whole ↦ inr (
              ap (λ (x : RawResponse). x.sent) (sym same)
              ∙ sent_of-whole object.breaks_after object.body whole)
        ],
      )

  -- A download is of a row of the table that has the id of the path and is of the account of the path, and
  -- the caller owns an account with that id; it is broken off, or it is the whole object that is stored
  -- for that row.
  pub raw-owner :
      (user_id account_id message_id : Text) (db : Db) (response : RawResponse)
      → raw user_id account_id message_id db ≡ ok response
      → (m : Message) × Memᴰ m db.messages
        × (m.id ≡ message_id)
        × (m.account_id ≡ account_id)
        × (any
              (λ (a : MailAccount). text_eq a.id m.account_id && text_eq a.user_id user_id)
              db.accounts
            ≡ true)
        × ((object : ObjectStream) × (get_stream m.raw_object_key ≡ ok object)
            × ((response.is_destroyed ≡ true) ⊎ (response.sent ≡ object.body)))
  unfolding raw raw_object_key_for
  raw-owner user_id account_id message_id db response done =
      elim (Option-cases (find_owned user_id account_id message_id db)) [
        | inl missing ↦ absurd (ground (arith, missing, done))
        | inr (m, found) ↦
            let (there, same, listed, owner) =
              find_owned-owner user_id account_id message_id db m found in
            (
              m,
              there,
              same,
              listed,
              owner,
              opened-sent message_id (get_stream m.raw_object_key) response (rw found at done),
            )
      ]
