-- ===== src/Mail/Accounts/Preview.antt =====
-- `preview` of services/email-ingestion/src/accounts/accounts.service.ts: the profile, the first page and
-- the first message of a mailbox. The adapters, the token endpoint and the encryption are parameters.
use finlytic_ecosystem.Prelude.{
  ℕ, ◌≡◌, ◌∷◌, arith, inl, inr, Option-cases, find-some-holds, Bool, true, false, ◌&&◌, Option,
  none, some, List, [], length, take, find,
}
use finlytic_ecosystem.Prelude.Text.{Text, codes, text_eq, text_eq_iff}
use finlytic_ecosystem.Prelude.Effects.{Result, ok, err, Eff, pure, throw, ◌>>=◌}
use finlytic_ecosystem.Mail.Store.{MailProvider, MailAccount, Db, Error}
use finlytic_ecosystem.Mail.Ingestion.{RawMessage}
use finlytic_ecosystem.Mail.Providers.{ProviderProfile, MessageListPage}
use finlytic_ecosystem.Mail.AccountToken.{Tokens, ProviderConnection, get_connection}
use finlytic_ecosystem.Mail.Sync.{truthy}
use finlytic_ecosystem.Mail.Accounts.{HttpException, not_found, of_provider}

-- The operations of an adapter that read a mailbox.
pub record MailProviderAdapter : Type 0 where
  pub get_profile : ProviderConnection → Result Error ProviderProfile
  pub list_message_ids : ProviderConnection → Option Text → ℕ → Result Error MessageListPage
  pub fetch_raw_message : ProviderConnection → Text → Result Error (Option RawMessage)

pub record FirstMessage : Type 0 where
  pub id : Text
  pub sent_at : Option ℕ
  pub labels : List Text
  pub size_bytes : Option ℕ
  pub raw_bytes : ℕ
  pub header_preview : Text

pub record AccountPreview : Type 0 where
  pub email_address : Text
  pub cursor : Text
  pub ids_returned : ℕ
  pub has_more_pages : Bool
  pub first_message : Option FirstMessage

module _ {A : Type 0} where
  abbrev of_error : Result Error A → Result HttpException A
  of_error (ok a) = ok a
  of_error (err e) = err (of_provider e)

  abbrev awaited : Eff Db Error A → Eff Db HttpException A
  awaited m db = (of_error (m db).0, (m db).1)

  abbrev asked : Result Error A → Eff Db HttpException A
  asked r db = (of_error r, db)

-- `Boolean` of an optional string: an empty one is falsy.
abbrev is_truthy : Option Text → Bool
is_truthy s = elim (truthy s) [ none ↦ false | some _ ↦ true ]

module _ (t : Tokens) (get : MailProvider → MailProviderAdapter) (to_string : List ℕ → Text) where
  abbrev first_of : RawMessage → FirstMessage
  first_of first = record {
    id = first.provider_message_id;
    sent_at = first.internal_date;
    labels = first.labels;
    size_bytes = first.size_bytes;
    raw_bytes = length first.raw;
    header_preview = to_string (take 300 first.raw);
  }

  abbrev first_or_none : Option RawMessage → Option FirstMessage
  first_or_none none = none
  first_or_none (some first) = some (first_of first)

  abbrev fetch_first :
      MailProviderAdapter → ProviderConnection → List Text → Result Error (Option RawMessage)
  fetch_first adapter connection [] = ok none
  fetch_first adapter connection (id ∷ ids) = adapter.fetch_raw_message connection id

  abbrev preview_of : ProviderProfile → MessageListPage → Option RawMessage → AccountPreview
  preview_of profile page first = record {
    email_address = profile.email_address;
    cursor = profile.cursor;
    ids_returned = length page.message_ids;
    has_more_pages = is_truthy page.next_page_token;
    first_message = first_or_none first;
  }

  abbrev preview_over :
      MailProviderAdapter → ProviderConnection → Eff Db HttpException AccountPreview
  preview_over adapter connection = do
    profile ← asked (adapter.get_profile connection)
    page ← asked (adapter.list_message_ids connection none 5)
    first ← asked (fetch_first adapter connection page.message_ids)
    pure (preview_of profile page first)

  abbrev preview_found : ℕ → Option MailAccount → Eff Db HttpException AccountPreview
  preview_found now none = throw (not_found (codes "Account not found"))
  preview_found now (some account) = do
    connection ← awaited (get_connection t now account)
    preview_over (get account.provider) connection

  unfoldable pub preview : ℕ → Text → Text → Eff Db HttpException AccountPreview
  preview now user_id account_id db =
      preview_found now
        (find (λ (a : MailAccount). text_eq a.id account_id && text_eq a.user_id user_id)
          db.accounts)
        db

  -- A preview that is given is of an account of the caller's with the id that was asked for.
  pub preview-owner :
      (now : ℕ) (user_id account_id : Text) (db : Db) (p : AccountPreview)
      → (preview now user_id account_id db).0 ≡ ok p
      → (a : MailAccount) × ((preview_found now (some a) db).0 ≡ ok p)
        × (a.id ≡ account_id)
        × (a.user_id ≡ user_id)
  unfolding preview
  preview-owner now user_id account_id db p done =
      let is_asked = λ (a : MailAccount). text_eq a.id account_id && text_eq a.user_id user_id in
      elim (Option-cases (find is_asked db.accounts)) [
        | inl missing ↦ absurd (ground (arith, missing, done))
        | inr (a, found) ↦
            let holds = find-some-holds is_asked db.accounts a found in
            (
              a,
              (rw found at done),
              (text_eq_iff a.id account_id).0 (ground (arith, holds)),
              (text_eq_iff a.user_id user_id).0 (ground (arith, holds)),
            )
      ]
