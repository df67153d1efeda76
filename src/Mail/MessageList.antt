-- ===== src/Mail/MessageList.antt =====
-- The pages of an account's messages: `listForAccount` of
-- services/email-ingestion/src/messages/messages.service.ts, and `list` of messages.controller.ts. Numbers
-- and dates as text are parameters.
pub mod Walk
use finlytic_ecosystem.Prelude.{
  ℕ, zero, suc, ◌+◌, Bool, true, false, ◌&&◌, ◌||◌, Option, none, some, List, [], ◌∷◌, ◌++◌, map,
  filter, any, take, length, ltb, leb, ◌==◌, min, max, if◌then◌else◌,
}
use finlytic_ecosystem.Prelude.Text.{Text, codes, text_eq}
use finlytic_ecosystem.Prelude.Effects.{Result, ok, err}
use finlytic_ecosystem.Mail.Store.{MailAccount, Message, Db}
use finlytic_ecosystem.Mail.Sync.{truthy}

pub data AccountNotFound : Type 0 where
  account_not_found : AccountNotFound

-- What is selected of a message.
pub record MessageSummary : Type 0 where
  pub id : Text
  pub subject : Option Text
  pub from_address : Option Text
  pub from_name : Option Text
  pub sent_at : Text
  pub snippet : Option Text
  pub has_attachments : Bool
  pub labels : List Text
  pub size_bytes : ℕ

pub record MessagePage : Type 0 where
  pub messages : List MessageSummary
  pub next_cursor : Option Text

-- The order of ids, by their characters.
unfoldable pub text_leb : Text → Text → Bool
text_leb [] t = true
text_leb (a ∷ s) [] = false
text_leb (a ∷ s) (b ∷ t) = ltb a b || a == b && text_leb s t

-- `orderBy: [{ sentAt: 'desc' }, { id: 'desc' }]`
abbrev pub precedes : Message → Message → Bool
precedes m n = ltb n.sent_at m.sent_at || m.sent_at == n.sent_at && text_leb n.id m.id

unfoldable pub insert : Message → List Message → List Message
insert m [] = m ∷ []
insert m (n ∷ ns) = let rest = insert m ns in if precedes m n then m ∷ n ∷ ns else n ∷ rest

unfoldable pub newest_first : List Message → List Message
newest_first [] = []
newest_first (m ∷ ms) = insert m (newest_first ms)

-- `cursor: { id }, skip: 1`: what comes behind the row of the id; nothing, where no row has it.
unfoldable pub after : Text → List Message → List Message
after id [] = []
after id (m ∷ ms) = let rest = after id ms in if text_eq m.id id then ms else rest

abbrev from_cursor : Option Text → List Message → List Message
from_cursor none ms = ms
from_cursor (some id) ms = after id ms

-- The rows of an account in their order.
abbrev pub rows_of : Text → Db → List Message
rows_of account_id db =
    newest_first (filter (λ (m : Message). text_eq m.account_id account_id) db.messages)

-- `page.at(-1)?.id ?? null`
abbrev pub last_id : List Message → Option Text
last_id [] = none
last_id (m ∷ []) = some m.id
last_id (m ∷ n ∷ ms) = last_id (n ∷ ms)

abbrev pub owns : Text → Text → Db → Bool
owns user_id account_id db =
    any (λ (a : MailAccount). text_eq a.id account_id && text_eq a.user_id user_id) db.accounts

module _ (to_iso_string : ℕ → Text) where
  abbrev pub summary_of : Message → MessageSummary
  summary_of m = record {
    id = m.id;
    subject = m.subject;
    from_address = m.from_address;
    from_name = m.from_name;
    sent_at = to_iso_string m.sent_at;
    snippet = m.snippet;
    has_attachments = m.has_attachments;
    labels = m.labels;
    size_bytes = m.size_bytes;
  }

  -- One row more than the page is read.
  unfoldable pub page_of : ℕ → List Message → MessagePage
  page_of limit behind =
      let rows = take (limit + 1) behind in
      record {
        messages = map summary_of (take limit rows);
        next_cursor = if ltb limit (length rows) then last_id (take limit rows) else none;
      }

  unfoldable pub list_for_account :
      Text → Text → Option Text → ℕ → Db → Result AccountNotFound MessagePage
  list_for_account user_id account_id cursor limit db =
      if owns user_id account_id db
      then ok (page_of limit (from_cursor (truthy cursor) (rows_of account_id db)))
      else err account_not_found

-- What `Number` makes of a text; a fraction is left out.
pub data Number : Type 0 where
  not_a_number negative : Number
  natural : ℕ → Number

-- `Number(limit) || 25`, kept between 1 and 100.
unfoldable pub limit_of : Option Number → ℕ
limit_of none = 25
limit_of (some not_a_number) = 25
limit_of (some negative) = 1
limit_of (some (natural n)) = if n == 0 then 25 else min (max n 1) 100

-- `list` of the controller.
unfoldable pub list :
    (ℕ → Text) → Text → Text → Option Text → Option Number → Db → Result AccountNotFound MessagePage
list to_iso_string user_id account_id cursor limit =
    list_for_account to_iso_string user_id account_id cursor (limit_of limit)
