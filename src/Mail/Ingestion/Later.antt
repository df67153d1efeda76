-- ===== src/Mail/Ingestion/Later.antt =====
-- What services/email-ingestion/src/messages/message-ingestion.service.ts leaves alone.
use finlytic_ecosystem.Prelude.{
  ℕ, ◌≡◌, refl, ap, ◌∙◌, true, Option, none, some, List, [], ◌∷◌, ◌++◌, any, any-append_right,
  Bool-cases, Option-cases, inl, inr,
}
use finlytic_ecosystem.Prelude.Text.{Text, text_eq}
use finlytic_ecosystem.Prelude.Effects.{Result, ok, err, bind_keeps, pure}
use finlytic_ecosystem.Mail.Store.{MailAccount, Message, Db, Error, is_row, insert_message}
use finlytic_ecosystem.Mail.Ingestion.{
  Platform, RawMessage, ingest, store_if_parsed, store_parsed, insert_or_raced, put, put_body,
}

-- The rows that a table has more than another had.
abbrev pub IsGrown : List Message → List Message → Type 0
IsGrown before after = (new : List Message) × (after ≡ new ++ before)

-- No account has changed, and messages have only been added.
abbrev pub IsLater : Db → Db → Type 0
IsLater db d = (d.accounts ≡ db.accounts) × IsGrown db.messages d.messages

pub IsLater-refl : (db : Db) → IsLater db db
IsLater-refl db = (refl, ([], refl))

pub later-is_row :
    (db d : Db) (a i : Text)
    → IsLater db d
    → any (is_row a i) db.messages ≡ true
    → any (is_row a i) d.messages ≡ true
later-is_row db d a i (same, (new, grown)) h =
    ap (any (is_row a i)) grown ∙ any-append_right (is_row a i) new db.messages h

module _ (p : Platform) (now : ℕ) where
  put-IsLater :
      (db : Db) (key : Text) (body : List ℕ) (t : Text) (d : Db)
      → IsLater db d
      → IsLater db (put p key body t d).1
  unfolding put
  put-IsLater db key body t d l = elim (Option-cases (p.put_failure key)) [
    | inr (e, fails) ↦ rw fails l
    | inl fine ↦ rw fine l
  ]

  put_body-IsLater :
      (db : Db) (key : Text) (o : Option Text) (d : Db)
      → IsLater db d
      → IsLater db (put_body p key o d).1
  unfolding put_body
  put_body-IsLater db key none d l = l
  put_body-IsLater db key (some t) d l =
      bind_keeps (IsLater db) (put p key (p.utf8 t) _) (λ _. pure (some key)) d
        (put-IsLater db key (p.utf8 t) _ d l) (λ a e k. k)

  insert-IsLater :
      (db : Db) (m : Message) (d : Db) → IsLater db d → IsLater db (insert_or_raced p m d).1
  unfolding insert_or_raced insert_message
  insert-IsLater db m d (same, (new, grown)) =
      elim (Bool-cases (any (is_row m.account_id m.provider_message_id) d.messages)) [
        | inl there ↦ rw there (same, (new, grown))
        | inr free ↦
            elim (Bool-cases (any (λ (a : MailAccount). text_eq a.id m.account_id) d.accounts)) [
              | inl listed ↦ rw (free, listed) (same, (m ∷ new, ap (λ ms. m ∷ ms) grown))
              | inr missing ↦ rw (free, missing) (same, (new, grown))
            ]
      ]

  pub ingest-IsLater :
      (db : Db) (account_id : Text) (raw : RawMessage) (d : Db)
      → IsLater db d
      → IsLater db (ingest p now account_id raw d).1
  unfolding ingest store_if_parsed store_parsed
  ingest-IsLater db account_id raw d l =
      elim (Bool-cases (any (is_row account_id raw.provider_message_id) d.messages)) [
        | inl there ↦ rw there l
        | inr new ↦ rw new (go (p.simple_parser raw.raw))
      ]
    where
      go : (r : Result Error _) → IsLater db (store_if_parsed p now account_id raw r d).1
      go (err e) = l
      go (ok parsed) =
          bind_keeps (IsLater db) (put p _ raw.raw _) _ d (put-IsLater db _ raw.raw _ d l) (λ u e k.
            bind_keeps (IsLater db) (put_body p _ _) _ e (put_body-IsLater db _ _ e k)
              (λ o e' k'. insert-IsLater db _ e' k'))
