-- ===== src/Mail/Ingestion/Stored.antt =====
-- What services/email-ingestion/src/messages/message-ingestion.service.ts keeps: a row has its object,
-- a message has one row, and a second ingest does nothing.
use finlytic_ecosystem.Prelude.{
  ℕ, ◌≤◌, ◌≡◌, refl, true, false, Option, none, some, List, [], ◌∷◌, arith, any, count, All,
  Bool-cases, Option-cases, inl, inr, ◌⊎◌, ap,
}
use finlytic_ecosystem.Prelude.Text.{Text, codes, text_eq, text_eq_refl, text_eq_iff}
use finlytic_ecosystem.Prelude.Effects.{Result, ok, err, bind-eq-ok, bind_keeps, ◌>>=◌, pure}
use finlytic_ecosystem.Prelude.Split.{trim}
use finlytic_ecosystem.Mail.Ingestion.Later.{IsLater, IsLater-refl, ingest-IsLater}
use mathlib.Core.Option
use mathlib.Core.Path.{subst}
use finlytic_ecosystem.Mail.Store.{
  MailAccount, Message, Object, Db, Error, is_row, has_key, insert_message,
}
use finlytic_ecosystem.Mail.Ingestion.{
  RawMessage, ParsedMail, IngestResult, Platform, put, put_body, insert_or_raced, store_parsed,
  store_if_parsed, ingest, created_of, build_raw_key, build_body_key, row_of, truthy, sent_at_of,
}

abbrev IsBacked : List Object → Message → Type 0
IsBacked objects m = has_key m.raw_object_key objects ≡ true

-- Every row points to an object that is there, and no two rows are of one message.
pub record IsStored (db : Db) : Type 0 where
  pub backed : All (λ (m : Message). has_key m.raw_object_key db.objects ≡ true) db.messages
  pub one_row : (a i : Text) → count (is_row a i) db.messages ≤ 1

All-grow :
    (o : Object) (objects : List Object) (ms : List Message)
    → All (λ (m : Message). has_key m.raw_object_key objects ≡ true) ms
    → All (λ (m : Message). has_key m.raw_object_key (o ∷ objects) ≡ true) ms
All-grow o objects [] h = tt
All-grow o objects (m ∷ ms) (h, hs) = (ground (arith, h), All-grow o objects ms hs)

count-zero_of_none :
    (a i : Text) (ms : List Message) → any (is_row a i) ms ≡ false → count (is_row a i) ms ≡ 0
count-zero_of_none a i [] h = refl
count-zero_of_none a i (m ∷ ms) h = ground (arith, count-zero_of_none a i ms)

module _ (p : Platform) where
  put-IsStored :
      (key : Text) (body : List ℕ) (t : Text) (db : Db)
      → IsStored db
      → IsStored (put p key body t db).1
  unfolding put
  put-IsStored key body t db s = elim (Option-cases (p.put_failure key)) [
    | inr (e, fails) ↦ rw fails s
    | inl fine ↦ rw fine (record {
      backed =
          All-grow (record { key = key; body = body; content_type = t }) db.objects db.messages
            s.backed;
      one_row = s.one_row;
    })
  ]

  put-has_key :
      (key : Text) (body : List ℕ) (t : Text) (db db' : Db)
      → put p key body t db ≡ (ok tt, db')
      → has_key key db'.objects ≡ true
  unfolding put
  put-has_key key body t db db' done = elim (Option-cases (p.put_failure key)) [
    | inr (e, fails) ↦ absurd (ground (arith, fails, done))
    | inl fine ↦ ground (arith, fine, done, text_eq_refl key)
  ]

  put-keeps_key :
      (k key : Text) (body : List ℕ) (t : Text) (db : Db)
      → has_key k db.objects ≡ true
      → has_key k (put p key body t db).1.objects ≡ true
  unfolding put
  put-keeps_key k key body t db h = elim (Option-cases (p.put_failure key)) [
    | inr (e, fails) ↦ rw fails h
    | inl fine ↦ rw fine (ground (arith, h))
  ]

  put_body-IsStored :
      (key : Text) (o : Option Text) (db : Db) → IsStored db → IsStored (put_body p key o db).1
  unfolding put_body
  put_body-IsStored key none db s = s
  put_body-IsStored key (some t) db s =
      bind_keeps IsStored (put p key (p.utf8 t) (codes "text/plain; charset=utf-8"))
        (λ _. pure (some key)) db
        (put-IsStored key (p.utf8 t) (codes "text/plain; charset=utf-8") db s) (λ a t' k. k)

  put_body-keeps_key :
      (k key : Text) (o : Option Text) (db : Db)
      → has_key k db.objects ≡ true
      → has_key k (put_body p key o db).1.objects ≡ true
  unfolding put_body
  put_body-keeps_key k key none db h = h
  put_body-keeps_key k key (some t) db h =
      bind_keeps (λ (d : Db). has_key k d.objects ≡ true)
        (put p key (p.utf8 t) (codes "text/plain; charset=utf-8")) (λ _. pure (some key)) db
        (put-keeps_key k key (p.utf8 t) (codes "text/plain; charset=utf-8") db h) (λ a t' i. i)

  insert-IsStored :
      (m : Message) (db : Db)
      → has_key m.raw_object_key db.objects ≡ true
      → IsStored db
      → IsStored (insert_or_raced p m db).1
  unfolding insert_or_raced insert_message
  insert-IsStored m db h s =
      elim (Bool-cases (any (is_row m.account_id m.provider_message_id) db.messages)) [
        | inl there ↦ rw there s
        | inr new ↦
            elim (Bool-cases (any (λ (a : MailAccount). text_eq a.id m.account_id) db.accounts)) [
              | inl listed ↦
                  rw (new, listed)
                    (record {
                      backed = (h, s.backed);
                      one_row = λ a i. ground (
                        arith,
                        s.one_row a i,
                        text_eq_iff m.account_id a,
                        text_eq_iff m.provider_message_id i,
                        count-zero_of_none m.account_id m.provider_message_id db.messages new,
                      );
                    })
              | inr missing ↦ rw (new, missing) s
            ]
      ]

  abbrev IsReady : Text → Db → Type 0
  IsReady key d = IsStored d × (has_key key d.objects ≡ true)

  insert-IsReady :
      (m : Message) (db : Db)
      → IsReady m.raw_object_key db
      → IsReady m.raw_object_key (insert_or_raced p m db).1
  unfolding insert_or_raced insert_message
  insert-IsReady m db (s, h) = (insert-IsStored m db h s, ground (arith, h))

  body_then_insert-IsReady :
      (key body_key : Text) (body : Option Text) (row : Option Text → Message) (db : Db)
      → ((o : Option Text) → (row o).raw_object_key ≡ key)
      → IsReady key db
      → IsReady key ((put_body p body_key body >>= λ o. insert_or_raced p (row o)) db).1
  body_then_insert-IsReady key body_key body row db same (s, h) =
      bind_keeps (IsReady key) (put_body p body_key body) (λ o. insert_or_raced p (row o)) db
        (put_body-IsStored body_key body db s, put_body-keeps_key key body_key body db h)
        (λ o d ready.
          subst (λ k. IsReady k d → IsReady k (insert_or_raced p (row o) d).1) (same o)
            (insert-IsReady (row o) d) ready)

  store_parsed-IsStored :
      (account_id : Text) (raw : RawMessage) (sent_at : ℕ) (parsed : ParsedMail) (db : Db)
      → IsStored db
      → IsStored (store_parsed p account_id raw sent_at parsed db).1
  unfolding store_parsed put
  store_parsed-IsStored account_id raw sent_at parsed db s =
      let key = build_raw_key p account_id sent_at raw.provider_message_id in
      elim (Option-cases (p.put_failure key)) [
        | inr (e, fails) ↦ rw fails s
        | inl fine ↦
            rw fine
              (body_then_insert-IsReady key
                (build_body_key p account_id sent_at raw.provider_message_id)
                (truthy (Option.map trim parsed.text))
                (λ o. row_of p account_id sent_at raw parsed key o)
                (record db {
                  objects =
                      record { key = key; body = raw.raw; content_type = codes "message/rfc822" }
                      ∷ db.objects;
                })
                (λ o. refl)
                (
                  record {
                    backed =
                        All-grow
                          (record {
                            key = key;
                            body = raw.raw;
                            content_type = codes "message/rfc822";
                          })
                          db.objects db.messages s.backed;
                    one_row = s.one_row;
                  },
                  ground (arith, text_eq_refl key),
                )).0
      ]

  pub ingest_keeps-IsStored :
      (now : ℕ) (account_id : Text) (raw : RawMessage) (db : Db)
      → IsStored db
      → IsStored (ingest p now account_id raw db).1
  unfolding ingest store_if_parsed
  ingest_keeps-IsStored now account_id raw db s =
      elim (Bool-cases (any (is_row account_id raw.provider_message_id) db.messages)) [
        | inl there ↦ rw there s
        | inr new ↦ rw new (go (p.simple_parser raw.raw))
      ]
    where
      go : (r : Result Error ParsedMail) → IsStored (store_if_parsed p now account_id raw r db).1
      go (err e) = s
      go (ok parsed) =
          store_parsed-IsStored account_id raw (sent_at_of p now parsed raw) parsed db s

  insert_or_raced-is_row :
      (m : Message) (db db' : Db) (r : IngestResult)
      → insert_or_raced p m db ≡ (ok r, db')
      → any (is_row m.account_id m.provider_message_id) db'.messages ≡ true
  unfolding insert_or_raced insert_message text_eq
  insert_or_raced-is_row m db db' r done =
      elim (Bool-cases (any (is_row m.account_id m.provider_message_id) db.messages)) [
        | inl there ↦ ground (arith, there, done)
        | inr new ↦
            ground (arith, new, done, text_eq_refl m.account_id, text_eq_refl m.provider_message_id)
      ]

  store_parsed-is_row :
      (account_id : Text) (raw : RawMessage) (sent_at : ℕ) (parsed : ParsedMail) (db db' : Db)
      (r : IngestResult)
      → store_parsed p account_id raw sent_at parsed db ≡ (ok r, db')
      → any (is_row account_id raw.provider_message_id) db'.messages ≡ true
  unfolding store_parsed
  store_parsed-is_row account_id raw sent_at parsed db db' r done =
      let key = build_raw_key p account_id sent_at raw.provider_message_id in
      let (u, d, put_done, then_done) =
        bind-eq-ok (put p key raw.raw (codes "message/rfc822")) _ done in
      let (o, d', body_done, insert_done) =
        bind-eq-ok
          (put_body p (build_body_key p account_id sent_at raw.provider_message_id)
            (truthy (Option.map trim parsed.text)))
          (λ o. insert_or_raced p (row_of p account_id sent_at raw parsed key o)) then_done in
      insert_or_raced-is_row (row_of p account_id sent_at raw parsed key o) d' db' r insert_done

  -- An ingest that succeeds leaves a row of the message, also where another worker was first.
  pub ingest-is_row :
      (now : ℕ) (account_id : Text) (raw : RawMessage) (db db' : Db) (r : IngestResult)
      → ingest p now account_id raw db ≡ (ok r, db')
      → any (is_row account_id raw.provider_message_id) db'.messages ≡ true
  unfolding ingest store_if_parsed
  ingest-is_row now account_id raw db db' r done =
      elim (Bool-cases (any (is_row account_id raw.provider_message_id) db.messages)) [
        | inl there ↦ ground (arith, there, done)
        | inr new ↦ go (p.simple_parser raw.raw) (rw new at done)
      ]
    where
      go :
          (x : Result Error ParsedMail)
          → store_if_parsed p now account_id raw x db ≡ (ok r, db')
          → any (is_row account_id raw.provider_message_id) db'.messages ≡ true
      go (err e) h = cc
      go (ok parsed) h =
          store_parsed-is_row account_id raw (sent_at_of p now parsed raw) parsed db db' r h

Result-cases : {E A : Type 0} (r : Result E A) → ((e : E) × (r ≡ err e)) ⊎ ((a : A) × (r ≡ ok a))
Result-cases (err e) = inl (e, refl)
Result-cases (ok a) = inr (a, refl)

-- From a database where each row has its object and a message has at most one row, an ingest gives such a
-- database, on every branch: it fails, or the message that it was given has a row. It removes no row, and
-- changes no account.
pub ingest-IsStored :
    (p : Platform) (now : ℕ) (account_id : Text) (raw : RawMessage) (db : Db)
    → IsStored db
    → IsStored (ingest p now account_id raw db).1
      × IsLater db (ingest p now account_id raw db).1
      × (((e : Error) × ((ingest p now account_id raw db).0 ≡ err e))
          ⊎ (any
                (is_row account_id raw.provider_message_id)
                (ingest p now account_id raw db).1.messages
              ≡ true))
ingest-IsStored p now account_id raw db s = (
  ingest_keeps-IsStored p now account_id raw db s,
  ingest-IsLater p now db account_id raw db (IsLater-refl db),
  elim (Result-cases (ingest p now account_id raw db).0) [
    | inl failed ↦ inl failed
    | inr (r, done) ↦ inr (
        ingest-is_row p now account_id raw db (ingest p now account_id raw db).1 r
          (ap (λ x. (x, (ingest p now account_id raw db).1)) done))
  ],
)

-- Once an ingest has succeeded, another of the same message, at any time, creates nothing and changes
-- nothing.
pub ingest_again :
    (p : Platform) (now later : ℕ) (account_id : Text) (raw : RawMessage) (db db' : Db)
    (r : IngestResult)
    → ingest p now account_id raw db ≡ (ok r, db')
    → ingest p later account_id raw db' ≡ (ok (created_of raw.provider_message_id false), db')
unfolding ingest
ingest_again p now later account_id raw db db' r done =
    rw (ingest-is_row p now account_id raw db db' r done) refl
