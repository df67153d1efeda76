-- ===== src/Mail/Sync/Loop.antt =====
-- The loop of services/email-ingestion/src/sync/mail-sync.service.ts over the messages of a run:
-- what it keeps, and that it leaves none out.
use finlytic_ecosystem.Prelude.{
  ℕ, ◌≡◌, refl, sym, true, not, Option, none, some, List, [], ◌∷◌, map, arith, any, filter, All,
  Bool-cases, inl, inr, ◌⊎◌,
}
use finlytic_ecosystem.Prelude.Text.{Text, text_eq_iff}
use finlytic_ecosystem.Prelude.Effects.{Result, ok, err, Eff, bind-eq-ok, bind_keeps}
use finlytic_ecosystem.Mail.Store.{Message, Db, Error, is_row}
use finlytic_ecosystem.Mail.Ingestion.{Platform, RawMessage, ingest}
use finlytic_ecosystem.Mail.Ingestion.Later.{IsLater, IsLater-refl, later-is_row, ingest-IsLater}
use finlytic_ecosystem.Mail.Ingestion.Stored.{IsStored, ingest_keeps-IsStored, ingest-is_row}
use finlytic_ecosystem.Mail.Sync.{
  Adapter, Counts, fetch_one, fetch_each, ingest_all, known_ids, has_id, of_account,
}

-- The adapter gives the message that is asked for.
abbrev pub IsFaithful : Adapter → Type 0
IsFaithful adapter =
    (id : Text) (raw : RawMessage)
    → adapter.fetch_raw_message id ≡ ok (some raw)
    → raw.provider_message_id ≡ id

-- A message has a row, or the provider no longer has it.
abbrev pub IsAccounted : Adapter → Text → Db → Text → Type 0
IsAccounted adapter account_id db id =
    (any (is_row account_id id) db.messages ≡ true) ⊎ (adapter.fetch_raw_message id ≡ ok none)

module _ (p : Platform) (now : ℕ) (adapter : Adapter) (account_id : Text) where
  -- What an ingest and all that follows it keep, a round of the loop keeps.
  fetch_one_keeps :
      (P : Db → Type 0) (counts : Counts) (rest : Counts → Eff Db Error Counts)
      (r : Result Error (Option RawMessage)) (d : Db)
      → ((raw : RawMessage) (e : Db) → P e → P (ingest p now account_id raw e).1)
      → ((c : Counts) (e : Db) → P e → P (rest c e).1)
      → P d
      → P (fetch_one p now adapter account_id counts rest r d).1
  fetch_one_keeps P counts rest (err e) d one others h = h
  fetch_one_keeps P counts rest (ok none) d one others h = others _ d h
  fetch_one_keeps P counts rest (ok (some raw)) d one others h =
      bind_keeps P (ingest p now account_id raw) _ d (one raw d h) (λ r e k. others _ e k)

  fetch_each-IsLater :
      (db : Db) (ids : List Text) (counts : Counts) (d : Db)
      → IsLater db d
      → IsLater db (fetch_each p now adapter account_id ids counts d).1
  unfolding fetch_each
  fetch_each-IsLater db [] counts d l = l
  fetch_each-IsLater db (id ∷ ids) counts d l =
      fetch_one_keeps (IsLater db) counts (fetch_each p now adapter account_id ids)
        (adapter.fetch_raw_message id) d (λ raw e k. ingest-IsLater p now db account_id raw e k)
        (λ c e k. fetch_each-IsLater db ids c e k) l

  fetch_each_ok :
      (ids : List Text) (counts c : Counts) (d d' : Db)
      → fetch_each p now adapter account_id ids counts d ≡ (ok c, d')
      → IsLater d d'
  fetch_each_ok ids counts c d d' done =
      let later = fetch_each-IsLater d ids counts d (IsLater-refl d) in rw done at later

  fetch_each-IsStored :
      (ids : List Text) (counts : Counts) (d : Db)
      → IsStored d
      → IsStored (fetch_each p now adapter account_id ids counts d).1
  unfolding fetch_each
  fetch_each-IsStored [] counts d s = s
  fetch_each-IsStored (id ∷ ids) counts d s =
      fetch_one_keeps IsStored counts (fetch_each p now adapter account_id ids)
        (adapter.fetch_raw_message id) d (λ raw e k. ingest_keeps-IsStored p now account_id raw e k)
        (λ c e k. fetch_each-IsStored ids c e k) s

  fetch_one-IsAccounted :
      (id : Text) (ids : List Text) (counts c : Counts) (d d' : Db)
      (r : Result Error (Option RawMessage))
      → IsFaithful adapter
      → adapter.fetch_raw_message id ≡ r
      → fetch_one p now adapter account_id counts (fetch_each p now adapter account_id ids) r d
        ≡ (ok c, d')
      → ((k : Counts) (e : Db)
          → fetch_each p now adapter account_id ids k e ≡ (ok c, d')
          → All (IsAccounted adapter account_id d') ids)
      → All (IsAccounted adapter account_id d') (id ∷ ids)
  fetch_one-IsAccounted id ids counts c d d' (err e) f same h others = absurd (cc)
  fetch_one-IsAccounted id ids counts c d d' (ok none) f same h others = (inr same, others _ d h)
  fetch_one-IsAccounted id ids counts c d d' (ok (some raw)) f same h others =
      let (r, e, ingested, rest) = bind-eq-ok (ingest p now account_id raw) _ h in
      let there : any (is_row account_id id) e.messages ≡ true =
        rw (sym (f id raw same)) (ingest-is_row p now account_id raw d e r ingested) in
      let later = fetch_each_ok ids _ c e d' rest in
      (inl (later-is_row e d' account_id id later there), others _ e rest)

  fetch_each-IsAccounted :
      (ids : List Text) (counts c : Counts) (d d' : Db)
      → IsFaithful adapter
      → fetch_each p now adapter account_id ids counts d ≡ (ok c, d')
      → All (IsAccounted adapter account_id d') ids
  unfolding fetch_each
  fetch_each-IsAccounted [] counts c d d' f done = tt
  fetch_each-IsAccounted (id ∷ ids) counts c d d' f done =
      fetch_one-IsAccounted id ids counts c d d' (adapter.fetch_raw_message id) f refl done
        (λ k e h. fetch_each-IsAccounted ids k c e d' f h)

  -- Ids that are known have rows, and rows stay.
  known-is_row :
      (ids : List Text) (ms : List Message) (id : Text)
      → has_id id
          (map (λ (m : Message). m.provider_message_id) (filter (of_account account_id ids) ms))
        ≡ true
      → any (is_row account_id id) ms ≡ true
  known-is_row ids [] id h = cc
  known-is_row ids (m ∷ ms) id h = ground (
    arith,
    known-is_row ids ms id,
    text_eq_iff m.provider_message_id id,
    text_eq_iff id m.provider_message_id,
  )

  All-to_fetch :
      (known : List Text) (P : Text → Type 0) (ids : List Text)
      → ((id : Text) → has_id id known ≡ true → P id)
      → All P (filter (λ id. not (has_id id known)) ids)
      → All P ids
  All-to_fetch known P [] h k = tt
  All-to_fetch known P (id ∷ ids) h k = elim (Bool-cases (has_id id known)) [
    | inl there ↦ (h id there, All-to_fetch known P ids h (rw there at k))
    | inr new ↦
        let both : P id × All P (filter (λ id. not (has_id id known)) ids) = rw new at k in
        (both.0, All-to_fetch known P ids h both.1)
  ]

  -- A run over a list of ids that succeeds leaves none of them out: each has a row, or the provider no
  -- longer has it.
  pub ingest_all-IsAccounted :
      (ids : List Text) (c : Counts) (d d' : Db)
      → IsFaithful adapter
      → ingest_all p now adapter account_id ids d ≡ (ok c, d')
      → All (IsAccounted adapter account_id d') ids
  unfolding ingest_all
  ingest_all-IsAccounted ids c d d' f done =
      All-to_fetch (known_ids p now adapter account_id ids d) (IsAccounted adapter account_id d')
        ids
        (λ id there. inl (
          later-is_row d d' account_id id (fetch_each_ok _ _ c d d' done)
            (known-is_row ids d.messages id there)))
        (fetch_each-IsAccounted _ _ c d d' f done)

  pub ingest_all-IsLater :
      (ids : List Text) (d : Db) → IsLater d (ingest_all p now adapter account_id ids d).1
  unfolding ingest_all
  ingest_all-IsLater ids d = fetch_each-IsLater d _ _ d (IsLater-refl d)

  pub ingest_all-IsStored :
      (ids : List Text) (d : Db)
      → IsStored d
      → IsStored (ingest_all p now adapter account_id ids d).1
  unfolding ingest_all
  ingest_all-IsStored ids d s = fetch_each-IsStored _ _ d s
