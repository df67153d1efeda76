-- ===== src/Mail/MessageList/Walk.antt =====
-- Following the cursors of services/email-ingestion/src/messages/messages.service.ts.
use finlytic_ecosystem.Prelude.{
  ℕ, zero, suc, ◌+◌, ◌≤◌, ◌<◌, ◌≡◌, refl, sym, ap, ◌∙◌, Bool, true, false, Option, none, some, List,
  [], ◌∷◌, ◌++◌, map, filter, take, drop, count, count-append, length, length-append, ltb, arith,
  if◌then◌else◌, Bool-cases, inl, inr, append_assoc,
}
use finlytic_ecosystem.Prelude.Text.{Text, text_eq, text_eq_refl}
use finlytic_ecosystem.Prelude.Effects.{Result, ok, err}
use finlytic_ecosystem.Mail.Store.{Message, Db}
use finlytic_ecosystem.Mail.Sync.{truthy}
use finlytic_ecosystem.Mail.MessageList.{
  AccountNotFound, MessageSummary, MessagePage, precedes, insert, newest_first, after, from_cursor,
  rows_of, last_id, owns, summary_of, page_of, list_for_account,
}

abbrev has : Text → Message → Bool
has id m = text_eq m.id id

-- No two rows have the same id.
abbrev IsUnique : List Message → Type 0
IsUnique ms = (id : Text) → count (has id) ms ≤ 1

insert-count :
    (p : Message → Bool) (m : Message) (ms : List Message)
    → count p (insert m ms) ≡ count p (m ∷ ms)
unfolding insert
insert-count p m [] = refl
insert-count p m (n ∷ ns) = elim (Bool-cases (precedes m n)) [
  | inl first ↦ rw first refl
  | inr later ↦ rw later (ground (arith, insert-count p m ns))
]

newest_first-count :
    (p : Message → Bool) (ms : List Message) → count p (newest_first ms) ≡ count p ms
unfolding newest_first
newest_first-count p [] = refl
newest_first-count p (m ∷ ms) =
    insert-count p m (newest_first ms) ∙ ground (arith, newest_first-count p ms)

filter-count_le : (p f : Message → Bool) (ms : List Message) → count p (filter f ms) ≤ count p ms
filter-count_le p f [] = omega arith
filter-count_le p f (m ∷ ms) = ground (arith, filter-count_le p f ms)

-- The cursor at a row is followed by what stands behind the row.
after-append :
    (m : Message) (before behind : List Message)
    → count (has m.id) before ≡ 0
    → after m.id (before ++ m ∷ behind) ≡ behind
unfolding after
after-append m [] behind h = rw (text_eq_refl m.id) refl
after-append m (n ∷ ns) behind h = elim (Bool-cases (text_eq n.id m.id)) [
  | inl same ↦ absurd (ground (arith, same, h))
  | inr other ↦ rw other (after-append m ns behind (ground (arith, other, h)))
]

-- A page that is full ends with a row, whose id is the cursor.
full_page :
    (limit : ℕ) (behind : List Message)
    → limit < length behind
    → (before : List Message) × (m : Message) × (take (suc limit) behind ≡ before ++ m ∷ [])
      × (behind ≡ before ++ m ∷ drop (suc limit) behind)
      × (last_id (take (suc limit) behind) ≡ some m.id)
full_page limit [] h = absurd (omega arith)
full_page zero (m ∷ ms) h = ([], m, refl, refl, refl)
full_page (suc limit) (m ∷ []) h = absurd (omega arith)
full_page (suc limit) (m ∷ n ∷ ms) h =
    let (before, x, taken, whole, last) = full_page limit (n ∷ ms) (omega arith) in
    (m ∷ before, x, ap (λ r. m ∷ r) taken, ap (λ r. m ∷ r) whole, last)

truthy_id : (id : Text) → text_eq id [] ≡ false → truthy (some id) ≡ some id
unfolding text_eq
truthy_id [] h = absurd (cc)
truthy_id (c ∷ s) h = refl

take-take : (n : ℕ) (ms : List Message) → take n (take (suc n) ms) ≡ take n ms
take-take zero ms = refl
take-take (suc n) [] = refl
take-take (suc n) (m ∷ ms) = ap (λ r. m ∷ r) (take-take n ms)

more-take : (n : ℕ) (ms : List Message) → ltb n (length (take (suc n) ms)) ≡ ltb n (length ms)
more-take zero [] = refl
more-take zero (m ∷ ms) = ground arith
more-take (suc n) [] = refl
more-take (suc n) (m ∷ ms) = ground (arith, more-take n ms)

take_all : (n : ℕ) (ms : List Message) → length ms ≤ n → take n ms ≡ ms
take_all zero [] h = refl
take_all zero (m ∷ ms) h = absurd (omega arith)
take_all (suc n) [] h = refl
take_all (suc n) (m ∷ ms) h = ap (λ r. m ∷ r) (take_all n ms (omega arith))

map-append :
    (f : Message → MessageSummary) (xs ys : List Message) → map f (xs ++ ys) ≡ map f xs ++ map f ys
map-append f [] ys = refl
map-append f (x ∷ xs) ys = ap (λ r. f x ∷ r) (map-append f xs ys)

module _ (to_iso_string : ℕ → Text) where
  page_of_lem :
      (limit : ℕ) (behind : List Message)
      → page_of to_iso_string limit behind ≡ record {
        messages = map (summary_of to_iso_string) (take limit behind);
        next_cursor = if ltb limit (length behind) then last_id (take limit behind) else none;
      }
  unfolding page_of
  page_of_lem limit behind =
      let one : limit + 1 ≡ suc limit = omega arith in
      rw (one, take-take limit behind, more-take limit behind) refl

  abbrev and_then :
      List MessageSummary → Option (List MessageSummary) → Option (List MessageSummary)
  and_then ms none = none
  and_then ms (some ns) = some (ms ++ ns)

  abbrev follow :
      (Option Text → Option (List MessageSummary))
      → Result AccountNotFound MessagePage
      → Option (List MessageSummary)
  follow next (err e) = none
  follow next (ok page) = elim page.next_cursor [
    | none ↦ some page.messages
    | some cursor ↦ and_then page.messages (next (some cursor))
  ]

  -- What a client has when it follows the cursors to the end, in at most `n` pages.
  unfoldable pub walk : ℕ → Text → Text → ℕ → Db → Option Text → Option (List MessageSummary)
  walk zero user_id account_id limit db cursor = none
  walk (suc n) user_id account_id limit db cursor =
      follow (walk n user_id account_id limit db)
        (list_for_account to_iso_string user_id account_id cursor limit db)

  module _ (user_id account_id : Text) (limit : ℕ) (db : Db) where
    -- The cursor stands before what is behind it.
    abbrev StandsAt : Option Text → List Message → Type 0
    StandsAt cursor behind =
        (before : List Message) × (rows_of account_id db ≡ before ++ behind)
        × (from_cursor (truthy cursor) (rows_of account_id db) ≡ behind)

    last_page :
        (n : ℕ) (cursor : Option Text) (behind : List Message)
        → owns user_id account_id db ≡ true
        → ltb (suc limit) (length behind) ≡ false
        → StandsAt cursor behind
        → walk (suc n) user_id account_id (suc limit) db cursor
          ≡ some (map (summary_of to_iso_string) behind)
    unfolding walk list_for_account
    last_page n cursor behind mine few (before, whole, here) =
        rw
          (
            mine,
            here,
            page_of_lem (suc limit) behind,
            few,
            take_all (suc limit) behind (ground (arith, few)),
          )
          refl

    next_page :
        (n : ℕ) (cursor : Option Text) (behind rest : List Message) (id : Text)
        → owns user_id account_id db ≡ true
        → ltb (suc limit) (length behind) ≡ true
        → StandsAt cursor behind
        → last_id (take (suc limit) behind) ≡ some id
        → take (suc limit) behind ++ rest ≡ behind
        → walk n user_id account_id (suc limit) db (some id)
          ≡ some (map (summary_of to_iso_string) rest)
        → walk (suc n) user_id account_id (suc limit) db cursor
          ≡ some (map (summary_of to_iso_string) behind)
    unfolding walk list_for_account
    next_page n cursor behind rest id mine more (before, whole, here) last parts later =
        rw (mine, here, page_of_lem (suc limit) behind, more, last, later)
          (ap some (
            sym (map-append (summary_of to_iso_string) (take (suc limit) behind) rest)
            ∙ ap (map (summary_of to_iso_string)) parts))

    stands_behind :
        (m : Message) (before behind : List Message)
        → IsUnique (rows_of account_id db)
        → count (has []) (rows_of account_id db) ≡ 0
        → rows_of account_id db ≡ before ++ m ∷ behind
        → StandsAt (some m.id) behind
    stands_behind m before behind unique named whole =
        let one = unique m.id in
        let zero_before : count (has m.id) before ≡ 0 = ground (
          arith,
          one,
          ap (count (has m.id)) whole,
          count-append (has m.id) before (m ∷ behind),
          text_eq_refl m.id,
        ) in
        let not_empty : text_eq m.id [] ≡ false =
          ground
            (arith, named, ap (count (has [])) whole, count-append (has []) before (m ∷ behind)) in
        (
          before ++ m ∷ [],
          whole ∙ sym (append_assoc before (m ∷ []) behind),
          rw (truthy_id m.id not_empty)
              (ap (after m.id) whole ∙ after-append m before behind zero_before),
        )

    -- Where the rest of the walk starts, behind a full page.
    rest_of :
        (behind : List Message) (cursor : Option Text)
        → IsUnique (rows_of account_id db)
        → count (has []) (rows_of account_id db) ≡ 0
        → StandsAt cursor behind
        → ltb (suc limit) (length behind) ≡ true
        → (id : Text) × (rest : List Message) × StandsAt (some id) rest
          × (last_id (take (suc limit) behind) ≡ some id)
          × (take (suc limit) behind ++ rest ≡ behind)
          × (length rest < length behind)
    rest_of behind cursor unique named (before, whole, here) more =
        let (front, m, taken, parts, last) = full_page limit behind (ground (arith, more)) in
        let rest = drop (suc limit) behind in
        (
          m.id,
          rest,
          stands_behind m (before ++ front) rest unique named
              (whole ∙ ap (λ r. before ++ r) parts ∙ sym (append_assoc before front (m ∷ rest))),
          last,
          ap (λ r. r ++ rest) taken ∙ append_assoc front (m ∷ []) rest ∙ sym parts,
          omega (arith, ap length parts, length-append front (m ∷ rest)),
        )

    walk_from :
        (n : ℕ) (cursor : Option Text) (behind : List Message)
        → owns user_id account_id db ≡ true
        → IsUnique (rows_of account_id db)
        → count (has []) (rows_of account_id db) ≡ 0
        → StandsAt cursor behind
        → length behind ≤ n
        → walk (suc n) user_id account_id (suc limit) db cursor
          ≡ some (map (summary_of to_iso_string) behind)
    walk_from zero cursor behind mine unique named at enough =
        last_page zero cursor behind mine (ground (arith, enough)) at
    walk_from (suc n) cursor behind mine unique named at enough =
        elim (Bool-cases (ltb (suc limit) (length behind))) [
          | inr few ↦ last_page (suc n) cursor behind mine few at
          | inl more ↦
              let (id, rest, there, last, parts, fewer) =
                rest_of behind cursor unique named at more in
              next_page (suc n) cursor behind rest id mine more at last parts
                (walk_from n (some id) rest mine unique named there (omega (arith, enough, fewer)))
        ]

    -- Who owns an account and follows the cursors from the first page gets every message of it, each once,
    -- in the order of the list, whatever the size of the pages; the ids of messages are different and not
    -- empty. As many pages as there are messages, and one more, are enough.
    pub walk-rows_of :
        (n : ℕ)
        → owns user_id account_id db ≡ true
        → ((id : Text) → count (has id) db.messages ≤ 1)
        → count (has []) db.messages ≡ 0
        → length (rows_of account_id db) ≤ n
        → walk (suc n) user_id account_id (suc limit) db none
          ≡ some (map (summary_of to_iso_string) (rows_of account_id db))
    walk-rows_of n mine unique named enough =
        let of_account = λ (m : Message). text_eq m.account_id account_id in
        let fewer : (id : Text)
            → count (has id) (rows_of account_id db) ≤ count (has id) db.messages =
          λ id. omega (
            arith,
            newest_first-count (has id) (filter of_account db.messages),
            filter-count_le (has id) of_account db.messages,
          ) in
        walk_from n none (rows_of account_id db) mine (λ id. omega (arith, fewer id, unique id))
          (omega (arith, fewer [], named)) ([], refl, refl) enough
