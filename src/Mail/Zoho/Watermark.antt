-- ===== src/Mail/Zoho/Watermark.antt =====
-- The watermark of services/email-ingestion/src/mail/providers/zoho.provider.ts under the page loop of
-- src/sync/mail-sync.service.ts: which of the messages since the last run a run finds.
use finlytic_ecosystem.Prelude.{
  ℕ, zero, suc, ◌-◌, ◌≤◌, ◌≡◌, refl, sym, ap, ◌∙◌, Bool, false, ◌&&◌, none, some, List, [], ◌∷◌,
  ◌++◌, filter, take, drop, length, All, ltb, ◌==◌, or_else, arith, Bool-cases, Option-cases, inl,
  inr, append_assoc, append-nil,
}
use finlytic_ecosystem.Prelude.Text.{Text, codes, text_eq, text_eq_iff}
use finlytic_ecosystem.Prelude.Effects.{ok}
use finlytic_ecosystem.Mail.Sync.{has_id, add_ids, truthy, collect, after_page}
use finlytic_ecosystem.Mail.Providers.{Connection}
use finlytic_ecosystem.Mail.Zoho.{
  Platform, ZohoMessage, view_page, is_fresh, ids_of, first_time, change_page,
  list_changed_message_ids, adapter,
}

-- No id stands twice.
abbrev pub IsDistinct : List Text → Type 0
IsDistinct [] = Unit
IsDistinct (id ∷ ids) = (has_id id ids ≡ false) × IsDistinct ids

abbrev AllNew : List Text → List Text → Type 0
AllNew collected ids = All (λ id. has_id id collected ≡ false) ids

still_new :
    (id : Text) (collected ids : List Text)
    → has_id id ids ≡ false
    → AllNew collected ids
    → AllNew (collected ++ (id ∷ [])) ids
still_new id collected [] h k = tt
still_new id collected (i ∷ ids) h (k, ks) = (
  last i collected k (ground (arith, h, text_eq_iff id i, text_eq_iff i id)),
  still_new id collected ids (ground (arith, h)) ks,
)
  where
    last :
        (i : Text) (c : List Text)
        → has_id i c ≡ false
        → text_eq i id ≡ false
        → has_id i (c ++ (id ∷ [])) ≡ false
    last i [] k e = ground (arith, e)
    last i (x ∷ c) k e = ground (arith, k, e, last i c)

add_ids_new :
    (ids collected : List Text)
    → AllNew collected ids
    → IsDistinct ids
    → add_ids ids collected ≡ collected ++ ids
add_ids_new [] collected k d = sym (append-nil collected)
add_ids_new (id ∷ ids) collected (k, ks) (d, ds) = rw k (
    add_ids_new ids (collected ++ (id ∷ [])) (still_new id collected ids d ks) ds
    ∙ append_assoc collected (id ∷ []) ids)

AllNew-nil : (ids : List Text) → AllNew [] ids
AllNew-nil [] = tt
AllNew-nil (id ∷ ids) = (refl, AllNew-nil ids)

take-nil : (n : ℕ) → take {A = ZohoMessage} n [] ≡ []
take-nil zero = refl
take-nil (suc n) = refl

module _ (p : Platform) where
  -- The mailbox stands newest first.
  abbrev pub IsNewestFirst : List ZohoMessage → Type 0
  IsNewestFirst [] = Unit
  IsNewestFirst (m ∷ ms) =
      All (λ (x : ZohoMessage). p.number x.received_time ≤ p.number m.received_time) ms
      × IsNewestFirst ms

  stale_filter :
      (since : ℕ) (m : ZohoMessage) (ms : List ZohoMessage)
      → All (λ (x : ZohoMessage). p.number x.received_time ≤ p.number m.received_time) ms
      → is_fresh p since m ≡ false
      → filter (is_fresh p since) ms ≡ []
  stale_filter since m [] older stale = refl
  stale_filter since m (x ∷ ms) (le, older) stale =
      ground (arith, le, stale, stale_filter since m ms older stale)

  filter-take :
      (since n : ℕ) (ms : List ZohoMessage)
      → IsNewestFirst ms
      → filter (is_fresh p since) (take n ms) ≡ take n (filter (is_fresh p since) ms)
  filter-take since zero ms sorted = refl
  filter-take since (suc n) [] sorted = refl
  filter-take since (suc n) (m ∷ ms) (older, sorted) = elim (Bool-cases (is_fresh p since m)) [
    | inl fresh ↦ rw fresh (ap (λ xs. m ∷ xs) (filter-take since n ms sorted))
    | inr stale ↦
        rw (stale, filter-take since n ms sorted, stale_filter since m ms older stale) (take-nil n)
  ]

  has_id-filter :
      (f : ZohoMessage → Bool) (id : Text) (ms : List ZohoMessage)
      → has_id id (ids_of p ms) ≡ false
      → has_id id (ids_of p (filter f ms)) ≡ false
  has_id-filter f id [] h = refl
  has_id-filter f id (m ∷ ms) h = ground (arith, h, has_id-filter f id ms)

  has_id-take :
      (n : ℕ) (id : Text) (ms : List ZohoMessage)
      → has_id id (ids_of p ms) ≡ false
      → has_id id (ids_of p (take n ms)) ≡ false
  has_id-take zero id ms h = refl
  has_id-take (suc n) id [] h = refl
  has_id-take (suc n) id (m ∷ ms) h = ground (arith, h, has_id-take n id ms)

  filter-IsDistinct :
      (f : ZohoMessage → Bool) (ms : List ZohoMessage)
      → IsDistinct (ids_of p ms)
      → IsDistinct (ids_of p (filter f ms))
  filter-IsDistinct f [] d = tt
  filter-IsDistinct f (m ∷ ms) (new, d) = elim (Bool-cases (f m)) [
    | inl kept ↦ rw kept (has_id-filter f m.message_id ms new, filter-IsDistinct f ms d)
    | inr left ↦ rw left (filter-IsDistinct f ms d)
  ]

  take-IsDistinct :
      (n : ℕ) (ms : List ZohoMessage) → IsDistinct (ids_of p ms) → IsDistinct (ids_of p (take n ms))
  take-IsDistinct zero ms d = tt
  take-IsDistinct (suc n) [] d = tt
  take-IsDistinct (suc n) (m ∷ ms) (new, d) =
      (has_id-take n m.message_id ms new, take-IsDistinct n ms d)

  length-ids_of : (ms : List ZohoMessage) → length (ids_of p ms) ≡ length ms
  length-ids_of [] = refl
  length-ids_of (m ∷ ms) = ap suc (length-ids_of ms)

  -- A first page that says that there are more has filled the run.
  full_page :
      (since : ℕ) (page : List ZohoMessage) (token : Text)
      → truthy (change_page p since 1 page).next_page_token ≡ some token
      → ltb (length (change_page p since 1 page).message_ids) 200 ≡ false
  full_page since page token h =
      let fresh = filter (is_fresh p since) page in
      elim (Bool-cases (length fresh == length page && length page == 200)) [
        | inl full ↦ ground (arith, full, length-ids_of fresh)
        | inr partial ↦ absurd (cc (rw partial at h))
      ]

  first_time-take :
      (n : ℕ) (ms : List ZohoMessage) → first_time p (take (suc n) ms) ≡ first_time p ms
  first_time-take n [] = refl
  first_time-take n (m ∷ ms) = refl

  first_round :
      (connection : Connection) (cursor : Text) (n : ℕ) (page : List ZohoMessage)
      → IsDistinct (change_page p (p.number cursor) 1 page).message_ids
      → list_changed_message_ids p connection cursor none
        ≡ ok (change_page p (p.number cursor) 1 page)
      → collect (adapter p connection) cursor (suc n) [] cursor none
        ≡ ok (
            some (
              (change_page p (p.number cursor) 1 page).message_ids,
              or_else (truthy (first_time p page)) cursor,
            ))
  unfolding collect after_page
  first_round connection cursor n page distinct answered =
      let found = change_page p (p.number cursor) 1 page in
      let added = add_ids_new found.message_ids [] (AllNew-nil found.message_ids) distinct in
      elim (Option-cases (truthy found.next_page_token)) [
        | inl last ↦ rw (answered, last, added) refl
        | inr (token, more) ↦
            rw (answered, more, added, full_page (p.number cursor) page token more) refl
      ]

  -- What a run of the page loop finds of a mailbox that is served in slices, newest first, with decimal
  -- numbers read back and no id twice: exactly the newest 200 of the messages that came since the cursor,
  -- in order, and as the next cursor the time of the newest message of the mailbox. One round is enough.
  pub collect-newest :
      (connection : Connection) (cursor : Text) (n : ℕ) (mailbox : List ZohoMessage)
      → p.number (codes "1") ≡ 1
      → ((start limit : ℕ)
          → 1 ≤ start
          → view_page p connection start limit ≡ ok (take limit (drop (start - 1) mailbox)))
      → IsNewestFirst mailbox
      → IsDistinct (ids_of p mailbox)
      → collect (adapter p connection) cursor (suc n) [] cursor none
        ≡ ok (
            some (
              ids_of p (take 200 (filter (is_fresh p (p.number cursor)) mailbox)),
              or_else (truthy (first_time p mailbox)) cursor,
            ))
  unfolding list_changed_message_ids
  collect-newest connection cursor n mailbox one serves sorted distinct =
      let page = take 200 mailbox in
      let kept = filter-take (p.number cursor) 200 mailbox sorted in
      let first : first_time p page ≡ first_time p mailbox = first_time-take 199 mailbox in
      let answered : list_changed_message_ids p connection cursor none
          ≡ ok (change_page p (p.number cursor) 1 page) =
        rw (one, serves 1 200 (omega arith)) refl in
      first_round connection cursor n page
        (filter-IsDistinct (is_fresh p (p.number cursor)) page
          (take-IsDistinct 200 mailbox distinct))
        answered
      ∙ rw (kept, first) refl
