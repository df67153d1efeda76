-- ===== src/Web/SyncEvents/Delivery.antt =====
-- From a job that ends to the queries of the browser: what `events` of accounts.controller.ts writes,
-- apps/web/src/api/sse.ts and apps/web/src/accounts/useSyncEvents.ts read back.
use finlytic_ecosystem.Prelude.{
  ℕ, ◌≡◌, refl, ap, ◌∙◌, Option, none, some, List, [], ◌∷◌, ◌++◌, append_assoc, append-nil,
  if◌then◌else◌, ◌==◌, ◌&&◌, arith, Bool-cases, Option-cases, inl, inr,
}
use finlytic_ecosystem.Prelude.Text.{Text, codes, text_eq}
use finlytic_ecosystem.Prelude.Split.{Lacks, split, split-append, split-Lacks, join, join-split}
use finlytic_ecosystem.Prelude.Effects.{ok, bind_ok}
use finlytic_ecosystem.Mail.Store.{Db}
use finlytic_ecosystem.Mail.Events.{
  SyncEvent, Happening, ended, ticked, publish, event_frame, listener, written, written_all, events,
  owned_ids, is_owned,
}
use finlytic_ecosystem.Web.Sse.{cut, split_frames, parse_frame, read_lines, read_line, without_cr}
use finlytic_ecosystem.Web.Sse.Frames.{split_some, split_none, cut-nil}
use finlytic_ecosystem.Web.SyncEvents.{
  Keys, Parsed, event, handle_frame, handle_frames, consume_chunks,
}
use finlytic_ecosystem.Web.SyncEvents.Chunks.{concat, consume-concat}

-- A text with no separator, even at its end, is the first frame of what follows it.
cut_at : (f r : Text) → cut (f ++ 10 ∷ []) ≡ none → cut (f ++ 10 ∷ 10 ∷ r) ≡ some (f, r)
unfolding cut
cut_at [] r h = refl
cut_at (a ∷ []) r h = ground (arith, h)
cut_at (a ∷ b ∷ s) r h = elim (Bool-cases (a == 10 && b == 10)) [
  | inl here ↦ absurd (ground (arith, here, h))
  | inr not_here ↦ elim (Option-cases (cut (b ∷ s ++ 10 ∷ []))) [
    | inl nothing ↦ ground (arith, not_here, cut_at (b ∷ s) r nothing)
    | inr (found, there) ↦ absurd (cc (rw (not_here, there) at h))
  ]
]

cut-Lacks : (s : Text) → Lacks 10 s → cut (s ++ 10 ∷ []) ≡ none
unfolding cut
cut-Lacks [] l = refl
cut-Lacks (a ∷ []) l = ground (arith, l.0)
cut-Lacks (a ∷ b ∷ s) l = ground (arith, l.0, cut-Lacks (b ∷ s) l.1)

without_cr-Lacks : (s : Text) → Lacks 13 s → without_cr s ≡ s
unfolding without_cr
without_cr-Lacks [] l = refl
without_cr-Lacks (a ∷ []) l = ground (arith, l.0)
without_cr-Lacks (a ∷ b ∷ s) l = ground (arith, without_cr-Lacks (b ∷ s) l.1)

abbrev frame_text : Text → Text
frame_text json = codes "event: sync" ++ 10 ∷ (codes "data: " ++ json)

frame_text-cut : (json : Text) → Lacks 10 json → cut (frame_text json ++ 10 ∷ []) ≡ none
unfolding cut
frame_text-cut json l = rw (cut-Lacks (32 ∷ json) (λ e. absurd (omega (arith, e)), l)) refl

event_line :
    (read : Option Text × List Text)
    → read_line (codes "event: sync") read ≡ (some (codes "sync"), read.1)
unfolding read_line split join text_eq
event_line read = refl

data_line :
    (s : Text) (read : Option Text × List Text)
    → read_line (codes "data:" ++ 32 ∷ s) read ≡ (read.0, read.1 ++ (s ∷ []))
unfolding read_line text_eq
data_line s read =
    let cut_here = split-append b':' (codes "data") (32 ∷ s) no_colon in
    rw (cut_here, join-split b':' (32 ∷ s)) refl
  where
    no_colon : Lacks b':' (codes "data")
    no_colon = (
      λ e. omega (arith, e),
      (λ e. omega (arith, e), (λ e. omega (arith, e), (λ e. omega (arith, e), tt))),
    )

frame_lines :
    (json : Text)
    → Lacks 10 json
    → split 10 (frame_text json) ≡ (codes "event: sync", (codes "data: " ++ json) ∷ [])
unfolding split
frame_lines json l = rw (split-Lacks 10 json l) refl

data_without_cr :
    (json : Text) → Lacks 13 json → without_cr (codes "data: " ++ json) ≡ codes "data: " ++ json
unfolding without_cr
data_without_cr json k = rw (without_cr-Lacks (32 ∷ json) (λ e. absurd (omega (arith, e)), k)) refl

event_without_cr : without_cr (codes "event: sync") ≡ codes "event: sync"
unfolding without_cr
event_without_cr = refl

-- The frame of an event is read back as the event's name and its JSON.
frame_text-parse :
    (json : Text)
    → Lacks 10 json
    → Lacks 13 json
    → parse_frame (frame_text json)
      ≡ some (record { event = some (codes "sync"); data_text = some json })
unfolding parse_frame read_lines join
frame_text-parse json l k =
    rw
      (
        frame_lines json l,
        event_without_cr,
        event_line (none, []),
        data_without_cr json k,
        data_line json (some (codes "sync"), []),
      )
      refl

-- What JSON.stringify and JSON.parse are relied on for: the text of an event is not empty, has no line
-- break, since control characters are escaped, and is read back as the event.
pub record IsReadable (stringify : SyncEvent → Text) (parse_json : Text → Parsed) : Type 0 where
  pub first_char : (e : SyncEvent) → (c : ℕ) × (s : Text) × (stringify e ≡ c ∷ s)
  pub no_line_feed : (e : SyncEvent) → Lacks 10 (stringify e)
  pub no_return : (e : SyncEvent) → Lacks 13 (stringify e)
  pub read_back : (e : SyncEvent) → parse_json (stringify e) ≡ event e.account_id

-- The queries that an event makes stale, where its account is among the caller's.
abbrev told_of : List Text → Option SyncEvent → Keys
told_of owned none = []
told_of owned (some e) =
    if is_owned owned e.account_id
    then (codes "accounts" ∷ []) ∷ (codes "messages" ∷ e.account_id ∷ []) ∷ []
    else []

unfoldable pub told : List Text → List Happening → Keys
told owned [] = []
told owned (ended job_id outcome ∷ hs) = told_of owned (publish job_id outcome) ++ told owned hs
told owned (ticked ∷ hs) = told owned hs

module _ (stringify : SyncEvent → Text) (parse_json : Text → Parsed) where
  handle_event :
      (e : SyncEvent) (keys : Keys)
      → IsReadable stringify parse_json
      → handle_frame parse_json (frame_text (stringify e)) keys
        ≡ (ok tt, keys ++ ((codes "accounts" ∷ []) ∷ (codes "messages" ∷ e.account_id ∷ []) ∷ []))
  unfolding handle_frame
  handle_event e keys json =
      let (c, s, start) = json.first_char e in
      let parsed = frame_text-parse (stringify e) (json.no_line_feed e) (json.no_return e) in
      let back = json.read_back e in
      rw parsed (
        rw start (
          rw (rw start at back) (
            rw
              (append_assoc keys ((codes "accounts" ∷ []) ∷ [])
                ((codes "messages" ∷ e.account_id ∷ []) ∷ []))
              refl)))

  -- A frame that has no separator in it, then the rest of the stream.
  frame_then :
      (f r : Text) (keys k : Keys)
      → cut (f ++ 10 ∷ []) ≡ none
      → handle_frame parse_json f keys ≡ (ok tt, k)
      → handle_frames parse_json (split_frames (f ++ 10 ∷ 10 ∷ r)).0 keys
        ≡ handle_frames parse_json (split_frames r).0 k
  unfolding handle_frames
  frame_then f r keys k whole handled = rw (split_some (f ++ 10 ∷ 10 ∷ r) f r (cut_at f r whole)) (
      bind_ok (handle_frame parse_json f) (λ _. handle_frames parse_json (split_frames r).0)
        handled)

  event_then :
      (e : SyncEvent) (r : Text) (keys : Keys)
      → IsReadable stringify parse_json
      → handle_frames parse_json (split_frames (event_frame stringify e ++ r)).0 keys
        ≡ handle_frames parse_json
            (split_frames r).0
            (keys ++ ((codes "accounts" ∷ []) ∷ (codes "messages" ∷ e.account_id ∷ []) ∷ []))
  unfolding event_frame
  event_then e r keys json =
      ap (λ (s : Text). handle_frames parse_json (split_frames s).0 keys)
        (ap (λ (s : Text). codes "event: sync" ++ 10 ∷ (codes "data: " ++ s))
          (append_assoc (stringify e) (10 ∷ 10 ∷ []) r))
      ∙ frame_then (frame_text (stringify e)) r keys _
          (frame_text-cut (stringify e) (json.no_line_feed e)) (handle_event e keys json)

  tick_then :
      (r : Text) (keys : Keys)
      → handle_frames parse_json (split_frames (codes ": ping" ++ 10 ∷ 10 ∷ r)).0 keys
        ≡ handle_frames parse_json (split_frames r).0 keys
  unfolding handle_frame parse_frame read_lines read_line split without_cr cut
  tick_then r keys = frame_then (codes ": ping") r keys keys refl refl

  connected_then :
      (r : Text) (keys : Keys)
      → handle_frames parse_json (split_frames (codes ": connected" ++ 10 ∷ 10 ∷ r)).0 keys
        ≡ handle_frames parse_json (split_frames r).0 keys
  unfolding handle_frame parse_frame read_lines read_line split without_cr cut
  connected_then r keys = frame_then (codes ": connected") r keys keys refl refl

  listener_then :
      (owned : List Text) (o : Option SyncEvent) (r : Text) (keys : Keys)
      → IsReadable stringify parse_json
      → handle_frames parse_json (split_frames (listener stringify owned o ++ r)).0 keys
        ≡ handle_frames parse_json (split_frames r).0 (keys ++ told_of owned o)
  unfolding listener
  listener_then owned none r keys json = rw (append-nil keys) refl
  listener_then owned (some e) r keys json = elim (Bool-cases (is_owned owned e.account_id)) [
    | inl mine ↦ rw mine (event_then e r keys json)
    | inr other ↦ rw (other, append-nil keys) refl
  ]

  stream_then :
      (owned : List Text) (hs : List Happening) (keys : Keys)
      → IsReadable stringify parse_json
      → handle_frames parse_json (split_frames (written_all stringify owned hs)).0 keys
        ≡ (ok tt, keys ++ told owned hs)
  unfolding written_all written told handle_frames
  stream_then owned [] keys json = rw (split_none [] cut-nil, append-nil keys) refl
  stream_then owned (ended job_id outcome ∷ hs) keys json =
      listener_then owned (publish job_id outcome) _ keys json
      ∙ stream_then owned hs _ json
      ∙ rw (append_assoc keys (told_of owned (publish job_id outcome)) (told owned hs)) refl
  stream_then owned (ticked ∷ hs) keys json = tick_then _ keys ∙ stream_then owned hs keys json

  -- The queries that a browser invalidates while its stream is open are exactly those of the jobs that
  -- ended for its user's accounts, in order, and no frame makes it fail, however the network cuts the
  -- stream into chunks; the JSON of an event is not empty, has no
  -- line break and is read back as the event.
  pub consume-events :
      (user_id : Text) (db : Db) (hs : List Happening) (chunks : List Text)
      → IsReadable stringify parse_json
      → concat chunks ≡ events stringify user_id db hs
      → consume_chunks parse_json [] chunks [] ≡ (ok tt, told (owned_ids user_id db) hs)
  unfolding events
  consume-events user_id db hs chunks json stream =
      consume-concat parse_json chunks []
      ∙ ap (λ (s : Text). handle_frames parse_json (split_frames s).0 []) stream
      ∙ connected_then _ []
      ∙ stream_then (owned_ids user_id db) hs [] json
