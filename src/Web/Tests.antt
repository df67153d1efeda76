-- ===== src/Web/Tests.antt =====
-- Runs of the browser client of apps/web on small inputs.
use finlytic_ecosystem.Prelude.{
  zero, suc, ◌+◌, ◌-◌, ◌≡◌, refl, none, some, List, [], ◌∷◌, ◌++◌, take, drop, arith, length,
}
use finlytic_ecosystem.Prelude.Text.{Text, codes, text_eq, starts_with}
use finlytic_ecosystem.Prelude.Split.{Lacks}
use finlytic_ecosystem.Prelude.Effects.{ok}
use finlytic_ecosystem.Mail.Store.{MailAccount, gmail, active, Db}
use finlytic_ecosystem.Mail.Events.{
  SyncEvent, Happening, ended, ticked, completed, failed, events, publish, event_frame, listener,
  written, written_all,
}
use finlytic_ecosystem.Gateway.Server.{bearer_token}
use finlytic_ecosystem.Guard.{Verifier, extract_bearer_token}
use finlytic_ecosystem.Prelude.{if◌then◌else◌}
use finlytic_ecosystem.Guard.Header.{authorized-read}
use finlytic_ecosystem.Prelude.Split.{is_space, no_space-IsBlankFree}
use finlytic_ecosystem.Web.Sse.{split_frames, cut, frames_within}
use finlytic_ecosystem.Web.Sse.Crlf.{to_crlf, to_crlf-split_frames}
use finlytic_ecosystem.Web.SyncEvents.{Parsed, malformed, event, consume_chunks}
use finlytic_ecosystem.Web.SyncEvents.Delivery.{IsReadable, told, consume-events}
use finlytic_ecosystem.Web.Client.{
  ApiRequest, Client, Network, Shared, idle, called, answered, cleared, run, api_fetch,
}
use finlytic_ecosystem.Web.Client.SingleFlight.{IsSingle, run-IsSingle}
use finlytic_ecosystem.Web.Client.Retry.{IsBounded, api_fetch-IsBounded}

-- JSON whose characters are moved past the control characters.
abbrev shift : Text → Text
shift [] = []
shift (n ∷ s) = (n + 14) ∷ shift s

abbrev unshift : Text → Text
unshift [] = []
unshift (n ∷ s) = (n - 14) ∷ unshift s

abbrev stringify : SyncEvent → Text
stringify e = b'{' ∷ shift e.account_id

abbrev parse_json : Text → Parsed
parse_json [] = malformed
parse_json (c ∷ s) = event (unshift s)

unshift-shift : (s : Text) → unshift (shift s) ≡ s
unshift-shift [] = refl
unshift-shift (n ∷ s) = ground (arith, unshift-shift s)

shift-no_line_feed : (s : Text) → Lacks 10 (shift s)
shift-no_line_feed [] = tt
shift-no_line_feed (n ∷ s) = (λ e. omega (arith, e), shift-no_line_feed s)

shift-no_return : (s : Text) → Lacks 13 (shift s)
shift-no_return [] = tt
shift-no_return (n ∷ s) = (λ e. omega (arith, e), shift-no_return s)

json-IsReadable : IsReadable stringify parse_json
json-IsReadable = record {
  first_char = λ e. (b'{', shift e.account_id, refl);
  no_line_feed = λ e. (λ k. omega (arith, k), shift-no_line_feed e.account_id);
  no_return = λ e. (λ k. omega (arith, k), shift-no_return e.account_id);
  read_back = λ e. rw (unshift-shift e.account_id) refl;
}

abbrev account : MailAccount
account = record {
  id = codes "a1";
  user_id = codes "u1";
  provider = gmail;
  provider_account_id = codes "g1";
  email_address = codes "ann@example.org";
  status = active;
  access_token_enc = [];
  access_token_expires = 9;
  refresh_token_enc = none;
  scopes = [];
  provider_metadata = [];
  sync_cursor = none;
  last_synced_at = none;
  last_sync_error = none;
}

abbrev db : Db
db = record { accounts = account ∷ []; messages = []; objects = [] }

-- The job of the caller's account ends, then one of another's.
abbrev happenings : List Happening
happenings = ended (codes "sync-a1") completed ∷ ticked ∷ ended (codes "sync-b2") failed ∷ []

stream : Text
unfolding events written_all written listener publish event_frame text_eq
stream = events stringify (codes "u1") db happenings

-- The first chunk ends within a separator.
consume-events_example :
    consume_chunks parse_json [] (take 13 stream ∷ drop 13 stream ∷ []) []
    ≡ (ok tt, (codes "accounts" ∷ []) ∷ (codes "messages" ∷ codes "a1" ∷ []) ∷ [])
unfolding stream events written_all written listener publish event_frame text_eq told starts_with
consume-events_example =
    consume-events stringify parse_json (codes "u1") db happenings
      (take 13 stream ∷ drop 13 stream ∷ []) json-IsReadable refl

abbrev heartbeat : Text
heartbeat = codes ": ping" ++ 10 ∷ 10 ∷ []

to_crlf-split_frames_example : split_frames (to_crlf heartbeat) ≡ ([], to_crlf heartbeat)
to_crlf-split_frames_example = to_crlf-split_frames heartbeat

-- With its own line endings it is a frame.
heartbeat_frame : split_frames heartbeat ≡ (codes ": ping" ∷ [], [])
unfolding split_frames frames_within cut
heartbeat_frame = refl

-- The token has expired; the refresh gives another.
abbrev network : Network
network = record {
  fetch = λ sent request. elim (length sent) [
    | zero ↦ ok (record { status = 401; text = [] })
    | suc n ↦ ok (record { status = 200; text = codes "session" })
  ];
  session_json =
      λ text. ok (record { access_token = codes "new"; email = codes "ann@example.org" });
  credentials_json = λ email password. email ++ password;
}

abbrev client : Client
client = record { access_token = some (codes "old"); sent = [] }

abbrev accounts_request : ApiRequest
accounts_request = record {
  input = codes "/api/accounts";
  method = codes "GET";
  authorization = none;
  body = [];
}

api_fetch-IsBounded_example :
    IsBounded network accounts_request client (api_fetch network accounts_request client)
api_fetch-IsBounded_example = api_fetch-IsBounded network accounts_request client

abbrev start : Shared
start = record { flight = idle; client = client; answers = 0 }

-- Two callers share a request, and a third comes when it is answered.
run-IsSingle_example : IsSingle (
    run network
      (called
        ∷ called
        ∷ answered (ok (record { status = 200; text = codes "session" }))
        ∷ called
        ∷ cleared
        ∷ called
        ∷ [])
      start)
run-IsSingle_example =
    run-IsSingle network
      (called
        ∷ called
        ∷ answered (ok (record { status = 200; text = codes "session" }))
        ∷ called
        ∷ cleared
        ∷ called
        ∷ [])
      start refl

abbrev verifier : Verifier
verifier = record {
  to_lower_case = λ s. if text_eq s (codes "Bearer") then codes "bearer" else s;
  verify_async = λ token. none;
}

authorized-read_example :
    (bearer_token (some (codes "Bearer a.b.c")) ≡ some (codes "a.b.c"))
    × (extract_bearer_token verifier (some (codes "Bearer a.b.c")) ≡ some (codes "a.b.c"))
unfolding is_space text_eq
authorized-read_example =
    authorized-read verifier b'a' (codes ".b.c") accounts_request refl
      (no_space-IsBlankFree (codes "a.b.c") refl)
