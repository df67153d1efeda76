-- ===== src/Web/SyncEvents.antt =====
-- apps/web/src/accounts/useSyncEvents.ts: the stream is read, and the cached queries it makes stale are
-- invalidated. JSON and the connection are parameters.
pub mod Chunks
pub mod Backoff
pub mod Delivery
use finlytic_ecosystem.Prelude.{
  ℕ, ◌+◌, ◌-◌, ◌*◌, ◌^◌, ◌≤◌, ◌≡◌, refl, Bool, true, false, not, ◌||◌, Option, none, some, List, [],
  ◌∷◌, ◌++◌, if◌then◌else◌, min, arith,
}
use finlytic_ecosystem.Prelude.Text.{Text, codes}
use finlytic_ecosystem.Prelude.Effects.{
  Result, ok, err, Eff, pure, throw, ◌>>◌, bind_keeps, continue_with,
}
use finlytic_ecosystem.Web.Sse.{SseFrame, parse_frame, split_frames}
use finlytic_ecosystem.Web.Sse.Frames.{split_frames-append}

-- The keys of the queries that have been invalidated, the first one first.
abbrev pub Keys : Type 0
Keys = List (List Text)

-- What `JSON.parse` makes of the data of a frame: it throws, it gives null or undefined, of which no
-- field can be read, or a value with an account.
pub data Parsed : Type 0 where
  malformed no_object : Parsed
  event : Text → Parsed

-- An empty string is falsy.
abbrev truthy : Option Text → Option Text
truthy (some (c ∷ s)) = some (c ∷ s)
truthy _ = none

-- `parsed?.data`
abbrev data_of : Option SseFrame → Option Text
data_of none = none
data_of (some frame) = truthy frame.data_text

abbrev invalidate_queries : List Text → Eff Keys Text (Unit {0})
invalidate_queries key keys = (ok tt, keys ++ (key ∷ []))

module _ (parse_json : Text → Parsed) where
  abbrev handle_parsed : Parsed → Eff Keys Text (Unit {0})
  handle_parsed malformed = pure tt
  handle_parsed no_object = do invalidate_queries (codes "accounts" ∷ []); throw (codes "TypeError")
  handle_parsed (event account_id) = do
    invalidate_queries (codes "accounts" ∷ [])
    invalidate_queries (codes "messages" ∷ account_id ∷ [])

  abbrev handle_data : Option Text → Eff Keys Text (Unit {0})
  handle_data none = pure tt
  handle_data (some text) = handle_parsed (parse_json text)

  unfoldable pub handle_frame : Text → Eff Keys Text (Unit {0})
  handle_frame frame = handle_data (data_of (parse_frame frame))

  unfoldable pub handle_frames : List Text → Eff Keys Text (Unit {0})
  handle_frames [] = pure tt
  handle_frames (frame ∷ frames) = handle_frame frame >> handle_frames frames

  -- The loop of `consume` over what the reader gives, until it is done.
  unfoldable pub consume_chunks : Text → List Text → Eff Keys Text (Unit {0})
  consume_chunks buffer [] = pure tt
  consume_chunks buffer (value ∷ values) =
      handle_frames (split_frames (buffer ++ value)).0
      >> consume_chunks (split_frames (buffer ++ value)).1 values

-- `attempt` and, where a reconnect is scheduled, its delay.
unfoldable pub schedule_reconnect : Bool → ℕ → ℕ × Option ℕ
schedule_reconnect aborted attempt =
    if aborted
    then (attempt, none)
    else (attempt + 1, some (min (1000 * 2 ^ (attempt + 1 - 1)) 30000))
