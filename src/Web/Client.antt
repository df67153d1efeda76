-- ===== src/Web/Client.antt =====
-- apps/web/src/api/client.ts: calls of the API with an access token in memory, which a shared refresh
-- renews. The network and JSON are parameters.
pub mod Retry
pub mod SingleFlight
use finlytic_ecosystem.Prelude.{
  ℕ, ◌+◌, ◌<◌, Bool, true, false, not, ◌&&◌, Option, none, some, List, [], ◌∷◌, ◌++◌, if◌then◌else◌,
  ◌==◌, leb, ltb,
}
use finlytic_ecosystem.Prelude.Text.{Text, codes}
use finlytic_ecosystem.Prelude.Effects.{Result, ok, err, Eff, pure, throw, ◌>>=◌, ◌>>◌}

pub record ApiRequest : Type 0 where
  pub input : Text
  pub method : Text
  pub authorization : Option Text
  pub body : Text

pub record ApiResponse : Type 0 where
  pub status : ℕ
  pub text : Text

pub record Session : Type 0 where
  pub access_token : Text
  pub email : Text

-- What is thrown. `network` is the rejection of `fetch` or of `json`.
pub data ApiError : Type 0 where
  unauthenticated : ApiError
  network status_error refused : Text → ApiError

-- The module's variable, and the requests that have been sent, the first one first.
pub record Client : Type 0 where
  pub access_token : Option Text
  pub sent : List ApiRequest

-- The network answers a request after those that have been sent.
pub record Network : Type 0 where
  pub fetch : List ApiRequest → ApiRequest → Result ApiError ApiResponse
  pub session_json : Text → Result ApiError Session
  pub credentials_json : Text → Text → Text

abbrev pub is_ok : ApiResponse → Bool
is_ok response = leb 200 response.status && ltb response.status 300

abbrev pub set_access_token : Option Text → Client → Client
set_access_token token client = record client { access_token = token }

-- An empty token is falsy.
abbrev pub authorized : Option Text → ApiRequest → ApiRequest
authorized (some (c ∷ token)) init = record init {
  authorization = some (codes "Bearer " ++ (c ∷ token));
}
authorized _ init = init

abbrev post_of : Text → Text → ApiRequest
post_of input body = record {
  input = input;
  method = codes "POST";
  authorization = none;
  body = body;
}

abbrev pub refresh_request : ApiRequest
refresh_request = post_of (codes "/api/auth/refresh") (codes "{}")

module _ (n : Network) where
  unfoldable pub send : ApiRequest → Eff Client ApiError ApiResponse
  send request client =
      (n.fetch client.sent request, record client { sent = client.sent ++ (request ∷ []) })

  unfoldable pub with_token : ApiRequest → Eff Client ApiError ApiResponse
  with_token init client = send (authorized client.access_token init) client

  abbrev store_session : Result ApiError Session → Eff Client ApiError (Option Session)
  store_session (err e) client = (err e, client)
  store_session (ok session) client =
      (ok (some session), set_access_token (some session.access_token) client)

  -- The body of the refresh behind its request.
  unfoldable pub settle : ApiResponse → Eff Client ApiError (Option Session)
  settle response client =
      if not (is_ok response)
      then (ok none, set_access_token none client)
      else store_session (n.session_json response.text) client

  -- `refreshSession` where no refresh is in flight.
  unfoldable pub refresh_session : Eff Client ApiError (Option Session)
  refresh_session = send refresh_request >>= settle

  abbrev retry : ApiRequest → Option Session → Eff Client ApiError ApiResponse
  retry init none = throw unauthenticated
  retry init (some session) = with_token init

  abbrev retry_if : ApiRequest → ApiResponse → Eff Client ApiError ApiResponse
  retry_if init response client =
      if not (response.status == 401)
      then (ok response, client)
      else (refresh_session >>= retry init) client

  unfoldable pub api_fetch : ApiRequest → Eff Client ApiError ApiResponse
  api_fetch init = with_token init >>= retry_if init

  unfoldable pub api_json :
      {A : Type 0} → (Text → Result ApiError A) → ApiRequest → Eff Client ApiError A
  api_json decode init = api_fetch init >>= λ response client.
      if not (is_ok response)
      then (err (status_error init.input), client)
      else (decode response.text, client)

  abbrev opened : Result ApiError Session → Eff Client ApiError Session
  opened (err e) client = (err e, client)
  opened (ok session) client = (ok session, set_access_token (some session.access_token) client)

  unfoldable pub login : Text → Text → Eff Client ApiError Session
  login email password =
      send (post_of (codes "/api/auth/login") (n.credentials_json email password))
      >>= λ response client.
          if not (is_ok response)
          then (err (refused (codes "Invalid email or password")), client)
          else opened (n.session_json response.text) client

  unfoldable pub logout : Eff Client ApiError (Unit {0})
  logout = send (post_of (codes "/api/auth/logout") (codes "{}")) >>= λ response client.
      (ok tt, set_access_token none client)

-- `refreshInFlight`: none, a request without an answer, or a promise that is settled and that `finally`
-- has not taken away.
pub data Flight : Type 0 where
  idle pending settled : Flight

-- What happens to the shared refresh: a caller asks for it, its request is answered, `finally` runs.
pub data Event : Type 0 where
  called cleared : Event
  answered : Result ApiError ApiResponse → Event

pub record Shared : Type 0 where
  pub flight : Flight
  pub client : Client
  -- How many of the requests have been answered.
  pub answers : ℕ

module _ (n : Network) where
  -- `refreshInFlight ??= ...`: the request is sent where no promise is there to share.
  unfoldable pub call : Flight → Shared → Shared
  call idle s = record s {
    flight = pending;
    client = record s.client { sent = s.client.sent ++ (refresh_request ∷ []) };
  }
  call pending s = s
  call settled s = s

  abbrev client_after : Result ApiError ApiResponse → Client → Client
  client_after (err e) client = client
  client_after (ok response) client = (settle n response client).1

  unfoldable pub answer : Flight → Result ApiError ApiResponse → Shared → Shared
  answer idle r s = s
  answer settled r s = s
  answer pending r s = record {
    flight = settled;
    client = client_after r s.client;
    answers = s.answers + 1;
  }

  unfoldable pub clear : Flight → Shared → Shared
  clear settled s = record s { flight = idle }
  clear pending s = s
  clear idle s = s

  unfoldable pub step : Event → Shared → Shared
  step called s = call s.flight s
  step (answered r) s = answer s.flight r s
  step cleared s = clear s.flight s

  unfoldable pub run : List Event → Shared → Shared
  run [] s = s
  run (e ∷ es) s = run es (step e s)
