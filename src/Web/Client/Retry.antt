-- ===== src/Web/Client/Retry.antt =====
-- The one retry of `apiFetch` in apps/web/src/api/client.ts.
use finlytic_ecosystem.Prelude.{
  ◌≡◌, refl, sym, ap, ◌∙◌, ◌⊎◌, inl, inr, ◌==◌, Bool, true, false, if◌then◌else◌, Option, none,
  some, List, [], ◌∷◌, ◌++◌, append_assoc, Bool-cases,
}
use finlytic_ecosystem.Prelude.Effects.{Result, ok, err, continue_with}
use finlytic_ecosystem.Web.Client.{
  ApiRequest, ApiResponse, ApiError, unauthenticated, Client, Network, Session, send, with_token,
  settle, refresh_session, api_fetch, authorized, refresh_request, retry, retry_if, store_session,
  is_ok,
}

abbrev ok_session : Result ApiError Session → Option Session
ok_session (err e) = none
ok_session (ok session) = some session

-- The session that the answer to a refresh gives, if it gives one.
abbrev session_in : Network → Result ApiError ApiResponse → Option Session
session_in n (err e) = none
session_in n (ok response) =
    if is_ok response then ok_session (n.session_json response.text) else none

-- What a refresh leaves, where it is to give `o`: it gives no session, or it gives that one and the client
-- holds its token.
abbrev Gives : Option Session → Result ApiError (Option Session) × Client → Type 0
Gives none x = (x.0 ≡ ok none) ⊎ ((e : ApiError) × (x.0 ≡ err e))
Gives (some session) x = (x.0 ≡ ok (some session)) × (x.1.access_token ≡ some session.access_token)

module _ (n : Network) where
  store_session-Gives :
      (r : Result ApiError Session) (c : Client)
      → Gives (ok_session r) (store_session n r c) × ((store_session n r c).1.sent ≡ c.sent)
  store_session-Gives (err e) c = (inr (e, refl), refl)
  store_session-Gives (ok s) c = ((refl, refl), refl)

  settle-Gives :
      (r : Result ApiError ApiResponse) (c : Client)
      → Gives (session_in n r) (continue_with (settle n) r c)
        × ((continue_with (settle n) r c).1.sent ≡ c.sent)
  unfolding settle
  settle-Gives (err e) c = (inr (e, refl), refl)
  settle-Gives (ok response) c = elim (Bool-cases (is_ok response)) [
    | inl good ↦ rw good (store_session-Gives (n.session_json response.text) c)
    | inr bad ↦ rw bad (inl refl, refl)
  ]

abbrev is_rejected : Result ApiError ApiResponse → Bool
is_rejected (err e) = false
is_rejected (ok response) = response.status == 401

module _ (n : Network) (init : ApiRequest) (client : Client) where
  abbrev first_request : ApiRequest
  first_request = authorized client.access_token init

  abbrev answer : Result ApiError ApiResponse
  answer = n.fetch client.sent first_request

  abbrev refreshed : List ApiRequest
  refreshed = client.sent ++ (first_request ∷ refresh_request ∷ [])

  abbrev new_session : Option Session
  new_session = session_in n (n.fetch (client.sent ++ (first_request ∷ [])) refresh_request)

  -- The answer was not 401: it is the result, and nothing else was sent.
  abbrev IsDirect : Result ApiError ApiResponse × Client → Type 0
  IsDirect x =
      (is_rejected answer ≡ false)
      × (x.0 ≡ answer)
      × (x.1.sent ≡ client.sent ++ (first_request ∷ []))

  -- No session came of the refresh: the call fails, and the request is not sent again.
  abbrev IsRefused : Result ApiError ApiResponse × Client → Type 0
  IsRefused x =
      (is_rejected answer ≡ true)
      × (new_session ≡ none)
      × (x.1.sent ≡ refreshed)
      × ((e : ApiError) × (x.0 ≡ err e))

  -- The request is sent once more, with the token of the new session, and its answer is the result.
  abbrev IsRetried : Result ApiError ApiResponse × Client → Type 0
  IsRetried x =
      (is_rejected answer ≡ true)
      × ((session : Session) × (new_session ≡ some session)
          × (x.1.access_token ≡ some session.access_token)
          × (x.0 ≡ n.fetch refreshed (authorized (some session.access_token) init))
          × (x.1.sent ≡ refreshed ++ (authorized (some session.access_token) init ∷ [])))

  abbrev pub IsBounded : Result ApiError ApiResponse × Client → Type 0
  IsBounded x = IsDirect x ⊎ (IsRefused x ⊎ IsRetried x)

  retry-IsBounded :
      (o : Option Session) (x : Result ApiError (Option Session) × Client)
      → is_rejected answer ≡ true
      → new_session ≡ o
      → x.1.sent ≡ refreshed
      → Gives o x
      → IsBounded (continue_with (retry n init) x.0 x.1)
  unfolding with_token send
  retry-IsBounded none x rejected same sent (inl given) =
      rw given (inr (inl (rejected, same, sent, (unauthenticated, refl))))
  retry-IsBounded none x rejected same sent (inr (e, thrown)) =
      rw thrown (inr (inl (rejected, same, sent, (e, refl))))
  retry-IsBounded (some session) x rejected same sent (given, held) =
      rw given
        (inr (inr (rejected, (session, same, held, rw (held, sent) refl, rw (held, sent) refl))))

  answered-IsBounded :
      (r : Result ApiError ApiResponse) (c : Client)
      → answer ≡ r
      → c.sent ≡ client.sent ++ (first_request ∷ [])
      → IsBounded (continue_with (retry_if n init) r c)
  unfolding refresh_session send
  answered-IsBounded (err e) c same sent = inl (ap is_rejected same, sym same, sent)
  answered-IsBounded (ok response) c same sent = elim (Bool-cases (response.status == 401)) [
    | inl rejected ↦
        let d : Client = record c { sent = c.sent ++ (refresh_request ∷ []) } in
        let r = n.fetch c.sent refresh_request in
        let (given, kept) = settle-Gives n r d in
        rw rejected (
          retry-IsBounded (session_in n r) (continue_with (settle n) r d)
            (ap is_rejected same ∙ rejected)
            (ap (λ l. session_in n (n.fetch l refresh_request)) (sym sent))
            (kept ∙ rw sent (append_assoc client.sent (first_request ∷ []) (refresh_request ∷ [])))
            given)
    | inr other ↦ rw other (inl (ap is_rejected same ∙ other, sym same, sent))
  ]

  -- A call whose first answer is not 401 gives that answer and sends nothing else. Where it is 401, one
  -- refresh follows; without a new session the call fails with no further request, and with one the
  -- request is sent once more, with the token of that session, its answer is the result, and nothing is
  -- sent after it.
  pub api_fetch-IsBounded : IsBounded (api_fetch n init client)
  unfolding api_fetch with_token send
  api_fetch-IsBounded = answered-IsBounded answer _ refl refl
