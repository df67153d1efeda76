-- ===== src/Web/Client/SingleFlight.antt =====
-- The shared refresh of apps/web/src/api/client.ts: one request at a time, whoever asks.
use finlytic_ecosystem.Prelude.{ℕ, ◌+◌, ◌≡◌, refl, List, [], ◌∷◌, length, length-append, arith, ap}
use finlytic_ecosystem.Prelude.Effects.{Result, ok, err}
use finlytic_ecosystem.Web.Client.{
  ApiResponse, ApiError, Client, Network, Flight, idle, pending, settled, Event, called, answered,
  cleared, Shared, call, answer, clear, step, run, settle, refresh_request,
}

abbrev waiting : Flight → ℕ
waiting pending = 1
waiting idle = 0
waiting settled = 0

-- Every request has been answered, but for the one in flight.
abbrev pub IsSingle : Shared → Type 0
IsSingle s = length s.client.sent ≡ s.answers + waiting s.flight

module _ (n : Network) where
  settle-sent : (r : ApiResponse) (c : Client) → (settle n r c).1.sent ≡ c.sent
  unfolding settle
  settle-sent r c = ground arith

  call-IsSingle : (f : Flight) (s : Shared) → s.flight ≡ f → IsSingle s → IsSingle (call n f s)
  unfolding call
  call-IsSingle idle s same h =
      omega (arith, h, ap waiting same, length-append s.client.sent (refresh_request ∷ []))
  call-IsSingle pending s same h = h
  call-IsSingle settled s same h = h

  answer-IsSingle :
      (f : Flight) (r : Result ApiError ApiResponse) (s : Shared)
      → s.flight ≡ f
      → IsSingle s
      → IsSingle (answer n f r s)
  unfolding answer
  answer-IsSingle idle r s same h = h
  answer-IsSingle settled r s same h = h
  answer-IsSingle pending (err e) s same h = omega (arith, h, ap waiting same)
  answer-IsSingle pending (ok response) s same h =
      omega (arith, h, ap waiting same, ap length (settle-sent response s.client))

  clear-IsSingle : (f : Flight) (s : Shared) → s.flight ≡ f → IsSingle s → IsSingle (clear n f s)
  unfolding clear
  clear-IsSingle idle s same h = h
  clear-IsSingle pending s same h = h
  clear-IsSingle settled s same h = omega (arith, h, ap waiting same)

  step-IsSingle : (e : Event) (s : Shared) → IsSingle s → IsSingle (step n e s)
  unfolding step
  step-IsSingle called s h = call-IsSingle s.flight s refl h
  step-IsSingle (answered r) s h = answer-IsSingle s.flight r s refl h
  step-IsSingle cleared s h = clear-IsSingle s.flight s refl h

  -- However callers and answers interleave, from a state where that holds, every refresh that was sent
  -- has been answered, but for at most one.
  pub run-IsSingle : (es : List Event) (s : Shared) → IsSingle s → IsSingle (run n es s)
  unfolding run
  run-IsSingle [] s h = h
  run-IsSingle (e ∷ es) s h = run-IsSingle es (step n e s) (step-IsSingle e s h)
