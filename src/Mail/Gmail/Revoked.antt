-- ===== src/Mail/Gmail/Revoked.antt =====
-- When services/email-ingestion/src/mail/providers/gmail.provider.ts reports that a grant is gone.
use finlytic_ecosystem.Prelude.{ℕ, ◌≡◌, ◌≢◌, refl, true, false, arith, Bool-cases, inl, inr}
use finlytic_ecosystem.Prelude.Text.{Text, codes}
use finlytic_ecosystem.Prelude.Effects.{Result, ok, err}
use finlytic_ecosystem.Mail.Store.{Error, auth_revoked}
use finlytic_ecosystem.Mail.Http.{Response, is_ok, uncaught, then_do}
use finlytic_ecosystem.Mail.Gmail.{
  Platform, GoogleTokenResponse, includes, token_or_refuse, post_token, to_tokens,
  refresh_access_token, token_request, refresh_fields,
}

abbrev pub IsGone : Response → Type 0
IsGone response = (is_ok response ≡ false) × (includes response.text (codes "invalid_grant") ≡ true)

uncaught-failure : {A : Type 0} (r : Result Text A) (m : Text) → uncaught r ≢ err (auth_revoked m)
uncaught-failure (ok a) m h = cc
uncaught-failure (err e) m h = cc

module _ (p : Platform) where
  refused-IsGone :
      (response : Response) (m : Text)
      → token_or_refuse p response ≡ err (auth_revoked m)
      → IsGone response
  unfolding token_or_refuse
  refused-IsGone response m h = elim (Bool-cases (is_ok response)) [
    | inl good ↦ absurd (uncaught-failure (p.token_json response.text) m (rw good at h))
    | inr bad ↦ elim (Bool-cases (includes response.text (codes "invalid_grant"))) [
      | inl named ↦ (bad, named)
      | inr unnamed ↦ absurd (cc (rw (bad, unnamed) at h))
    ]
  ]

  posted-IsGone :
      (r : Result Text Response) (m : Text)
      → then_do (uncaught r) (token_or_refuse p) ≡ err (auth_revoked m)
      → (response : Response) × (r ≡ ok response) × IsGone response
  posted-IsGone (err e) m h = absurd (cc)
  posted-IsGone (ok response) m h = (response, refl, refused-IsGone response m h)

  tokens-err :
      (now : ℕ) (r : Result Error GoogleTokenResponse) (e : Error)
      → then_do r (λ payload. ok (to_tokens p now payload)) ≡ err e
      → r ≡ err e
  tokens-err now (ok payload) e h = absurd (cc)
  tokens-err now (err x) e h = ground (arith, h)

  -- A refresh reports a revoked grant only where Google's token endpoint answered, with an error that
  -- names invalid_grant.
  pub refresh_access_token-IsGone :
      (now : ℕ) (refresh_token m : Text)
      → refresh_access_token p now refresh_token ≡ err (auth_revoked m)
      → (response : Response) × (p.fetch (token_request p (refresh_fields p refresh_token))
          ≡ ok response)
        × IsGone response
  unfolding refresh_access_token post_token
  refresh_access_token-IsGone now refresh_token m h =
      posted-IsGone (p.fetch (token_request p (refresh_fields p refresh_token))) m
        (tokens-err now _ (auth_revoked m) h)
