-- ===== src/Mail/OauthState.antt =====
-- services/email-ingestion/src/oauth/oauth-state.service.ts: the signed, single-use state of an OAuth
-- redirect. HMAC, JSON and base64url are parameters.
pub mod SingleUse
use finlytic_ecosystem.Prelude.{
  ℕ, ◌+◌, ◌/◌, Bool, true, false, not, ◌||◌, Option, none, some, List, [], ◌∷◌, ◌++◌, ltb,
  if◌then◌else◌, any, filter,
}
use finlytic_ecosystem.Prelude.Text.{Text, text_eq}
use finlytic_ecosystem.Prelude.Split.{Parts, split}
use finlytic_ecosystem.Prelude.Effects.{Result, ok, err, Eff, throw}

pub record StateClaims : Type 0 where
  pub user_id : Text
  pub nonce : Text
  pub exp : ℕ

pub record Codec : Type 0 where
  -- The HMAC of a payload under the secret, in base64url.
  pub sign : Text → Text
  -- `JSON.stringify` in base64url, and back; `none` where `JSON.parse` throws.
  pub encode_claims : StateClaims → Text
  pub decode_claims : Text → Option StateClaims

pub data StateError : Type 0 where
  malformed_state invalid_state expired_state used_state syntax_error : StateError

abbrev pub state_ttl_seconds : ℕ
state_ttl_seconds = 600

-- The nonces that have been redeemed, with the expiry of their states.
abbrev pub Redeemed : Type 0
Redeemed = List (Text × ℕ)

unfoldable pub forget : ℕ → Redeemed → Redeemed
forget now redeemed = filter (λ entry. not (ltb entry.1 now)) redeemed

abbrev pub has_nonce : Text → Redeemed → Bool
has_nonce nonce redeemed = any (λ entry. text_eq entry.0 nonce) redeemed

abbrev pub is_empty : Text → Bool
is_empty [] = true
is_empty (_ ∷ _) = false

module _ (codec : Codec) where
  unfoldable pub issue : ℕ → Text → Text → Text
  issue now_ms nonce user_id =
      let payload =
        codec.encode_claims
          (record { user_id = user_id; nonce = nonce; exp = now_ms / 1000 + state_ttl_seconds }) in
      payload ++ (b'.' ∷ codec.sign payload)

  unfoldable pub verify_claims : ℕ → Option StateClaims → Eff Redeemed StateError Text
  verify_claims now none redeemed = (err syntax_error, redeemed)
  verify_claims now (some claims) redeemed =
      if ltb claims.exp now
      then (err expired_state, redeemed)
      else if has_nonce claims.nonce (forget now redeemed)
      then (err used_state, forget now redeemed)
      else (ok claims.user_id, (claims.nonce, claims.exp) ∷ forget now redeemed)

  -- `const [payload, signature] = state.split('.')`: further parts are ignored.
  unfoldable pub verify_parts : ℕ → Parts → Eff Redeemed StateError Text
  verify_parts now (payload, []) = throw malformed_state
  verify_parts now (payload, signature ∷ others) =
      if is_empty payload || is_empty signature
      then throw malformed_state
      else if not (text_eq signature (codec.sign payload))
      then throw invalid_state
      else verify_claims now (codec.decode_claims payload)

  unfoldable pub verify : ℕ → Text → Eff Redeemed StateError Text
  verify now_ms state = verify_parts (now_ms / 1000) (split b'.' state)
