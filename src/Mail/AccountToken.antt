-- ===== src/Mail/AccountToken.antt =====
-- services/email-ingestion/src/accounts/account-token.service.ts: the access token of a mailbox, refreshed
-- when it is about to expire. The provider's token endpoint and the encryption are parameters.
use finlytic_ecosystem.Prelude.{
  ℕ, ◌+◌, ◌*◌, ◌≡◌, ◌⊎◌, Option, none, some, ◌∷◌, if◌then◌else◌, ltb, arith, inl, inr, Bool-cases,
  refl, false, any, ap, sym,
}
use finlytic_ecosystem.Prelude.Text.{Text, codes, text_eq}
use finlytic_ecosystem.Prelude.Effects.{
  Result, ok, err, Eff, pure, throw, ◌>>=◌, ◌>>◌, continue_with,
}
use finlytic_ecosystem.Mail.Encryption.{CipherPurpose, access, refresh}
use finlytic_ecosystem.Mail.Store.{
  MailAccount, MailProvider, active, reauth_required, Db, Error, unauthorized, auth_revoked,
  unrecoverable, failure, known_request, out_of_fuel, update_account,
}

pub record OauthTokens : Type 0 where
  pub access_token : Text
  pub refresh_token : Option Text
  pub expires_at : ℕ

pub record Tokens : Type 0 where
  pub encrypt : Text → CipherPurpose → Text
  pub decrypt : Text → CipherPurpose → Result Error Text
  -- `refreshAccessToken` of the provider, with the refresh token and the metadata.
  pub refresh_access_token : MailProvider → Text → Text → Result Error OauthTokens

pub record ProviderConnection : Type 0 where
  pub access_token : Text
  pub provider_account_id : Text
  pub metadata : Text

abbrev pub refresh_skew_ms : ℕ
refresh_skew_ms = 5 * 60 * 1000

abbrev pub requires_reconnection : Error
requires_reconnection = unauthorized (codes "Account requires reconnection")

-- An empty string is falsy.
abbrev truthy : Option Text → Option Text
truthy (some (a ∷ s)) = some (a ∷ s)
truthy _ = none

module _ (t : Tokens) where
  unfoldable pub mark_reauth_required : Text → Text → Eff Db Error (Unit {0})
  mark_reauth_required account_id reason =
      update_account account_id
        (λ a. record a { status = reauth_required; last_sync_error = some reason })

  abbrev refresh_token_enc_of : Option Text → Option Text → Option Text
  refresh_token_enc_of (some (c ∷ s)) old = some (t.encrypt (c ∷ s) refresh)
  refresh_token_enc_of _ old = old

  abbrev stored : OauthTokens → MailAccount → MailAccount
  stored tokens a = record a {
    access_token_enc = t.encrypt tokens.access_token access;
    access_token_expires = tokens.expires_at;
    status = active;
    last_sync_error = none;
    refresh_token_enc = refresh_token_enc_of tokens.refresh_token a.refresh_token_enc;
  }

  -- Behind the try: a revoked grant disables the account, any other error is thrown on.
  unfoldable pub store_tokens : Text → Result Error OauthTokens → Eff Db Error Text
  store_tokens account_id (err (auth_revoked m)) = do
    mark_reauth_required account_id m
    throw requires_reconnection
  store_tokens account_id (err e) = throw e
  store_tokens account_id (ok tokens) = do
    update_account account_id (stored tokens)
    pure tokens.access_token

  -- The body of the try.
  abbrev request_tokens : MailAccount → Result Error Text → Result Error OauthTokens
  request_tokens account (err e) = err e
  request_tokens account (ok refresh_token) =
      t.refresh_access_token account.provider refresh_token account.provider_metadata

  unfoldable pub refresh_tokens : MailAccount → Option Text → Eff Db Error Text
  refresh_tokens account none = do
    mark_reauth_required account.id (codes "No refresh token stored")
    throw requires_reconnection
  refresh_tokens account (some refresh_token_enc) =
      store_tokens account.id (request_tokens account (t.decrypt refresh_token_enc refresh))

  abbrev connection_of : MailAccount → Text → ProviderConnection
  connection_of account access_token = record {
    access_token = access_token;
    provider_account_id = account.provider_account_id;
    metadata = account.provider_metadata;
  }

  abbrev decrypted : Result Error Text → Eff Db Error Text
  decrypted r db = (r, db)

  -- `expires - now > skew`, with no subtraction.
  unfoldable pub get_connection : ℕ → MailAccount → Eff Db Error ProviderConnection
  get_connection now account = do
    access_token ←
        (if ltb (now + refresh_skew_ms) account.access_token_expires
          then decrypted (t.decrypt account.access_token_enc access)
          else refresh_tokens account (truthy account.refresh_token_enc))
    pure (connection_of account access_token)

  -- Nothing is left to refresh with: no refresh token is stored, or the provider reports that the grant
  -- is revoked.
  abbrev pub IsLost : MailAccount → Type 0
  IsLost account =
      (truthy account.refresh_token_enc ≡ none)
      ⊎ ((c m : Text) × (truthy account.refresh_token_enc ≡ some c)
          × (request_tokens account (t.decrypt c refresh) ≡ err (auth_revoked m)))

  -- The caller is asked to reconnect the account, and its row has the status and the reason.
  abbrev pub IsMarked : MailAccount → Text → Db → Db → Error → Type 0
  IsMarked account reason db db' e =
      (e ≡ requires_reconnection)
      × (db'
          ≡ (update_account account.id
              (λ a. record a { status = reauth_required; last_sync_error = some reason }) db).1)

  reauth_err :
      (account : MailAccount) (reason : Text) (db db' : Db) (e : Error)
      → (mark_reauth_required account.id reason >> throw {A = Text} requires_reconnection) db
        ≡ (err e, db')
      → IsMarked account reason db db' e ⊎ (db' ≡ db)
  unfolding mark_reauth_required update_account
  reauth_err account reason db db' e h =
      elim (Bool-cases (any (λ (a : MailAccount). text_eq a.id account.id) db.accounts)) [
        | inl there ↦ inl (ground (arith, there, h), ground (arith, there, h))
        | inr missing ↦ inr (ground (arith, missing, h))
      ]

  store_tokens_err :
      (account : MailAccount) (r : Result Error OauthTokens) (db db' : Db) (e : Error)
      → store_tokens account.id r db ≡ (err e, db')
      → ((m : Text) × (r ≡ err (auth_revoked m)) × IsMarked account m db db' e) ⊎ (db' ≡ db)
  unfolding store_tokens update_account
  store_tokens_err account (err (auth_revoked m)) db db' e h =
      elim (reauth_err account m db db' e h) [
        | inl marked ↦ inl (m, refl, marked)
        | inr same ↦ inr same
      ]
  store_tokens_err account (err (unrecoverable m)) db db' e h = inr (ground arith)
  store_tokens_err account (err (unauthorized m)) db db' e h = inr (ground arith)
  store_tokens_err account (err (failure m)) db db' e h = inr (ground arith)
  store_tokens_err account (err (known_request c m)) db db' e h = inr (ground arith)
  store_tokens_err account (err out_of_fuel) db db' e h = inr (ground arith)
  store_tokens_err account (ok tokens) db db' e h =
      elim (Bool-cases (any (λ (a : MailAccount). text_eq a.id account.id) db.accounts)) [
        | inl there ↦ absurd (ground (arith, there, h))
        | inr missing ↦ inr (ground (arith, missing, h))
      ]

  refresh_tokens_err :
      (account : MailAccount) (o : Option Text) (db db' : Db) (e : Error)
      → truthy account.refresh_token_enc ≡ o
      → refresh_tokens account o db ≡ (err e, db')
      → (IsLost account × ((reason : Text) × IsMarked account reason db db' e)) ⊎ (db' ≡ db)
  unfolding refresh_tokens
  refresh_tokens_err account none db db' e same h =
      elim (reauth_err account (codes "No refresh token stored") db db' e h) [
        | inl marked ↦ inl (inl same, (codes "No refresh token stored", marked))
        | inr kept ↦ inr kept
      ]
  refresh_tokens_err account (some c) db db' e same h =
      elim (store_tokens_err account (request_tokens account (t.decrypt c refresh)) db db' e h) [
        | inl (m, revoked, marked) ↦ inl (inr (c, m, same, revoked), (m, marked))
        | inr kept ↦ inr kept
      ]

  bind_pure_err :
      (m : Eff Db Error Text) (f : Text → ProviderConnection) (db db' : Db) (e : Error)
      → (m >>= λ a. pure (f a)) db ≡ (err e, db')
      → m db ≡ (err e, db')
  bind_pure_err m f db db' e h = go (m db).0 (m db).1 h
    where
      go :
          (r : Result Error Text) (d : Db)
          → continue_with (λ a. pure (f a)) r d ≡ (err e, db')
          → ◌≡◌ {A = Result Error Text × Db} (r, d) (err e, db')
      go (ok a) d k = absurd (cc)
      go (err x) d k = ground (arith, k)

  pub get_connection_err :
      (now : ℕ) (account : MailAccount) (db db' : Db) (e : Error)
      → get_connection now account db ≡ (err e, db')
      → ((ltb (now + refresh_skew_ms) account.access_token_expires ≡ false)
          × IsLost account
          × ((reason : Text) × IsMarked account reason db db' e))
        ⊎ (db' ≡ db)
  unfolding get_connection
  get_connection_err now account db db' e h =
      elim (Bool-cases (ltb (now + refresh_skew_ms) account.access_token_expires)) [
        | inl fresh ↦ inr (
            ap (λ (x : Result Error Text × Db). x.1)
              (sym (
                bind_pure_err (decrypted (t.decrypt account.access_token_enc access))
                  (connection_of account) db db' e (rw fresh at h))))
        | inr stale ↦
            elim (refresh_tokens_err account (truthy account.refresh_token_enc) db db' e refl (
              bind_pure_err (refresh_tokens account (truthy account.refresh_token_enc))
                (connection_of account) db db' e (rw stale at h))) [
                  | inl (lost, marked) ↦ inl (stale, lost, marked)
                  | inr kept ↦ inr kept
                ]
      ]
