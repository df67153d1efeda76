-- ===== src/Mail/Accounts/Owner.antt =====
-- Whose account a redirect to services/email-ingestion/src/oauth/oauth.controller.ts connects.
use finlytic_ecosystem.Prelude.{
  ℕ, ◌≡◌, refl, sym, ap, ◌∙◌, Bool, true, Option, none, some, List, [], ◌∷◌, find, if◌then◌else◌,
  arith, Bool-cases, inl, inr, find-some-holds,
}
use finlytic_ecosystem.Prelude.Text.{Text, text_eq_sound, text_eq_refl}
use finlytic_ecosystem.Prelude.Effects.{Result, ok, err, bind-eq-ok}
use finlytic_ecosystem.Prelude.Counting.{find-map}
use finlytic_ecosystem.Mail.Encryption.{CipherPurpose}
use finlytic_ecosystem.Mail.Store.{MailProvider, gmail, zoho, MailAccount, Db, Error}
use finlytic_ecosystem.Mail.Sync.{truthy}
use finlytic_ecosystem.Mail.Providers.{OauthTokens, ProviderIdentity, ConnectResult}
use finlytic_ecosystem.Mail.OauthState.{Codec, StateError, Redeemed, verify}
use finlytic_ecosystem.Mail.Accounts.{
  HttpException, same_provider, is_key, missing_scopes, connect, upsert, created, updated,
  store_if_granted, State, CallbackQuery, callback, connect_with, resolve, resolved,
  unless_declined, code_and_state, on_redeemed, of_provider_result,
}
use finlytic_ecosystem.Mail.Accounts.Keyed.{same_provider_sound}

-- The account is the user's, has every scope that its provider needs, and is the row of its key.
abbrev pub IsConnected : Text → MailAccount → Db → Type 0
IsConnected user_id account db =
    (account.user_id ≡ user_id)
    × (missing_scopes account.provider account.scopes ≡ [])
    × (find (is_key account.user_id account.provider account.provider_account_id) db.accounts
        ≡ some account)

same_provider_refl : (p : MailProvider) → same_provider p p ≡ true
same_provider_refl gmail = refl
same_provider_refl zoho = refl

module _ (encrypt : Text → CipherPurpose → Text) (id user_id : Text) (provider : MailProvider)
    (tokens : OauthTokens) (identity : ProviderIdentity) (metadata : Option Text) where
  abbrev key : MailAccount → Bool
  key = is_key user_id provider identity.provider_account_id

  abbrev row : MailAccount
  row = created encrypt id user_id provider tokens identity metadata

  abbrev change : MailAccount → MailAccount
  change = updated encrypt tokens identity metadata

  row-key : key row ≡ true
  row-key = ground (
    arith,
    text_eq_refl user_id,
    same_provider_refl provider,
    text_eq_refl identity.provider_account_id,
  )

  change-key : (b : MailAccount) → key (if key b then change b else b) ≡ key b
  change-key b = elim (Bool-cases (key b)) [ inl mine ↦ rw mine mine | inr other ↦ rw other other ]

  described :
      (account : MailAccount) (db : Db)
      → missing_scopes provider tokens.scopes ≡ []
      → key account ≡ true
      → account.scopes ≡ tokens.scopes
      → find key db.accounts ≡ some account
      → IsConnected user_id account db
  described account db granted mine same there =
      let user : account.user_id ≡ user_id =
        text_eq_sound account.user_id user_id (ground (arith, mine)) in
      let prov : account.provider ≡ provider =
        same_provider_sound account.provider provider (ground (arith, mine)) in
      let acct : account.provider_account_id ≡ identity.provider_account_id =
        text_eq_sound account.provider_account_id identity.provider_account_id
          (ground (arith, mine)) in
      (
        user,
        rw (prov, same) granted,
        ap (λ u. find (is_key u account.provider account.provider_account_id) db.accounts) user
            ∙ ap (λ q. find (is_key user_id q account.provider_account_id) db.accounts) prov
            ∙ ap (λ i. find (is_key user_id provider i) db.accounts) acct
            ∙ there,
      )

  upsert-IsConnected :
      (o : Option MailAccount) (account : MailAccount) (db db' : Db)
      → missing_scopes provider tokens.scopes ≡ []
      → find key db.accounts ≡ o
      → upsert encrypt key row change o db ≡ (ok account, db')
      → IsConnected user_id account db'
  unfolding upsert
  upsert-IsConnected none account db db' granted missing h =
      let same : row ≡ account = cc in
      let there : find key db'.accounts ≡ some row =
        ap (λ (x : Result HttpException MailAccount × Db). find key x.1.accounts) (sym h)
        ∙ rw row-key refl in
      described account db' granted (ap key (sym same) ∙ row-key)
        (ap (λ (a : MailAccount). a.scopes) (sym same)) (there ∙ ap some same)
  upsert-IsConnected (some a) account db db' granted found h =
      let same : change a ≡ account = cc in
      let mine : key a ≡ true = find-some-holds key db.accounts a found in
      let there : find key db'.accounts ≡ some (change a) =
        ap (λ (x : Result HttpException MailAccount × Db). find key x.1.accounts) (sym h)
        ∙ find-map key (λ (b : MailAccount). if key b then change b else b) db.accounts change-key
        ∙ rw (found, mine) refl in
      described account db' granted (ap key (sym same) ∙ mine)
        (ap (λ (a : MailAccount). a.scopes) (sym same)) (there ∙ ap some same)

  granted-IsConnected :
      (missing : List Text) (account : MailAccount) (db db' : Db)
      → missing_scopes provider tokens.scopes ≡ missing
      → store_if_granted encrypt missing id user_id provider tokens identity metadata db
        ≡ (ok account, db')
      → IsConnected user_id account db'
  granted-IsConnected [] account db db' granted h =
      upsert-IsConnected (find key db.accounts) account db db' granted refl h
  granted-IsConnected (scope ∷ scopes) account db db' granted h = absurd (cc)

  pub connect-IsConnected :
      (account : MailAccount) (db db' : Db)
      → connect encrypt id user_id provider tokens identity metadata db ≡ (ok account, db')
      → IsConnected user_id account db'
  unfolding connect
  connect-IsConnected account db db' h =
      granted-IsConnected (missing_scopes provider tokens.scopes) account db db' refl h

abbrev db_part : Result HttpException MailAccount × State → Result HttpException MailAccount × Db
db_part x = (x.0, x.1.1)

module _ {A : Type 0} where
  on_redeemed-ok :
      (m : Redeemed → Result StateError A × Redeemed) (a : A) (s t : State)
      → on_redeemed m s ≡ (ok a, t)
      → m s.0 ≡ (ok a, t.0)
  on_redeemed-ok m a s t h =
      go (m s.0).0 (m s.0).1 refl (ap (λ (x : Result HttpException A × State). x.0) h)
        (ap (λ (x : Result HttpException A × State). x.1.0) h)
    where
      go :
          (r : Result StateError A) (d : Redeemed)
          → m s.0 ≡ (r, d)
          → ◌≡◌ {A = Result HttpException A}
              (elim r [ ok a ↦ ok a | err e ↦ err (HttpException.of_state e) ])
              (ok a)
          → d ≡ t.0
          → m s.0 ≡ (ok a, t.0)
      go (ok b) d e k same = cc (e, k, same)
      go (err x) d e k same = absurd (cc)

  of_provider_result-ok :
      (r : Result Error A) (a : A) (s t : State) → of_provider_result r s ≡ (ok a, t) → s ≡ t
  of_provider_result-ok (ok b) a s t h = ap (λ (x : Result HttpException A × State). x.1) h
  of_provider_result-ok (err e) a s t h = absurd (cc)

module _ (codec : Codec) (to_upper_case : Text → Text) (encrypt : Text → CipherPurpose → Text)
    (exchange_code : MailProvider → Text → Option Text → Result Error ConnectResult)
    (metadata_of : Text → Text) where
  -- The state that was presented is redeemed for the owner of the account.
  abbrev pub IsRedeemed : ℕ → Option Text → Redeemed → MailAccount → State → Type 0
  IsRedeemed now state redeemed account after =
      (text : Text) × (state ≡ some text)
      × (verify codec now text redeemed ≡ (ok account.user_id, after.0))
      × IsConnected account.user_id account after.1

  connect_with-IsRedeemed :
      (now : ℕ) (id : Text) (provider : MailProvider) (code text : Text) (location : Option Text)
      (account : MailAccount) (before after : State)
      → connect_with codec to_upper_case encrypt exchange_code metadata_of now id provider code text
          location before
        ≡ (ok account, after)
      → (verify codec now text before.0 ≡ (ok account.user_id, after.0))
        × IsConnected account.user_id account after.1
  unfolding connect_with
  connect_with-IsRedeemed now id provider code text location account before after h =
      let (user, s1, e1, rest1) = bind-eq-ok (on_redeemed (verify codec now text)) _ h in
      let (result, s2, e2, rest2) =
        bind-eq-ok (of_provider_result (exchange_code provider code location)) _ rest1 in
      let redeemed = on_redeemed-ok (verify codec now text) user before s1 e1 in
      let provided : s1 ≡ s2 =
        of_provider_result-ok (exchange_code provider code location) result s1 s2 e2 in
      let kept : s2.0 ≡ after.0 =
        ap (λ (x : Result HttpException MailAccount × State). x.1.0) rest2 in
      let (owner, granted, there) =
        connect-IsConnected encrypt id user provider result.tokens result.identity _ account s2.1
          after.1 (ap db_part rest2) in
      let same : s1.0 ≡ after.0 = ap (λ (x : State). x.0) provided ∙ kept in
      (cc (redeemed, owner, same), (refl, granted, there))

  -- An account is connected only by a redirect whose state verifies, and only for the user who asked for
  -- that state: it is stored as that user's, with every scope that its provider needs, and the state is
  -- redeemed for that user.
  pub callback-IsRedeemed :
      (now : ℕ) (id slug : Text) (query : CallbackQuery) (account : MailAccount)
      (before after : State)
      → callback codec to_upper_case encrypt exchange_code metadata_of now id slug query before
        ≡ (ok account, after)
      → IsRedeemed now (truthy query.state) before.0 account after
  unfolding callback
  callback-IsRedeemed now id slug query account before after h =
      of_slug (resolve to_upper_case slug) h
    where
      of_query :
          (provider : MailProvider) (code state : Option Text)
          → code_and_state codec to_upper_case encrypt exchange_code metadata_of now id provider
              code state query.location before
            ≡ (ok account, after)
          → IsRedeemed now state before.0 account after
      of_query provider (some code) (some text) k =
          let (verified, connected) =
            connect_with-IsRedeemed now id provider code text query.location account before after
              k in
          (text, refl, verified, connected)
      of_query provider none state k = absurd (cc)
      of_query provider (some code) none k = absurd (cc)

      of_error :
          (provider : MailProvider) (error : Option Text)
          → unless_declined codec to_upper_case encrypt exchange_code metadata_of now id query
              provider error before
            ≡ (ok account, after)
          → IsRedeemed now (truthy query.state) before.0 account after
      of_error provider none k = of_query provider (truthy query.code) (truthy query.state) k
      of_error provider (some error) k = absurd (cc)

      of_slug :
          (r : Result HttpException MailProvider)
          → resolved codec to_upper_case encrypt exchange_code metadata_of now id query r before
            ≡ (ok account, after)
          → IsRedeemed now (truthy query.state) before.0 account after
      of_slug (err e) k = absurd (cc)
      of_slug (ok provider) k = of_error provider (truthy query.error) k
