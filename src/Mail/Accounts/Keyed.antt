-- ===== src/Mail/Accounts/Keyed.antt =====
-- Accounts that services/email-ingestion/src/accounts/accounts.service.ts connects have different keys.
use finlytic_ecosystem.Prelude.{
  ◌≤◌, ◌≡◌, refl, sym, Bool, true, Option, none, some, List, [], ◌∷◌, count, find, if◌then◌else◌,
  arith, Bool-cases, inl, inr,
}
use finlytic_ecosystem.Prelude.Text.{Text, text_eq_sound}
use finlytic_ecosystem.Prelude.Counting.{count-zero_of_find, count-map, count_congr}
use finlytic_ecosystem.Mail.Encryption.{CipherPurpose}
use finlytic_ecosystem.Mail.Store.{MailProvider, gmail, zoho, MailAccount, Db}
use finlytic_ecosystem.Mail.Providers.{OauthTokens, ProviderIdentity}
use finlytic_ecosystem.Mail.Accounts.{
  same_provider, is_key, missing_scopes, connect, upsert, created, updated, store_if_granted,
}

pub same_provider_sound : (p q : MailProvider) → same_provider p q ≡ true → p ≡ q
same_provider_sound gmail gmail h = refl
same_provider_sound zoho zoho h = refl
same_provider_sound gmail zoho h = absurd (cc)
same_provider_sound zoho gmail h = absurd (cc)

-- No two rows have the same user, provider and account at the provider.
abbrev pub IsKeyed : Db → Type 0
IsKeyed db =
    (user_id : Text) (provider : MailProvider) (provider_account_id : Text)
    → count (is_key user_id provider provider_account_id) db.accounts ≤ 1

module _ (encrypt : Text → CipherPurpose → Text) (id user_id : Text) (provider : MailProvider)
    (tokens : OauthTokens) (identity : ProviderIdentity) (metadata : Option Text) where
  abbrev key : MailAccount → Bool
  key = is_key user_id provider identity.provider_account_id

  abbrev row : MailAccount
  row = created encrypt id user_id provider tokens identity metadata

  abbrev change : MailAccount → MailAccount
  change = updated encrypt tokens identity metadata

  same_key :
      (u : Text) (q : MailProvider) (i : Text) (b : MailAccount)
      → is_key u q i (if key b then change b else b) ≡ is_key u q i b
  same_key u q i b = elim (Bool-cases (key b)) [
    | inl mine ↦ rw mine refl
    | inr other ↦ rw other refl
  ]

  new_count :
      (u : Text) (q : MailProvider) (i : Text) (xs : List MailAccount)
      → find key xs ≡ none
      → count (is_key u q i) xs ≤ 1
      → count (is_key u q i) (row ∷ xs) ≤ 1
  new_count u q i xs missing h = elim (Bool-cases (is_key u q i row)) [
    | inl mine ↦
        let user : user_id ≡ u = text_eq_sound user_id u (ground (arith, mine)) in
        let prov : provider ≡ q = same_provider_sound provider q (ground (arith, mine)) in
        let acct : identity.provider_account_id ≡ i =
          text_eq_sound identity.provider_account_id i (ground (arith, mine)) in
        let zero_here : count (is_key u q i) xs ≡ 0 =
          rw (sym user, sym prov, sym acct) (count-zero_of_find key xs missing) in
        rw mine (omega (arith, zero_here))
    | inr other ↦ rw other h
  ]

  upsert-IsKeyed :
      (o : Option MailAccount) (db : Db)
      → find key db.accounts ≡ o
      → IsKeyed db
      → IsKeyed (upsert encrypt key row change o db).1
  unfolding upsert
  upsert-IsKeyed none db missing h u q i = new_count u q i db.accounts missing (h u q i)
  upsert-IsKeyed (some a) db found h u q i =
      rw
        (
          count-map (is_key u q i) (λ (b : MailAccount). if key b then change b else b) db.accounts,
          count_congr (λ b. is_key u q i (if key b then change b else b)) (is_key u q i) db.accounts
              (same_key u q i),
        )
        (h u q i)

  granted-IsKeyed :
      (missing : List Text) (db : Db)
      → IsKeyed db
      → IsKeyed (store_if_granted encrypt missing id user_id provider tokens identity metadata db).1
  granted-IsKeyed [] db h = upsert-IsKeyed (find key db.accounts) db refl h
  granted-IsKeyed (scope ∷ scopes) db h = h

  -- Connecting a mailbox keeps the accounts apart: no two rows have the same user, provider and account at
  -- the provider, since a mailbox that is connected again is updated.
  pub connect-IsKeyed :
      (db : Db)
      → IsKeyed db
      → IsKeyed (connect encrypt id user_id provider tokens identity metadata db).1
  unfolding connect
  connect-IsKeyed db h = granted-IsKeyed (missing_scopes provider tokens.scopes) db h
