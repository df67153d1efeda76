-- ===== src/Mail/OauthState/SingleUse.antt =====
-- The states of services/email-ingestion/src/oauth/oauth-state.service.ts: each is redeemed at most
-- once, and one that was issued here can be redeemed.
use finlytic_ecosystem.Prelude.{
  ℕ, ◌+◌, ◌≤◌, ◌<◌, ◌/◌, ◌≡◌, refl, sym, Bool, true, false, ◌&&◌, ◌||◌, Option, none, some, List,
  [], ◌∷◌, ltb, ◌==◌, if◌then◌else◌, arith, any, Bool-cases, inl, inr, ◌⊎◌,
}
use finlytic_ecosystem.Prelude.Text.{Text, text_eq, text_eq_refl, text_eq_iff}
use finlytic_ecosystem.Prelude.Split.{Parts, split, Lacks, split-append, split-Lacks}
use finlytic_ecosystem.Prelude.Effects.{Result, ok, err}
use finlytic_ecosystem.Mail.OauthState.{
  StateClaims, Codec, StateError, Redeemed, forget, has_nonce, is_empty, issue, verify_claims,
  verify_parts, verify, state_ttl_seconds,
}

-- The entry that redeeming a state leaves.
abbrev has_entry : StateClaims → Redeemed → Bool
has_entry c m = any (λ e. text_eq e.0 c.nonce && e.1 == c.exp) m

-- The state of these claims can no longer be redeemed: it is remembered, or has expired.
abbrev IsUsed : StateClaims → ℕ → Redeemed → Type 0
IsUsed c now m = (has_entry c m ≡ true) ⊎ (c.exp < now)

forget-IsUsed :
    (c : StateClaims) (now : ℕ) (m : Redeemed) → has_entry c m ≡ true → IsUsed c now (forget now m)
unfolding forget
forget-IsUsed c now [] h = absurd (cc)
forget-IsUsed c now ((n, e) ∷ m) h = ground (arith, forget-IsUsed c now m)

has_nonce-has_entry :
    (c : StateClaims) (m : Redeemed) → has_entry c m ≡ true → has_nonce c.nonce m ≡ true
has_nonce-has_entry c [] h = cc
has_nonce-has_entry c ((n, e) ∷ m) h = ground (arith, has_nonce-has_entry c m)

forget-has_nonce :
    (now : ℕ) (nonce : Text) (m : Redeemed)
    → has_nonce nonce m ≡ false
    → has_nonce nonce (forget now m) ≡ false
unfolding forget
forget-has_nonce now nonce [] h = refl
forget-has_nonce now nonce ((n, e) ∷ m) h = ground (arith, forget-has_nonce now nonce m)

abbrev succeeded : Result StateError Text → ℕ
succeeded (ok u) = 1
succeeded (err e) = 0

module _ (codec : Codec) where
  -- An attempt on whatever state, no earlier than the last, forgets no use.
  verify_claims-IsUsed :
      (c : StateClaims) (t now : ℕ) (d : Option StateClaims) (m : Redeemed)
      → t ≤ now
      → IsUsed c t m
      → IsUsed c now (verify_claims codec now d m).1
  unfolding verify_claims
  verify_claims-IsUsed c t now d m later (inr expired) = inr (omega arith)
  verify_claims-IsUsed c t now none m later (inl used) = inl used
  verify_claims-IsUsed c t now (some e) m later (inl used) =
      ground (arith, forget-IsUsed c now m used)

  verify-IsUsed :
      (c : StateClaims) (t now : ℕ) (p : Parts) (m : Redeemed)
      → t ≤ now
      → IsUsed c t m
      → IsUsed c now (verify_parts codec now p m).1
  unfolding verify_parts
  verify-IsUsed c t now (payload, []) m later used = ground arith
  verify-IsUsed c t now (payload, signature ∷ others) m later used =
      ground (arith, verify_claims-IsUsed c t now (codec.decode_claims payload) m later used)

  used_refused :
      (c : StateClaims) (t now : ℕ) (p : Parts) (m : Redeemed)
      → t ≤ now
      → codec.decode_claims p.0 ≡ some c
      → IsUsed c t m
      → succeeded (verify_parts codec now p m).0 ≡ 0
  unfolding verify_parts verify_claims
  used_refused c t now (payload, []) m later d used = refl
  used_refused c t now (payload, signature ∷ others) m later d (inr expired) = rw d (ground arith)
  used_refused c t now (payload, signature ∷ others) m later d (inl used) =
      rw d (elim (forget-IsUsed c now m used) [
        | inr expired ↦ ground (arith, expired)
        | inl kept ↦ ground (arith, has_nonce-has_entry c (forget now m) kept)
      ])

  success_claims :
      (now : ℕ) (d : Option StateClaims) (m : Redeemed)
      → (succeeded (verify_claims codec now d m).0 ≡ 0)
        ⊎ ((c : StateClaims) × (d ≡ some c) × IsUsed c now (verify_claims codec now d m).1)
  unfolding verify_claims
  success_claims now none m = inl refl
  success_claims now (some c) m = elim (Bool-cases (ltb c.exp now)) [
    | inl expired ↦ inl (rw expired refl)
    | inr valid ↦ elim (Bool-cases (has_nonce c.nonce (forget now m))) [
      | inl used ↦ inl (rw (valid, used) refl)
      | inr new ↦ inr (c, refl, inl (ground (arith, valid, new, text_eq_refl c.nonce)))
    ]
  ]

  success-IsUsed :
      (now : ℕ) (p : Parts) (m : Redeemed)
      → (succeeded (verify_parts codec now p m).0 ≡ 0)
        ⊎ ((c : StateClaims) × (codec.decode_claims p.0 ≡ some c)
            × IsUsed c now (verify_parts codec now p m).1)
  unfolding verify_parts
  success-IsUsed now (payload, []) m = inl refl
  success-IsUsed now (payload, signature ∷ others) m =
      elim (Bool-cases (is_empty payload || is_empty signature)) [
        | inl empty ↦ inl (rw empty refl)
        | inr full ↦ elim (Bool-cases (text_eq signature (codec.sign payload))) [
          | inr forged ↦ inl (rw (full, forged) refl)
          | inl genuine ↦ rw (full, genuine) (success_claims now (codec.decode_claims payload) m)
        ]
      ]

  succeeded_le : (r : Result StateError Text) → succeeded r ≤ 1
  succeeded_le (ok u) = omega arith
  succeeded_le (err e) = omega arith

pub record Attempt : Type 0 where
  pub now_ms : ℕ
  pub state : Text

-- The clock does not run backwards.
abbrev pub Ascending : ℕ → List Attempt → Type 0
Ascending t [] = Unit
Ascending t (a ∷ rest) = (t ≤ a.now_ms) × Ascending a.now_ms rest

-- How often a state is redeemed in a sequence of attempts on whatever states.
unfoldable pub redemptions : Codec → Text → List Attempt → Redeemed → ℕ
redemptions codec s [] m = 0
redemptions codec s (a ∷ rest) m =
    (if text_eq a.state s then succeeded (verify codec a.now_ms a.state m).0 else 0)
    + redemptions codec s rest (verify codec a.now_ms a.state m).1

module _ (codec : Codec) (s : Text) where
  redemptions_used :
      (c : StateClaims) (t : ℕ) (rest : List Attempt) (m : Redeemed)
      → codec.decode_claims (split b'.' s).0 ≡ some c
      → Ascending t rest
      → IsUsed c (t / 1000) m
      → redemptions codec s rest m ≡ 0
  unfolding redemptions verify
  redemptions_used c t [] m d ascending used = refl
  redemptions_used c t (a ∷ rest) m d (later, ascending) used =
      let ih = redemptions_used c a.now_ms rest (verify codec a.now_ms a.state m).1 d ascending (
        verify-IsUsed codec c (t / 1000) (a.now_ms / 1000) (split b'.' a.state) m (omega arith)
          used) in
      elim (Bool-cases (text_eq a.state s)) [
        | inr other ↦ rw other (omega (arith, ih))
        | inl same ↦
            let here : codec.decode_claims (split b'.' a.state).0 ≡ some c =
              rw ((text_eq_iff a.state s).0 same) d in
            rw same (
              omega (
                arith,
                ih,
                used_refused codec c (t / 1000) (a.now_ms / 1000) (split b'.' a.state) m
                    (omega arith) here used,
              ))
      ]

-- While the clock does not run backwards, a state is redeemed at most once in any sequence of
-- attempts, whatever other states are tried between.
pub redemptions_le :
    (codec : Codec) (s : Text) (t : ℕ) (rest : List Attempt) (m : Redeemed)
    → Ascending t rest
    → redemptions codec s rest m ≤ 1
unfolding redemptions verify
redemptions_le codec s t [] m ascending = omega arith
redemptions_le codec s t (a ∷ rest) m (later, ascending) = elim (Bool-cases (text_eq a.state s)) [
  | inr other ↦ rw other (
      omega
        (arith, redemptions_le codec s a.now_ms rest (verify codec a.now_ms a.state m).1 ascending))
  | inl same ↦ elim (success-IsUsed codec (a.now_ms / 1000) (split b'.' a.state) m) [
    | inl failed ↦
        rw (same, failed)
          (omega (
            arith,
            redemptions_le codec s a.now_ms rest (verify codec a.now_ms a.state m).1 ascending,
          ))
    | inr (c, d, used) ↦
        let there : codec.decode_claims (split b'.' s).0 ≡ some c =
          rw (sym ((text_eq_iff a.state s).0 same)) d in
        rw same (
          omega (
            arith,
            succeeded_le codec (verify codec a.now_ms a.state m).0,
            redemptions_used codec s c a.now_ms rest (verify codec a.now_ms a.state m).1 there
                ascending used,
          ))
  ]
]

-- What the format relies on for the claims of a state: base64url has no ".", a JSON object and a
-- digest are not empty, and parsing gives back what was printed.
pub record IsFaithful (codec : Codec) (c : StateClaims) : Type 0 where
  pub payload_no_dot : Lacks b'.' (codec.encode_claims c)
  pub payload_some : is_empty (codec.encode_claims c) ≡ false
  pub signature_no_dot : (s : Text) → Lacks b'.' (codec.sign s)
  pub signature_some : (s : Text) → is_empty (codec.sign s) ≡ false
  pub decoded : codec.decode_claims (codec.encode_claims c) ≡ some c

-- A state that was issued here is redeemed for its user for ten minutes, where its nonce has not been
-- redeemed and the codec reads its claims back.
pub verify-issue :
    (codec : Codec) (now_ms later_ms : ℕ) (nonce user_id : Text) (m : Redeemed)
    → IsFaithful codec
        (record { user_id = user_id; nonce = nonce; exp = now_ms / 1000 + state_ttl_seconds })
    → later_ms / 1000 ≤ now_ms / 1000 + 600
    → has_nonce nonce m ≡ false
    → (verify codec later_ms (issue codec now_ms nonce user_id) m).0 ≡ ok user_id
unfolding verify issue verify_parts verify_claims
verify-issue codec now_ms later_ms nonce user_id m f soon new =
    rw
      (
        split-append b'.' (codec.encode_claims c) (codec.sign (codec.encode_claims c))
            f.payload_no_dot,
        split-Lacks b'.' (codec.sign (codec.encode_claims c))
            (f.signature_no_dot (codec.encode_claims c)),
        f.payload_some,
        f.signature_some (codec.encode_claims c),
        text_eq_refl (codec.sign (codec.encode_claims c)),
        f.decoded,
      )
      (ground (arith, forget-has_nonce (later_ms / 1000) nonce m new))
  where
    c : StateClaims
    c = record { user_id = user_id; nonce = nonce; exp = now_ms / 1000 + state_ttl_seconds }
