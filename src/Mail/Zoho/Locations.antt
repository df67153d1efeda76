-- ===== src/Mail/Zoho/Locations.antt =====
-- The allowlist of the data centres in services/email-ingestion/src/mail/providers/zoho.provider.ts.
use finlytic_ecosystem.Prelude.{
  ◌≡◌, refl, ap, true, find-some-holds, ◌∙◌, ◌⊎◌, inl, inr, Bool, Option, none, some, List, [], ◌∷◌,
  find, arith, Bool-cases, Option-cases,
}
use finlytic_ecosystem.Prelude.Text.{Text, text_eq, text_eq_iff}
use finlytic_ecosystem.Prelude.Effects.{ok}
use finlytic_ecosystem.Mail.Zoho.{
  Platform, Centre, data_centres, centre_of, is_inherited, resolve_location, centre_or_refuse,
}

abbrev pub IsAmong : Centre → List Centre → Type 0
IsAmong c [] = ⊥
IsAmong c (d ∷ ds) = (c ≡ d) ⊎ IsAmong c ds

found-IsAmong :
    (q : Centre → Bool) (ds : List Centre) (c : Centre) → find q ds ≡ some c → IsAmong c ds
found-IsAmong q [] c h = absurd (cc)
found-IsAmong q (d ∷ ds) c h = elim (Bool-cases (q d)) [
  | inl here ↦ inl (ground (arith, here, h))
  | inr later ↦ inr (found-IsAmong q ds c (rw later at h))
]

-- A row of the table that has the key, or no host at all, under a key that every object inherits.
abbrev pub IsAllowed : Text → Centre → Type 0
IsAllowed key c =
    (IsAmong c data_centres × (c.key ≡ key))
    ⊎ ((is_inherited key ≡ true) × (c.accounts ≡ none) × (c.mail ≡ none))

centre-IsAllowed : (key : Text) (c : Centre) → centre_of key ≡ some c → IsAllowed key c
unfolding centre_of text_eq
centre-IsAllowed key c h =
    elim (Option-cases (find (λ (d : Centre). text_eq d.key key) data_centres)) [
      | inl missing ↦ elim (Bool-cases (is_inherited key)) [
        | inl inherited ↦ inr (
          inherited,
          ground (arith, missing, inherited, h),
          ground (arith, missing, inherited, h),
        )
        | inr unknown ↦ absurd (cc (rw (missing, unknown) at h))
      ]
      | inr (d, found) ↦
          let same : d ≡ c = cc (rw found at h) in
          let here = found ∙ ap some same in
          inl (
            found-IsAmong (λ (x : Centre). text_eq x.key key) data_centres c here,
            (text_eq_iff c.key key).0
                (find-some-holds (λ (x : Centre). text_eq x.key key) data_centres c here),
          )
    ]

module _ (p : Platform) where
  accepted-IsAllowed :
      (location key : Text) (o : Option Centre) (c : Centre)
      → centre_of key ≡ o
      → centre_or_refuse location o ≡ ok c
      → IsAllowed key c
  accepted-IsAllowed location key none c found h = absurd (cc)
  accepted-IsAllowed location key (some d) c found h = centre-IsAllowed key c (found ∙ cc)

  -- A location that is accepted is given, and in lower case it is the key of a row of the table, which is
  -- the result, or it is a name that every object inherits, and the result has no host at all.
  pub resolve_location-IsAllowed :
      (location : Option Text) (c : Centre)
      → resolve_location p location ≡ ok c
      → (s : Text) × (location ≡ some s) × IsAllowed (p.to_lower_case s) c
  unfolding resolve_location
  resolve_location-IsAllowed none c h = absurd (cc)
  resolve_location-IsAllowed (some []) c h = absurd (cc)
  resolve_location-IsAllowed (some (a ∷ s)) c h =
      (a ∷ s, refl, accepted-IsAllowed (a ∷ s) (p.to_lower_case (a ∷ s)) _ c refl h)
