-- ===== src/Gateway/RateLimit/Rules.antt =====
-- The rule table of services/gateway/src/rate-limit.ts: ids have no "|", and an id determines the
-- limit.
use finlytic_ecosystem.Prelude.{
  ℕ, ◌≤◌, ◌≡◌, refl, Bool, List, [], ◌∷◌, arith, find, All, Bool-cases, inl, inr, or_else,
}
use finlytic_ecosystem.Prelude.Text.{Text, text_eq}
use finlytic_ecosystem.Prelude.Split.{Lacks}
use finlytic_ecosystem.Gateway.RateLimit.{Rule, rules, default_rule, rule_matches, rule_for}

-- What a test finds has what every element has.
find-All {ℓ κ} :
    {A : Type ℓ} (P : A → Type κ) (p : A → Bool) (xs : List A) (d : A)
    → All P xs
    → P d
    → P (or_else (find p xs) d)
find-All P p [] d h k = k
find-All P p (x ∷ xs) d (h, hs) k = elim (Bool-cases (p x)) [
  | inl y ↦ rw y h
  | inr n ↦ rw n (find-All P p xs d hs k)
]

-- The limit that the table gives to an id.
pub limit_of : Text → ℕ
limit_of id = (or_else (find (λ r. text_eq r.id id) rules) default_rule).max

abbrev IsListed : Rule → Type 0
IsListed r = Lacks b'|' r.id × (1 ≤ r.max) × (r.max ≡ limit_of r.id)

rule_for-IsListed : (method pathname : Text) → IsListed (rule_for method pathname)
unfolding rule_for limit_of text_eq
rule_for-IsListed method pathname =
    find-All IsListed (rule_matches method pathname) rules default_rule
      (
        (omega arith, omega arith, refl),
        (
          (omega arith, omega arith, refl),
          (
            (omega arith, omega arith, refl),
            ((omega arith, omega arith, refl), ((omega arith, omega arith, refl), tt)),
          ),
        ),
      )
      (omega arith, omega arith, refl)

pub rule_for_facts :
    (method pathname : Text)
    → Lacks b'|' (rule_for method pathname).id
      × (1 ≤ (rule_for method pathname).max)
      × ((rule_for method pathname).max ≡ limit_of (rule_for method pathname).id)
rule_for_facts method pathname = rule_for-IsListed method pathname
