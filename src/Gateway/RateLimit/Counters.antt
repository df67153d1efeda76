-- ===== src/Gateway/RateLimit/Counters.antt =====
-- The counters of services/gateway/src/rate-limit.ts as a map: what `set` and `prune` do to `get`.
use finlytic_ecosystem.Prelude.{
  ℕ, ◌≡◌, refl, Option, none, some, [], ◌∷◌, ◌++◌, if◌then◌else◌, arith,
}
use mathlib.Core.Path.{subst}
use finlytic_ecosystem.Prelude.Text.{Text, text_eq, text_eq_iff}
use finlytic_ecosystem.Prelude.Split.{Lacks}
use finlytic_ecosystem.Gateway.RateLimit.{Counter, Counters, get, set, key_of, has_passed, prune}

pub get-set :
    (k j : Text) (c : Counter) (m : Counters)
    → get j (set k c m) ≡ (if text_eq k j then some c else get j m)
unfolding get set
get-set k j c [] = refl
get-set k j c ((i, d) ∷ m) =
    ground (arith, text_eq_iff i k, text_eq_iff i j, text_eq_iff k j, get-set k j c m)

-- Keys are unique.
abbrev pub HasUniqueKeys : Counters → Type 0
HasUniqueKeys [] = Unit
HasUniqueKeys ((k, c) ∷ m) = (get k m ≡ none) × HasUniqueKeys m

pub set-HasUniqueKeys :
    (k : Text) (c : Counter) (m : Counters) → HasUniqueKeys m → HasUniqueKeys (set k c m)
unfolding get set
set-HasUniqueKeys k c [] u = (refl, tt)
set-HasUniqueKeys k c ((j, d) ∷ m) (missing, u) =
    ground (arith, get-set k j c m, text_eq_iff j k, text_eq_iff k j, set-HasUniqueKeys k c m u)

get-prune-none :
    (window_ms t : ℕ) (k : Text) (m : Counters)
    → get k m ≡ none
    → get k (prune window_ms t m) ≡ none
unfolding get prune
get-prune-none window_ms t k [] h = refl
get-prune-none window_ms t k ((j, d) ∷ m) h = ground (arith, get-prune-none window_ms t k m)

abbrev pub kept : ℕ → ℕ → Option Counter → Option Counter
kept window_ms t none = none
kept window_ms t (some c) = if has_passed window_ms t c then none else some c

pub get-prune :
    (window_ms t : ℕ) (k : Text) (m : Counters)
    → HasUniqueKeys m
    → get k (prune window_ms t m) ≡ kept window_ms t (get k m)
unfolding get prune
get-prune window_ms t k [] u = refl
get-prune window_ms t k ((j, d) ∷ m) (missing, u) =
    ground
      (arith, get-prune window_ms t k m u, text_eq_iff j k, get-prune-none window_ms t j m missing)

not-Lacks-append : (c : ℕ) (s r : Text) → ¬ Lacks c (s ++ (c ∷ r))
not-Lacks-append c [] r h = h.0 refl
not-Lacks-append c (a ∷ s) r h = not-Lacks-append c s r h.1

-- No rule id has a "|", so a key determines its client and its rule, whatever the client's address.
pub key_of-injective :
    (c c' i i' : Text)
    → Lacks b'|' i
    → Lacks b'|' i'
    → key_of c i ≡ key_of c' i'
    → (c ≡ c') × (i ≡ i')
key_of-injective [] [] i i' h h' e = (refl, ground arith)
key_of-injective [] (a ∷ c') i i' h h' e =
    let tail : i ≡ c' ++ (b'|' ∷ i') = cc (e) in
    absurd (not-Lacks-append b'|' c' i' (subst (Lacks b'|') tail h))
key_of-injective (a ∷ c) [] i i' h h' e =
    let tail : i' ≡ c ++ (b'|' ∷ i) = cc (e) in
    absurd (not-Lacks-append b'|' c i (subst (Lacks b'|') tail h'))
key_of-injective (a ∷ c) (b ∷ c') i i' h h' e = ground (arith, key_of-injective c c' i i' h h')
