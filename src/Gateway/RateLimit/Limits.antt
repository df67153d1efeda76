-- ===== src/Gateway/RateLimit/Limits.antt =====
-- What the limiter of services/gateway/src/rate-limit.ts promises: at most the rule's limit in a
-- window, separate counts for separate clients, and a pruning that nobody notices.
use finlytic_ecosystem.Prelude.{
  ℕ, ◌+◌, ◌≤◌, ◌<◌, ◌≡◌, ◌≢◌, refl, ap, ◌∙◌, sym, true, false, Option, none, some, List, [], ◌∷◌,
  leb, if◌then◌else◌, arith, All, Bool-cases, inl, inr, min,
}
use finlytic_ecosystem.Prelude.Text.{Text, text_eq, text_eq_iff, text_eq_refl}
use finlytic_ecosystem.Gateway.RateLimit.{
  Counter, Counters, Decision, get, key_of, prune, check, decide, rule_for,
}
use finlytic_ecosystem.Gateway.RateLimit.Counters.{
  get-set, HasUniqueKeys, get-prune, kept, key_of-injective,
}
use finlytic_ecosystem.Gateway.RateLimit.Rules.{limit_of, rule_for_facts}

pub record Hit : Type 0 where
  pub client : Text
  pub method : Text
  pub pathname : Text
  pub now : ℕ

abbrev pub hit_key : Hit → Text
hit_key h = key_of h.client (rule_for h.method h.pathname).id

abbrev pub hit_limit : Hit → ℕ
hit_limit h = (rule_for h.method h.pathname).max

abbrev pub check_hit : ℕ → Hit → Counters → Decision × Counters
check_hit window_ms h m = check window_ms h.client h.method h.pathname h.now m

-- Equal keys are under one limit.
hit_limit-eq : (h g : Hit) → hit_key h ≡ hit_key g → hit_limit h ≡ hit_limit g
hit_limit-eq h g e =
    let a = rule_for_facts h.method h.pathname in
    let b = rule_for_facts g.method g.pathname in
    a.2
    ∙ ap limit_of
        (key_of-injective h.client g.client (rule_for h.method h.pathname).id
          (rule_for g.method g.pathname).id a.0 b.0 e).1
    ∙ sym b.2

-- How many of the hits of a key are let through, and how many there are.
unfoldable pub allowed_hits : ℕ → Text → List Hit → Counters → ℕ
allowed_hits window_ms k [] m = 0
allowed_hits window_ms k (h ∷ hs) m =
    (if text_eq (hit_key h) k then if (check_hit window_ms h m).0.allowed then 1 else 0 else 0)
    + allowed_hits window_ms k hs (check_hit window_ms h m).1

unfoldable pub count_hits : Text → List Hit → ℕ
count_hits k [] = 0
count_hits k (h ∷ hs) = (if text_eq (hit_key h) k then 1 else 0) + count_hits k hs

decide-other :
    (window_ms limit now : ℕ) (key k : Text) (o : Option Counter) (m : Counters)
    → text_eq key k ≡ false
    → get k (decide window_ms limit key now o m).1 ≡ get k m
unfolding decide
decide-other window_ms limit now key k none m other =
    ground (arith, get-set key k (record { window_start = now; hits = 1 }) m)
decide-other window_ms limit now key k (some c) m other = ground (
  arith,
  get-set key k (record { window_start = now; hits = 1 }) m,
  get-set key k (record c { hits = c.hits + 1 }) m,
)

-- Hits of other keys leave the counter of a key alone.
check-other :
    (window_ms : ℕ) (k : Text) (h : Hit) (m : Counters)
    → text_eq (hit_key h) k ≡ false
    → get k (check_hit window_ms h m).1 ≡ get k m
unfolding check
check-other window_ms k h m other =
    decide-other window_ms (hit_limit h) h.now (hit_key h) k (get (hit_key h) m) m other

decide-same :
    (window_ms limit now : ℕ) (key : Text) (c : Counter) (m : Counters)
    → now < c.window_start + window_ms
    → ((decide window_ms limit key now (some c) m).0.allowed ≡ leb (c.hits + 1) limit)
      × (get key (decide window_ms limit key now (some c) m).1
          ≡ some (record c { hits = c.hits + 1 }))
unfolding decide
decide-same window_ms limit now key c m inside = (
  ground arith,
  ground (arith, get-set key key (record c { hits = c.hits + 1 }) m, text_eq_refl key),
)

-- A hit inside the window of its key adds to the counter, and is let through up to the limit.
check-same :
    (window_ms : ℕ) (h : Hit) (m : Counters) (c : Counter)
    → get (hit_key h) m ≡ some c
    → h.now < c.window_start + window_ms
    → ((check_hit window_ms h m).0.allowed ≡ leb (c.hits + 1) (hit_limit h))
      × (get (hit_key h) (check_hit window_ms h m).1 ≡ some (record c { hits = c.hits + 1 }))
unfolding check
check-same window_ms h m c found inside =
    rw found (decide-same window_ms (hit_limit h) h.now (hit_key h) c m inside)

-- The window of a counter holds the hits of its key.
abbrev pub Inside : ℕ → ℕ → Text → Hit → Type 0
Inside window_ms start k h = text_eq (hit_key h) k ≡ true → h.now < start + window_ms

allowed_hits_lem :
    (window_ms limit start n : ℕ) (k : Text) (hs : List Hit) (m : Counters)
    → get k m ≡ some (record { window_start = start; hits = n })
    → All (Inside window_ms start k) hs
    → All (λ h. text_eq (hit_key h) k ≡ true → hit_limit h ≡ limit) hs
    → allowed_hits window_ms k hs m + min n limit ≡ min (n + count_hits k hs) limit
unfolding allowed_hits count_hits
allowed_hits_lem window_ms limit start n k [] m found inside same = omega arith
allowed_hits_lem window_ms limit start n k (h ∷ hs) m found (inside, ins) (same, sames) =
    elim (Bool-cases (text_eq (hit_key h) k)) [
      | inr other ↦
          let ih =
            allowed_hits_lem window_ms limit start n k hs (check_hit window_ms h m).1
              (check-other window_ms k h m other ∙ found) ins sames in
          rw other (omega (arith, ih))
      | inl mine ↦
          let key : hit_key h ≡ k = (text_eq_iff (hit_key h) k).0 mine in
          let step =
            check-same window_ms h m (record { window_start = start; hits = n })
              (ap (λ j. get j m) key ∙ found) (inside mine) in
          let ih =
            allowed_hits_lem window_ms limit start (n + 1) k hs (check_hit window_ms h m).1
              (ap (λ j. get j (check_hit window_ms h m).1) (sym key) ∙ step.1) ins sames in
          rw (mine, step.0, same mine) (ground (arith, ih))
    ]

decide-opening :
    (window_ms limit now : ℕ) (key : Text) (o : Option Counter) (m : Counters)
    → kept window_ms now o ≡ none
    → ((decide window_ms limit key now o m).0.allowed ≡ true)
      × (get key (decide window_ms limit key now o m).1
          ≡ some (record { window_start = now; hits = 1 }))
unfolding decide
decide-opening window_ms limit now key none m opening = (
  refl,
  ground (arith, get-set key key (record { window_start = now; hits = 1 }) m, text_eq_refl key),
)
decide-opening window_ms limit now key (some c) m opening = (
  ground arith,
  ground (arith, get-set key key (record { window_start = now; hits = 1 }) m, text_eq_refl key),
)

All-same_limit :
    (h : Hit) (hs : List Hit)
    → All (λ g. text_eq (hit_key g) (hit_key h) ≡ true → hit_limit g ≡ hit_limit h) hs
All-same_limit h [] = tt
All-same_limit h (g ∷ gs) =
    (λ e. hit_limit-eq g h ((text_eq_iff (hit_key g) (hit_key h)).0 e), All-same_limit h gs)

-- When a hit opens a window (the key has no counter, or the window of its counter has passed), then of
-- it and all later hits of its key before the window ends exactly as many are let through as the
-- rule's limit allows, however hits of other keys come between.
pub burst_bound :
    (window_ms : ℕ) (h : Hit) (hs : List Hit) (m : Counters)
    → kept window_ms h.now (get (hit_key h) m) ≡ none
    → All (Inside window_ms h.now (hit_key h)) hs
    → allowed_hits window_ms (hit_key h) (h ∷ hs) m
      ≡ min (count_hits (hit_key h) (h ∷ hs)) (hit_limit h)
unfolding allowed_hits count_hits check
burst_bound window_ms h hs m opening inside =
    let opened =
      decide-opening window_ms (hit_limit h) h.now (hit_key h) (get (hit_key h) m) m opening in
    let rest =
      allowed_hits_lem window_ms (hit_limit h) h.now 1 (hit_key h) hs (check_hit window_ms h m).1
        opened.1 inside (All-same_limit h hs) in
    rw (text_eq_refl (hit_key h), opened.0)
      (omega (arith, rest, (rule_for_facts h.method h.pathname).1))

decide-decision :
    (window_ms limit now : ℕ) (key : Text) (o : Option Counter) (m m' : Counters)
    → (decide window_ms limit key now o m).0 ≡ (decide window_ms limit key now o m').0
unfolding decide
decide-decision window_ms limit now key none m m' = refl
decide-decision window_ms limit now key (some c) m m' = ground arith

-- No client uses up the limit of another: a hit changes no decision on a hit of a different client.
pub check-other_client :
    (window_ms : ℕ) (h g : Hit) (m : Counters)
    → h.client ≢ g.client
    → (check_hit window_ms g (check_hit window_ms h m).1).0 ≡ (check_hit window_ms g m).0
unfolding check
check-other_client window_ms h g m differ =
    let a = rule_for_facts h.method h.pathname in
    let b = rule_for_facts g.method g.pathname in
    let other : text_eq (hit_key h) (hit_key g) ≡ false =
      elim (Bool-cases (text_eq (hit_key h) (hit_key g))) [
        | inr n ↦ n
        | inl y ↦ absurd (
            differ
              (key_of-injective h.client g.client (rule_for h.method h.pathname).id
                (rule_for g.method g.pathname).id a.0 b.0
                ((text_eq_iff (hit_key h) (hit_key g)).0 y)).0)
      ] in
    rw (check-other window_ms (hit_key g) h m other) (
      decide-decision window_ms (hit_limit g) g.now (hit_key g) (get (hit_key g) m)
        (check_hit window_ms h m).1 m)

decide-kept :
    (window_ms limit t now : ℕ) (key : Text) (o : Option Counter) (m m' : Counters)
    → t ≤ now
    → (decide window_ms limit key now (kept window_ms t o) m).0
      ≡ (decide window_ms limit key now o m').0
unfolding decide
decide-kept window_ms limit t now key none m m' earlier = refl
decide-kept window_ms limit t now key (some c) m m' earlier = ground arith

-- Where keys are unique, the interval timer's pruning changes no decision: a hit at or after it is
-- decided as without it.
pub check-prune :
    (window_ms t : ℕ) (h : Hit) (m : Counters)
    → HasUniqueKeys m
    → t ≤ h.now
    → (check_hit window_ms h (prune window_ms t m)).0 ≡ (check_hit window_ms h m).0
unfolding check
check-prune window_ms t h m unique earlier = rw (get-prune window_ms t (hit_key h) m unique) (
    decide-kept window_ms (hit_limit h) t h.now (hit_key h) (get (hit_key h) m)
      (prune window_ms t m) m earlier)
