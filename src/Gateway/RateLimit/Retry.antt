-- ===== src/Gateway/RateLimit/Retry.antt =====
-- The Retry-After of services/gateway/src/rate-limit.ts, and the keys of its map.
use finlytic_ecosystem.Prelude.{ℕ, ◌+◌, ◌*◌, ◌≤◌, ◌≡◌, true, false, Option, none, some, arith}
use finlytic_ecosystem.Prelude.Text.{Text, text_eq_refl}
use finlytic_ecosystem.Gateway.RateLimit.{Counter, Counters, get, check, decide}
use finlytic_ecosystem.Gateway.RateLimit.Counters.{get-set, HasUniqueKeys, set-HasUniqueKeys}
use finlytic_ecosystem.Gateway.RateLimit.Limits.{Hit, hit_key, hit_limit, check_hit}

decide_retry :
    (window_ms limit now later : ℕ) (key : Text) (o : Option Counter) (m : Counters)
    → let refusal = decide window_ms limit key now o m in
      refusal.0.allowed ≡ false
      → now + 1000 * refusal.0.retry_after_seconds ≤ later
      → (refusal.0.remaining ≡ 0)
        × (1 ≤ refusal.0.retry_after_seconds)
        × ((decide window_ms limit key later (get key refusal.1) refusal.1).0.allowed ≡ true)
unfolding decide
decide_retry window_ms limit now later key none m refused waited = cc
decide_retry window_ms limit now later key (some c) m refused waited = (
  ground arith,
  ground arith,
  ground (arith, get-set key key (record c { hits = c.hits + 1 }) m, text_eq_refl key),
)

-- A refusal leaves nothing remaining and names at least one second, and who waits as long as it says
-- is let through again.
pub check-retry :
    (window_ms : ℕ) (h : Hit) (later : ℕ) (m : Counters)
    → let refusal = check_hit window_ms h m in
      refusal.0.allowed ≡ false
      → h.now + 1000 * refusal.0.retry_after_seconds ≤ later
      → (refusal.0.remaining ≡ 0)
        × (1 ≤ refusal.0.retry_after_seconds)
        × ((check_hit window_ms (record h { now = later }) refusal.1).0.allowed ≡ true)
unfolding check
check-retry window_ms h later m refused waited =
    decide_retry window_ms (hit_limit h) h.now later (hit_key h) (get (hit_key h) m) m refused
      waited

decide-HasUniqueKeys :
    (window_ms limit now : ℕ) (key : Text) (o : Option Counter) (m : Counters)
    → HasUniqueKeys m
    → HasUniqueKeys (decide window_ms limit key now o m).1
unfolding decide
decide-HasUniqueKeys window_ms limit now key none m u = set-HasUniqueKeys key _ m u
decide-HasUniqueKeys window_ms limit now key (some c) m u = ground (
  arith,
  set-HasUniqueKeys key (record { window_start = now; hits = 1 }) m u,
  set-HasUniqueKeys key (record c { hits = c.hits + 1 }) m u,
)

pub check-HasUniqueKeys :
    (window_ms : ℕ) (h : Hit) (m : Counters)
    → HasUniqueKeys m
    → HasUniqueKeys (check_hit window_ms h m).1
unfolding check
check-HasUniqueKeys window_ms h m u =
    decide-HasUniqueKeys window_ms (hit_limit h) h.now (hit_key h) (get (hit_key h) m) m u
