-- ===== src/Gateway/RateLimit.antt =====
-- services/gateway/src/rate-limit.ts. The clock is an argument. A `Map` is an association list; each
-- regular expression is the predicate that it decides.
pub mod Counters
pub mod Rules
pub mod Limits
pub mod Retry
use finlytic_ecosystem.Prelude.{
  ℕ, ◌+◌, ◌-◌, ◌/◌, Bool, true, false, not, ◌&&◌, ◌||◌, Option, none, some, List, [], ◌∷◌, ◌++◌,
  leb, if◌then◌else◌, find, filter, or_else, length,
}
use finlytic_ecosystem.Prelude.Text.{Text, codes, text_eq, starts_with}
use finlytic_ecosystem.Prelude.Split.{Parts, split, parts_list}
use finlytic_ecosystem.Prelude.{drop}

pub record Rule : Type 0 where
  pub id : Text
  pub method : Option Text
  pub pattern : Text → Bool
  pub max : ℕ

pub record Decision : Type 0 where
  pub allowed : Bool
  pub limit : ℕ
  pub remaining : ℕ
  pub retry_after_seconds : ℕ

abbrev pub window_default : ℕ
window_default = 60000

abbrev is_some_text : Text → Bool
is_some_text [] = false
is_some_text (_ ∷ _) = true

-- `[^/]+\/(preview|sync)$`, on the parts between slashes.
abbrev is_account_action : List Text → Bool
is_account_action [] = false
is_account_action (a ∷ []) = false
is_account_action (a ∷ b ∷ []) =
    is_some_text a && (text_eq b (codes "preview") || text_eq b (codes "sync"))
is_account_action (a ∷ b ∷ c ∷ ps) = false

-- `[^/]+\/messages\/[^/]+\/raw$`
abbrev is_message_raw : List Text → Bool
is_message_raw (a ∷ b ∷ c ∷ d ∷ []) =
    is_some_text a && (text_eq b (codes "messages") && (is_some_text c && text_eq d (codes "raw")))
is_message_raw _ = false

abbrev under_accounts : (List Text → Bool) → Text → Bool
under_accounts test path =
    starts_with (codes "/api/accounts/") path
    && test (parts_list (split b'/' (drop (length (codes "/api/accounts/")) path)))

abbrev pub rules : List Rule
rules =
    record {
      id = codes "auth-login";
      method = some (codes "POST");
      pattern = text_eq (codes "/api/auth/login");
      max = 5;
    }
    ∷ record {
      id = codes "auth-register";
      method = some (codes "POST");
      pattern = text_eq (codes "/api/auth/register");
      max = 5;
    }
    ∷ record {
      id = codes "auth-refresh";
      method = some (codes "POST");
      pattern = text_eq (codes "/api/auth/refresh");
      max = 20;
    }
    ∷ record {
      id = codes "account-actions";
      method = some (codes "POST");
      pattern = under_accounts is_account_action;
      max = 10;
    }
    ∷ record {
      id = codes "message-raw";
      method = some (codes "GET");
      pattern = under_accounts is_message_raw;
      max = 20;
    }
    ∷ []

abbrev pub default_rule : Rule
default_rule = record { id = codes "default"; method = none; pattern = λ _. true; max = 100 }

abbrev method_matches : Option Text → Text → Bool
method_matches none method = true
method_matches (some m) method = text_eq m method

abbrev pub rule_matches : Text → Text → Rule → Bool
rule_matches method pathname r = method_matches r.method method && r.pattern pathname

unfoldable pub rule_for : Text → Text → Rule
rule_for method pathname = or_else (find (rule_matches method pathname) rules) default_rule

pub record Counter : Type 0 where
  pub window_start : ℕ
  pub hits : ℕ

abbrev pub Counters : Type 0
Counters = List (Text × Counter)

-- `counters.get` and `counters.set`.
unfoldable pub get : Text → Counters → Option Counter
get k [] = none
get k ((j, c) ∷ m) = if text_eq j k then some c else get k m

unfoldable pub set : Text → Counter → Counters → Counters
set k c [] = (k, c) ∷ []
set k c ((j, d) ∷ m) = if text_eq j k then (j, c) ∷ m else (j, d) ∷ set k c m

abbrev pub key_of : Text → Text → Text
key_of client id = client ++ (b'|' ∷ id)

-- `Math.ceil(ms / 1000)`
abbrev pub ceil_seconds : ℕ → ℕ
ceil_seconds ms = (ms + 999) / 1000

-- `now - windowStart >= windowMs`; the clock may stand before the start, so nothing is subtracted.
abbrev pub has_passed : ℕ → ℕ → Counter → Bool
has_passed window_ms now c = leb (c.window_start + window_ms) now

module _ (window_ms : ℕ) where
  abbrev pub first_of_window : ℕ → Text → ℕ → Counters → Decision × Counters
  first_of_window max key now counters = (
    record { allowed = true; limit = max; remaining = max - 1; retry_after_seconds = 0 },
    set key (record { window_start = now; hits = 1 }) counters,
  )

  -- `Math.ceil((windowMs - elapsed) / 1000)`, with the subtraction of `elapsed` written out.
  abbrev pub next_of_window : ℕ → Text → ℕ → Counter → Counters → Decision × Counters
  next_of_window max key now c counters = (
    record {
      allowed = leb (c.hits + 1) max;
      limit = max;
      remaining = max - (c.hits + 1);
      retry_after_seconds =
          if leb (c.hits + 1) max then 0 else ceil_seconds (window_ms + c.window_start - now);
    },
    set key (record c { hits = c.hits + 1 }) counters,
  )

  unfoldable pub decide : ℕ → Text → ℕ → Option Counter → Counters → Decision × Counters
  decide max key now none counters = first_of_window max key now counters
  decide max key now (some c) counters =
      if has_passed window_ms now c
      then first_of_window max key now counters
      else next_of_window max key now c counters

  unfoldable pub check : Text → Text → Text → ℕ → Counters → Decision × Counters
  check client method pathname now counters =
      let rule = rule_for method pathname in
      let key = key_of client rule.id in decide rule.max key now (get key counters) counters

  unfoldable pub prune : ℕ → Counters → Counters
  prune now counters = filter (λ entry. not (has_passed window_ms now entry.1)) counters

unfoldable pub size : Counters → ℕ
size counters = length counters
