-- ===== src/Web/SyncEvents/Backoff.antt =====
-- The delays between the attempts of apps/web/src/accounts/useSyncEvents.ts.
use finlytic_ecosystem.Prelude.{
  ℕ, suc, ◌+◌, ◌*◌, ◌-◌, ◌^◌, ◌≤◌, ◌≡◌, false, min, arith, or_else, ap,
}
use native.Mathlib.Nat.{pow-succ', one-le-pow}
use finlytic_ecosystem.Web.SyncEvents.{schedule_reconnect}

-- The delay before the attempt that follows `n` failures in a row.
abbrev pub delay_after : ℕ → ℕ
delay_after n = or_else (schedule_reconnect false n).1 0

delay_lem : (n m : ℕ) → n + 1 - 1 ≡ m → delay_after n ≡ min (1000 * 2 ^ m) 30000
unfolding schedule_reconnect
delay_lem n m e = ap (λ k. min (1000 * 2 ^ k) 30000) e

-- The powers that the wait after five more failures goes through.
double : (n : ℕ) → 2 ^ suc n ≡ 2 * 2 ^ n
double n = pow-succ' 2 n

thirty_two : (n : ℕ) → 2 ^ suc (suc (suc (suc (suc n)))) ≡ 32 * 2 ^ n
thirty_two n = omega (
  arith,
  double n,
  double (suc n),
  double (suc (suc n)),
  double (suc (suc (suc n))),
  double (suc (suc (suc (suc n)))),
)

-- Between two attempts there are at least a second and at most thirty, a further failure makes the wait no
-- shorter, and from the sixth failure on it is thirty seconds.
pub delay_after-bounds :
    (n : ℕ)
    → (1000 ≤ delay_after n)
      × (delay_after n ≤ 30000)
      × (delay_after n ≤ delay_after (n + 1))
      × (delay_after (n + 5) ≡ 30000)
delay_after-bounds n =
    rw
      (
        delay_lem n n (omega arith),
        delay_lem (n + 1) (suc n) (omega arith),
        delay_lem (n + 5) (suc (suc (suc (suc (suc n))))) (omega arith),
        double n,
        thirty_two n,
      )
      (let one = one-le-pow n 2 (omega arith) in
        (omega (arith, one), omega (arith, one), omega (arith, one), omega (arith, one)))
