-- ===== src/Outbox/Backoff.antt =====
-- The delays between attempts.
use erp_fashion_api.Common.{ℕ, suc, ◌+◌, ◌*◌, ◌^◌, ◌≤◌, ◌≡◌, refl, arith, leb, if◌then◌else◌}
use native.Mathlib.Nat.{pow-succ', pow-le-pow_right}
use erp_fashion_api.Outbox.{compute_backoff_ms}

power_suc : (n : ℕ) → 2 ^ suc n ≡ 2 * 2 ^ n
power_suc n = pow-succ' 2 n

power_large : (n : ℕ) → 9 ≤ n → 512 ≤ 2 ^ n
power_large n h = pow-le-pow_right {n = 2} (omega arith) {i = 9} {j = n} h

-- The first delay is a second, each further one doubles the last up to five minutes, which every
-- delay from the tenth on is.
compute_backoff_ms_lem :
    (n : ℕ)
    → (compute_backoff_ms 1 ≡ 1000)
      × (compute_backoff_ms (n + 2) ≡ (
          if leb (2 * compute_backoff_ms (n + 1)) 300_000
          then 2 * compute_backoff_ms (n + 1)
          else 300_000))
      × (compute_backoff_ms (n + 10) ≡ 300_000)
unfolding compute_backoff_ms
compute_backoff_ms_lem n =
    (refl, ground (arith, power_suc n), ground (arith, power_large (n + 9) (omega arith)))
