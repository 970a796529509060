-- ===== src/TimePolicy.antt =====
-- src/NivaloProvisioningTimePolicy.h: when provisioning may use TLS, and how clock retries back off.
pub mod Delays
mod Tests
use nivalo_esp.Common.{ℤ, pos, negsuc}
use nivalo_esp.Common.{
  ℕ, zero, suc, ◌*◌, ◌/◌, ◌-◌, ◌^◌, Bool, false, ltb, leb, if◌then◌else◌, u32, sub32,
}

-- `epochSeconds` is an int64_t, and the bound a uint64_t.
unfoldable pub permits_tls : ℤ → ℕ → Bool
permits_tls (pos seconds) minimum_valid = leb minimum_valid seconds
permits_tls (negsuc n) minimum_valid = false

pub elapsed : ℕ → ℕ → ℕ → Bool
elapsed now started_at interval_ms = leb interval_ms (sub32 now started_at)

-- `static_cast<int32_t>(d) >= 0` for a 32-bit `d`.
unfoldable pub retry_due : ℕ → ℕ → Bool
retry_due now retry_at = ltb (sub32 now retry_at) (2 ^ 31)

pub may_retry : ℕ → ℕ → Bool
may_retry failed_attempts maximum_attempts = ltb failed_attempts maximum_attempts

capped : ℕ → ℕ → ℕ
capped delay maximum = if ltb maximum delay then maximum else delay

-- The loop, with `failedAttempts - attempt` rounds left.
delay_loop : ℕ → ℕ → ℕ → ℕ
unfolding capped
delay_loop zero delay maximum = capped delay maximum
delay_loop (suc rounds) delay maximum =
    let rest = delay_loop rounds (u32 (delay * 2)) maximum in
    if ltb delay maximum
    then (if ltb (maximum / 2) delay then maximum else rest)
    else capped delay maximum

-- The loop starts at attempt 1, so no failed attempt means no round either.
pub retry_delay : ℕ → ℕ → ℕ → ℕ
unfolding delay_loop
retry_delay failed_attempts base_delay maximum = delay_loop (failed_attempts - 1) base_delay maximum
