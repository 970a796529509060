-- ===== src/Reconnect.antt =====
-- src/NivaloReconnectPolicy.{h,cpp}: when the next MQTT connection attempt is due.
pub mod Backoff
mod Tests
use nivalo_esp.Common.{
  ℕ, ◌+◌, ◌*◌, ◌/◌, ◌%◌, Bool, true, false, ◌||◌, leb, ltb, if◌then◌else◌, u32, sub32,
}

abbrev pub initial_backoff_ms : ℕ
initial_backoff_ms = 1000

abbrev pub maximum_backoff_ms : ℕ
maximum_backoff_ms = 60000

-- Times are `uint32_t` milliseconds.
pub record ReconnectPolicy : Type 0 where
  pub next_attempt_at : ℕ
  pub backoff_ms : ℕ
  pub attempt_immediately : Bool

-- `reset`, which is also the constructor.
pub reset : ReconnectPolicy
reset = record { next_attempt_at = 0; backoff_ms = initial_backoff_ms; attempt_immediately = true }

pub is_attempt_due : ReconnectPolicy → ℕ → Bool
is_attempt_due p now = p.attempt_immediately || ltb (sub32 now p.next_attempt_at) 0x80000000

pub on_failure : ReconnectPolicy → ℕ → ℕ → ReconnectPolicy
on_failure p now entropy =
    let jitter_window = u32 (p.backoff_ms / 4 + 1) in
    let jitter = entropy % jitter_window in
    record {
      next_attempt_at = u32 (u32 (now + p.backoff_ms) + jitter);
      backoff_ms =
          if leb (maximum_backoff_ms / 2) p.backoff_ms
          then maximum_backoff_ms
          else u32 (p.backoff_ms * 2);
      attempt_immediately = false;
    }

pub on_success : ReconnectPolicy → ℕ → ReconnectPolicy
on_success p now = record {
  next_attempt_at = now;
  backoff_ms = initial_backoff_ms;
  attempt_immediately = true;
}
