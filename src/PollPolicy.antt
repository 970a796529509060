-- ===== src/PollPolicy.antt =====
-- src/NivaloLinkCommandPollPolicy.{h,cpp}, and src/NivaloLinkManager.h, the bookkeeping of the
-- link to the secondary MCU around it.
pub mod Deferral
mod Tests
use nivalo_esp.Common.{ℕ, Bool, true, false, not, ◌||◌, ltb, if◌then◌else◌, u32, sub32}

abbrev pub fallback_poll_ms : ℕ
fallback_poll_ms = 1000

pub record PollPolicy : Type 0 where
  pub command_exchange_at : ℕ
  pub awaiting_data_ready : Bool

-- `reset`, which is also the constructor.
pub reset : PollPolicy
reset = record { command_exchange_at = 0; awaiting_data_ready = false }

pub on_command_exchange : PollPolicy → ℕ → PollPolicy
on_command_exchange p now = record { command_exchange_at = now; awaiting_data_ready = true }

pub should_defer_poll : PollPolicy → ℕ → Bool → Bool
should_defer_poll p now data_ready =
    if not p.awaiting_data_ready || data_ready
    then false
    else ltb (sub32 now p.command_exchange_at) fallback_poll_ms

pub on_poll_started : PollPolicy → PollPolicy
on_poll_started p = record p { awaiting_data_ready = false }

-- `NivaloLinkManager` without its transport. `unsigned long` has 32 bits on the ESP32.
pub record LinkManager : Type 0 where
  pub hello_pending : Bool
  pub last_hello : ℕ
  pub last_poll : ℕ
  pub last_heartbeat : ℕ
  pub last_invalid_frame_report : ℕ
  pub backoff_until : ℕ
  pub invalid_frame_count : ℕ
  pub command_poll : PollPolicy

-- `begin` once the transport has started, which it always does.
unfoldable pub begin : LinkManager
unfolding reset
begin = record {
  hello_pending = true;
  last_hello = 0;
  last_poll = 0;
  last_heartbeat = 0;
  last_invalid_frame_report = 0;
  backoff_until = 0;
  invalid_frame_count = 0;
  command_poll = reset;
}

pub note_command_exchange : LinkManager → ℕ → LinkManager
unfolding on_command_exchange
note_command_exchange m now = record m {
  last_poll = now;
  command_poll = on_command_exchange m.command_poll (u32 now);
}

pub should_defer_command_poll : LinkManager → ℕ → Bool → Bool
unfolding should_defer_poll
should_defer_command_poll m now data_ready = should_defer_poll m.command_poll (u32 now) data_ready

unfoldable pub note_poll_started : LinkManager → LinkManager
unfolding on_poll_started
note_poll_started m = record m { command_poll = on_poll_started m.command_poll }
