-- ===== src/ReceiveSequence.antt =====
-- src/NivaloLinkReceiveSequence.h: which received frames are repeats of the one before.
pub mod Delivery
mod Tests
use nivalo_esp.Common.{ℕ, Bool, true, false, ◌&&◌, ◌==◌, if◌then◌else◌}

-- The sequence number is a `uint16_t`.
pub record ReceiveSequence : Type 0 where
  pub has_sequence : Bool
  pub last_sequence : ℕ

-- `reset`, which is also the initial state.
pub reset : ReceiveSequence
reset = record { has_sequence = false; last_sequence = 0 }

pub observe : ReceiveSequence → ℕ → Bool × ReceiveSequence
observe s sequence =
    if s.has_sequence && sequence == s.last_sequence
    then (false, s)
    else (true, record { has_sequence = true; last_sequence = sequence })

unfoldable pub acknowledgment : ReceiveSequence → ℕ
acknowledgment s = if s.has_sequence then s.last_sequence else 0
