-- ===== src/PollPolicy/Deferral.antt =====
-- How long a poll is put off behind a command.
use nivalo_esp.PollPolicy.{
  LinkManager, begin, note_command_exchange, should_defer_command_poll, note_poll_started,
  fallback_poll_ms,
}
use nivalo_esp.Common.{ℕ, ◌+◌, ◌^◌, ◌<◌, ◌≡◌, Bool, false, not, ◌&&◌, arith, ltb, u32}

-- After a command at `now` a poll is put off exactly while the secondary MCU has not raised data
-- ready and less than a second has passed, also across the wrap of the clock; once a poll has
-- started, or before any command, none is put off.
pub defer_after_command :
    (m : LinkManager) (now elapsed : ℕ) (data_ready : Bool)
    → now < 2 ^ 32
    → elapsed < 2 ^ 32
    → (should_defer_command_poll (note_command_exchange m now) (u32 (now + elapsed)) data_ready
        ≡ (not data_ready && ltb elapsed fallback_poll_ms))
      × (should_defer_command_poll (note_poll_started m) (u32 (now + elapsed)) data_ready ≡ false)
      × (should_defer_command_poll begin (u32 (now + elapsed)) data_ready ≡ false)
unfolding should_defer_command_poll note_command_exchange note_poll_started begin
defer_after_command m now elapsed data_ready h k = (ground arith, ground arith, ground arith)
