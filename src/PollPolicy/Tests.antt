-- ===== src/PollPolicy/Tests.antt =====
-- The theorem at a concrete input.
use nivalo_esp.PollPolicy.{
  begin, note_command_exchange, should_defer_command_poll, note_poll_started, fallback_poll_ms,
}
use nivalo_esp.PollPolicy.Deferral.{defer_after_command}
use nivalo_esp.Common.{◌+◌, ◌≡◌, false, not, ◌&&◌, arith, ltb, u32}

defer_after_command_example :
    (should_defer_command_poll
        (note_command_exchange begin 4294967000)
        (u32 (4294967000 + 999))
        false
      ≡ (not false && ltb 999 fallback_poll_ms))
    × (should_defer_command_poll (note_poll_started begin) (u32 (4294967000 + 999)) false ≡ false)
    × (should_defer_command_poll begin (u32 (4294967000 + 999)) false ≡ false)
defer_after_command_example =
    defer_after_command begin 4294967000 999 false (omega arith) (omega arith)
