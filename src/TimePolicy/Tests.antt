-- ===== src/TimePolicy/Tests.antt =====
-- The theorems at concrete inputs.
use nivalo_esp.TimePolicy.{retry_delay}
use nivalo_esp.TimePolicy.Delays.{retry_delay_closed}
use nivalo_esp.Common.{◌*◌, ◌^◌, ◌≡◌, ◌-◌, arith, min}

retry_delay_closed_example : retry_delay 4 2000 60000 ≡ min 60000 (2000 * 2 ^ (4 - 1))
retry_delay_closed_example = retry_delay_closed 4 2000 60000 (omega arith) (omega arith)
