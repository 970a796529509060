-- ===== src/Reconnect/Tests.antt =====
-- The theorems at concrete inputs.
use nivalo_esp.Reconnect.{reset, is_attempt_due, on_failure}
use nivalo_esp.Reconnect.Backoff.{failures, backoff_doubles, wait_ms, wait_after_failure}
use nivalo_esp.Common.{ℕ, ◌+◌, ◌*◌, ◌/◌, ◌^◌, ◌≤◌, ◌≡◌, arith, List, [], ◌∷◌, min, u32, leb}

abbrev three_failures : List (ℕ × ℕ)
three_failures = (0, 7) ∷ (1000, 8) ∷ (3000, 9) ∷ []

backoff_doubles_example : (failures reset three_failures).backoff_ms ≡ min 60000 (1000 * 2 ^ 3)
backoff_doubles_example = backoff_doubles three_failures

-- The clock wraps 296 ms after this failure.
wait_after_failure_example :
    (1000 ≤ wait_ms reset 7)
    × (wait_ms reset 7 ≤ 1000 + 1000 / 4)
    × (is_attempt_due (on_failure reset 4294967000 7) (u32 (4294967000 + 1200))
        ≡ leb (wait_ms reset 7) 1200)
unfolding reset
wait_after_failure_example =
    wait_after_failure reset 4294967000 7 1200 (omega arith) (omega arith) (omega arith)
