-- ===== src/Telemetry/Tests.antt =====
-- The theorems at concrete inputs.
use nivalo_esp.Telemetry.{Connection, TelemetryBuffer, keep, flush}
use nivalo_esp.Telemetry.Queue.{queue, IsValid, keep_newest, queue-keep}
use nivalo_esp.Telemetry.Flush.{send_all, flush-send_all}
use nivalo_esp.Common.{ℕ, ◌≡◌, ◌-◌, refl, arith, [], ◌∷◌, codes, ltb}

-- Two payloads, around the end of the ring, and no room for a third.
abbrev full_buffer : TelemetryBuffer
full_buffer = record {
  entries = codes "new" ∷ [] ∷ [] ∷ [] ∷ [] ∷ [] ∷ [] ∷ codes "old" ∷ [];
  head = 7;
  count = 2;
  capacity = 2;
}

full_buffer-IsValid : IsValid full_buffer
full_buffer-IsValid = record {
  size = refl;
  inside = omega arith;
  fits = omega arith;
  bounded = omega arith;
}

queue-keep_example :
    IsValid (keep full_buffer (codes "newest"))
    × (queue (keep full_buffer (codes "newest"))
        ≡ keep_newest 2 (queue full_buffer) (codes "newest"))
queue-keep_example = queue-keep full_buffer (codes "newest") full_buffer-IsValid

-- A connection that takes as many payloads as its state says.
abbrev limited : Connection ℕ
limited = record { connected = λ m. ltb 0 m; publish = λ m payload. (ltb 0 m, m - 1) }

flush-send_all_example :
    let (b', m') = flush limited full_buffer 1 in
    IsValid b' × ((queue b', m') ≡ send_all limited (queue full_buffer) 1)
flush-send_all_example = flush-send_all limited full_buffer 1 full_buffer-IsValid
