-- ===== src/Telemetry.antt =====
-- src/NivaloDeviceMessaging.cpp: the telemetry that could not be sent, kept in a ring of eight
-- entries: the end of `publishTelemetry`, and `flushTelemetryBuffer`. The MQTT connection is a
-- parameter.
pub mod Queue
pub mod Flush
mod Tests
use nivalo_esp.Common.{
  ℕ, zero, suc, ◌+◌, ◌%◌, ◌-◌, Bool, ◌&&◌, List, [], get_or, set, ltb, ◌==◌, if◌then◌else◌, Text,
}

-- `connected()`, and `publish` on the telemetry topic.
pub record Connection (M : Type 0) : Type 0 where
  pub connected : M → Bool
  pub publish : M → Text → Bool × M

pub record TelemetryBuffer : Type 0 where
  pub entries : List Text
  pub head : ℕ
  pub count : ℕ
  pub capacity : ℕ

-- The oldest entry is cleared and given up.
pub drop_oldest : TelemetryBuffer → TelemetryBuffer
drop_oldest b = record b {
  entries = set b.entries b.head [];
  head = (b.head + 1) % 8;
  count = b.count - 1;
}

-- What a payload that was not sent does to the buffer.
pub keep : TelemetryBuffer → Text → TelemetryBuffer
unfolding drop_oldest
keep b output =
    if ltb 0 b.capacity
    then (let b' = if b.count == b.capacity then drop_oldest b else b in
        record b' {
          entries = set b'.entries ((b'.head + b'.count) % 8) output;
          count = b'.count + 1;
        })
    else b

module _ {M : Type 0} (connection : Connection M) where
  pub publish_telemetry : TelemetryBuffer → M → Text → ℕ × TelemetryBuffer × M
  unfolding keep
  publish_telemetry b m output =
      let (ok, m') = connection.publish m output in
      if ok then (1, b, m') else (0, keep b output, m')

  -- The loop in `flushTelemetryBuffer`, for at most `n` rounds.
  pub flush_loop : ℕ → TelemetryBuffer → M → TelemetryBuffer × M
  unfolding drop_oldest
  flush_loop zero b m = (b, m)
  flush_loop (suc n) b m =
      let (ok, m') = connection.publish m (get_or b.entries b.head []) in
      let rest = flush_loop n (drop_oldest b) m' in
      if connection.connected m && ltb 0 b.count then (if ok then rest else (b, m')) else (b, m)

  -- Each round takes one entry, so the count of the entries is rounds enough.
  pub flush : TelemetryBuffer → M → TelemetryBuffer × M
  unfolding flush_loop
  flush b m = flush_loop b.count b m
