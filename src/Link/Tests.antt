-- ===== src/Link/Tests.antt =====
-- The theorems at concrete inputs.
use nivalo_esp.PollPolicy.{begin, note_poll_started}
use nivalo_esp.Transport.{ReceivedFrame}
use nivalo_esp.Link.{
  LinkWorld, LinkState, exchange_round, note_invalid, round, drain_loop, drain_nivalo_link,
}
use nivalo_esp.Link.Rounds.{IsDrain, should_drain, start, at_most_eight}
use nivalo_esp.Link.Backoff.{received, left_alone}
use nivalo_esp.Link.Frames.{
  FrameWorld, Parsed, malformed, parsed, Publication, frame_definition, handle_nivalo_link_frame,
}
use nivalo_esp.ReceiveSequence.{acknowledgment}
use nivalo_esp.Transport.{Transport, exchange, parse_frame, empty_frame}
use nivalo_esp.Link.Repeated.{repeated_ignored}
use nivalo_esp.Common.{
  ℕ, ◌+◌, ◌-◌, ◌≡◌, ◌⊎◌, inr, refl, Bool, true, false, arith, List, [], ◌∷◌, none, some, ltb, Text,
  codes,
}

abbrev frame : ReceivedFrame
frame = record {
  valid = true;
  duplicate = false;
  type = 0x20;
  seq = 1;
  ack = 1;
  payload_length = 0;
  payload = [];
}

-- The time, and how many frames are left on the other side.
abbrev Bus : Type 0
Bus = ℕ × ℕ

-- Each exchange takes a frame.
abbrev taken : Bus → Bool × (ReceivedFrame × Bus)
taken (time, left) = (true, (frame, (time, left - 1)))

abbrev bus : LinkWorld Bus
bus = record {
  millis = λ w. w.0;
  paused = λ w. false;
  data_ready = λ w. ltb 0 w.1;
  say_hello = taken;
  send_heartbeat = taken;
  poll = taken;
  handle = λ w f. w;
  report_failed = λ w. w;
  report_invalid = λ w count. (true, w);
}

abbrev twelve_left : Bus
twelve_left = (40000, 12)

at_most_eight_example :
    (should_drain bus begin twelve_left ≡ false
      × drain_nivalo_link bus begin twelve_left ≡ (begin, twelve_left))
    ⊎ (should_drain bus begin twelve_left ≡ true
        × ((s' : LinkState Bus) × IsDrain bus 7 40000 (start bus begin twelve_left) s'
            × drain_nivalo_link bus begin twelve_left ≡ (s'.manager, s'.world)))
at_most_eight_example = at_most_eight bus begin twelve_left

-- A bus on which no valid frame comes.
abbrev noise : LinkWorld Bus
noise = record bus { poll = λ w. (true, (record frame { valid = false }, w)) }

-- An invalid frame comes 1.3 s before the clock wraps, 6 s after a heartbeat.
abbrev before_wrap : LinkState Bus
before_wrap = record {
  manager = record begin { hello_pending = false; last_heartbeat = 4294960000 };
  world = (4294966000, 12);
  hello_due = false;
  heartbeat_due = false;
}

heartbeat_kept : (drain_loop noise 8 4294966000 before_wrap).manager.last_heartbeat ≡ 4294960000
unfolding drain_loop round exchange_round note_invalid note_poll_started begin
heartbeat_kept = refl

invalid_received : (received noise 4294966000 before_wrap) ≡ (
  true,
  (
    record frame { valid = false },
    record before_wrap { manager = note_poll_started before_wrap.manager },
  ),
)
unfolding exchange_round
invalid_received = refl

-- The link is left alone 2.3 s after the frame.
left_alone_example :
    let m = (drain_loop noise 8 4294966000 before_wrap).manager in
    drain_nivalo_link noise m (1000, 12) ≡ (m, (1000, 12))
left_alone_example =
    left_alone noise 7 4294966000 before_wrap (1000, 12) 2296 (rw invalid_received refl)
      (rw invalid_received refl) (rw invalid_received (omega arith)) (omega arith)
      (rw invalid_received (omega arith)) (inr (rw invalid_received (omega arith)))
      (rw heartbeat_kept (omega arith))

-- The empty text is no JSON; any other payload has one variable.
abbrev parse_payload : Text → Parsed ℕ
parse_payload [] = malformed (codes "EmptyInput")
parse_payload (c ∷ s) = parsed (record {
  name = none;
  unit = none;
  value = none;
  event_name = none;
  event_data = none;
  raw_data = none;
  raw = none;
  severity = none;
  command_id = none;
  status = none;
  message = none;
  progress = none;
  variable_count = 1;
  function_count = 0;
})

-- How many definitions were published, and what else.
abbrev Broker : Type 0
Broker = ℕ × List (Publication ℕ)

abbrev broker : FrameWorld ℕ Broker
broker = record {
  parse = parse_payload;
  publish = λ w p. (w.0, p ∷ w.1);
  publish_definitions =
      λ w t. (record { bytes = 300; overflowed = false; published = true }, (w.0 + 1, w.1));
}

abbrev definitions : ReceivedFrame
definitions = record frame { type = frame_definition; payload_length = 2; payload = codes "{}" }

abbrev transport : Transport
transport = record {
  started = true;
  paused = false;
  next_seq = 9;
  receive_sequence = record { has_sequence = true; last_sequence = 8 };
  last_error = [];
  tx_frame = [];
  rx_frame = [];
}

-- It receives a telemetry frame of the other side.
abbrev on_bus : Transport
on_bus = record transport { rx_frame = (exchange transport 0x20 (some (codes "{}")) []).2.tx_frame }

repeated_ignored_example :
    let (accepted, first, receiver') = parse_frame on_bus empty_frame in
    let (accepted', second, receiver'') = parse_frame receiver' empty_frame in
    (accepted ≡ true)
    × (accepted' ≡ true)
    × (second.seq ≡ first.seq)
    × (handle_nivalo_link_frame broker (0, []) second ≡ (0, []))
repeated_ignored_example =
    repeated_ignored broker transport on_bus 0x20 (some (codes "{}")) [] refl refl (omega arith)
      (omega arith, (omega arith, tt)) (omega arith) (unfold acknowledgment in omega arith) (0, [])
      (omega arith) refl
