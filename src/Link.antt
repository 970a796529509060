-- ===== src/Link.antt =====
-- src/NivaloDeviceLink.cpp: `drainNivaloLink`, which says hello and sends heartbeats to the secondary MCU
-- and polls it. The exchanges of the transport, what is done with a frame (see Frames), and the reports
-- are parameters.
pub mod Rounds
pub mod Backoff
pub mod Frames
pub mod Handled
pub mod Repeated
mod Tests
use nivalo_esp.PollPolicy.{
  LinkManager, fallback_poll_ms, should_defer_command_poll, note_poll_started,
}
use nivalo_esp.Transport.{ReceivedFrame, frame_idle}
use nivalo_esp.Common.{
  ℕ, zero, suc, ◌+◌, Bool, true, false, not, ◌&&◌, ◌||◌, arith, ltb, leb, ◌==◌, if◌then◌else◌, u32,
  sub32,
}

abbrev pub hello_ms : ℕ
hello_ms = 30000

abbrev pub heartbeat_ms : ℕ
heartbeat_ms = 30000

abbrev pub invalid_frame_report_ms : ℕ
invalid_frame_report_ms = 60000

abbrev pub invalid_frame_backoff_ms : ℕ
invalid_frame_backoff_ms = 250

abbrev pub drain_limit : ℕ
drain_limit = 8

-- What the link does with the rest of the device. `handle` is `handleNivaloLinkFrame`, `report_failed` queues
-- the failure of an exchange, and `report_invalid` the count of the invalid frames, with whether the
-- queue took it.
pub record LinkWorld (W : Type 0) : Type 0 where
  pub millis : W → ℕ
  pub paused : W → Bool
  pub data_ready : W → Bool
  pub say_hello : W → Bool × (ReceivedFrame × W)
  pub send_heartbeat : W → Bool × (ReceivedFrame × W)
  pub poll : W → Bool × (ReceivedFrame × W)
  pub handle : W → ReceivedFrame → W
  pub report_failed : W → W
  pub report_invalid : W → ℕ → Bool × W

-- `hello_due` and `heartbeat_due` are variables of the function.
pub record LinkState (W : Type 0) : Type 0 where
  pub manager : LinkManager
  pub world : W
  pub hello_due : Bool
  pub heartbeat_due : Bool

module _ {W : Type 0} (link : LinkWorld W) where
  -- The exchange of a round: whether it was sent, and the frame that came back.
  unfoldable pub exchange_round : ℕ → LinkState W → Bool × (ReceivedFrame × LinkState W)
  exchange_round now s =
      if s.hello_due
      then (let (sent, (frame, w)) = link.say_hello s.world in
          (
            sent,
            (
              frame,
              if sent
                  then record s {
                    world = w;
                    hello_due = false;
                    manager = record s.manager { hello_pending = false; last_hello = now };
                  }
                  else record s { world = w },
            ),
          ))
      else (if s.heartbeat_due
          then (let (sent, (frame, w)) = link.send_heartbeat s.world in
              (
                sent,
                (
                  frame,
                  record s {
                    world = w;
                    heartbeat_due = false;
                    manager = record s.manager { last_heartbeat = now };
                  },
                ),
              ))
          else (let (sent, (frame, w)) = link.poll s.world in
              (sent, (frame, record s { world = w }))))

  -- A frame that is not valid is counted, and reported at most once a minute.
  unfoldable pub note_invalid : LinkState W → LinkState W
  note_invalid s =
      let m = s.manager in
      let time = link.millis s.world in
      let count = u32 (m.invalid_frame_count + 1) in
      let m' = record m {
        invalid_frame_count = count;
        backoff_until = u32 (time + invalid_frame_backoff_ms);
      } in
      if m.last_invalid_frame_report == 0
        || leb invalid_frame_report_ms (sub32 time m.last_invalid_frame_report)
      then (let (queued, w) = link.report_invalid s.world count in
          record s {
            world = w;
            manager =
                if queued
                then record m' { last_invalid_frame_report = time; invalid_frame_count = 0 }
                else m';
          })
      else record s { manager = m' }

  -- A round of the loop: whether it goes on if there is data.
  unfoldable pub round : ℕ → LinkState W → Bool × LinkState W
  round now s =
      let started = record s { manager = note_poll_started s.manager } in
      let (sent, (frame, s')) = exchange_round now started in
      let polled = record s' { manager = record s'.manager { last_poll = now } } in
      if not sent
      then (false, record polled { world = link.report_failed polled.world })
      else (if frame.valid
          then (let w = link.handle polled.world frame in
              (
                not (frame.type == frame_idle && not (link.data_ready w)),
                record polled { world = w },
              ))
          else (false, note_invalid polled))

  -- The loop, for at most `n` rounds.
  unfoldable pub drain_loop : ℕ → ℕ → LinkState W → LinkState W
  unfolding round
  drain_loop zero now s = s
  drain_loop (suc n) now s =
      let (more, s') = round now s in
      let rest = drain_loop n now s' in if more && link.data_ready s'.world then rest else s'

  pub drain_nivalo_link : LinkManager → W → LinkManager × W
  drain_nivalo_link m w =
      let now = link.millis w in
      let hello_due = m.hello_pending || leb hello_ms (sub32 now m.last_hello) in
      let heartbeat_due = leb heartbeat_ms (sub32 now m.last_heartbeat) in
      let poll_due = leb fallback_poll_ms (sub32 now m.last_poll) in
      let ready = link.data_ready w in
      if link.paused w
      then (m, w)
      else (if should_defer_command_poll m now ready
          then (m, w)
          else (if not heartbeat_due && ltb now m.backoff_until
              then (m, w)
              else (if not (ready || hello_due || heartbeat_due || poll_due)
                  then (m, w)
                  else (let s = drain_loop drain_limit now (record {
                    manager = m;
                    world = w;
                    hello_due = hello_due;
                    heartbeat_due = heartbeat_due;
                  }) in
                      (s.manager, s.world)))))
