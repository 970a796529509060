-- ===== src/Link/Backoff.antt =====
-- src/NivaloDeviceLink.cpp: how long `drainNivaloLink` leaves the link alone after an invalid frame.
use nivalo_esp.PollPolicy.{LinkManager, note_poll_started}
use nivalo_esp.Transport.{ReceivedFrame}
use nivalo_esp.Link.{
  LinkWorld, LinkState, exchange_round, note_invalid, round, drain_loop, heartbeat_ms,
  invalid_frame_backoff_ms, drain_nivalo_link,
}
use nivalo_esp.Common.{
  ℕ, suc, ◌+◌, ◌^◌, ◌≤◌, ◌<◌, ◌≡◌, ◌⊎◌, inl, inr, refl, ap, ◌∙◌, Bool, true, false, arith, ltb, leb,
  u32, sub32,
}

module _ {W : Type 0} (link : LinkWorld W) where
  backed_off :
      (m : LinkManager) (w : W)
      → leb heartbeat_ms (sub32 (link.millis w) m.last_heartbeat) ≡ false
      → ltb (link.millis w) m.backoff_until ≡ true
      → drain_nivalo_link link m w ≡ (m, w)
  unfolding drain_nivalo_link
  backed_off m w no_heartbeat early = rw (no_heartbeat, early) (ground arith)

  wait_until :
      (m : LinkManager) (w : W) (set_at elapsed : ℕ)
      → set_at + invalid_frame_backoff_ms < 2 ^ 32
      → m.backoff_until ≡ u32 (set_at + invalid_frame_backoff_ms)
      → elapsed < 2 ^ 32
      → link.millis w ≡ u32 (set_at + elapsed)
      → (elapsed < invalid_frame_backoff_ms) ⊎ (2 ^ 32 ≤ set_at + elapsed)
      → sub32 (link.millis w) m.last_heartbeat < heartbeat_ms
      → drain_nivalo_link link m w ≡ (m, w)
  wait_until m w set_at elapsed fits until h now early beat =
      backed_off m w (ground arith) (before_until early)
    where
      before_until :
          (elapsed < invalid_frame_backoff_ms) ⊎ (2 ^ 32 ≤ set_at + elapsed)
          → ltb (link.millis w) m.backoff_until ≡ true
      before_until (inl soon) = rw (now, until) (ground arith)
      before_until (inr wrapped) = rw (now, until) (ground arith)

  note_invalid-until :
      (s : LinkState W)
      → (note_invalid link s).manager.backoff_until
        ≡ u32 (link.millis s.world + invalid_frame_backoff_ms)
  unfolding note_invalid
  note_invalid-until s = ground arith

  -- What a round of the loop receives.
  abbrev pub received : ℕ → LinkState W → Bool × (ReceivedFrame × LinkState W)
  received now s = exchange_round link now (record s { manager = note_poll_started s.manager })

  round-invalid :
      (now : ℕ) (s : LinkState W)
      → (received now s).0 ≡ true
      → (received now s).1.0.valid ≡ false
      → ((round link now s).0 ≡ false)
        × ((round link now s).1.manager.backoff_until
            ≡ u32 (link.millis (received now s).1.1.world + invalid_frame_backoff_ms))
  unfolding round
  round-invalid now s sent bad = (rw (sent, bad) refl, rw (sent, bad) (note_invalid-until _))

  drain_loop-invalid :
      (n now : ℕ) (s : LinkState W)
      → (round link now s).0 ≡ false
      → drain_loop link (suc n) now s ≡ (round link now s).1
  unfolding drain_loop
  drain_loop-invalid n now s ends = rw ends refl

  -- Let a round of the loop receive an invalid frame at a time that is not within 250 ms of the wrap of the clock.
  -- Then the drain ends, and at any time less than 2^32 ms later at which no heartbeat is due, the next drain leaves
  -- the link as it is before the 250 ms are over, and also whenever the clock has wrapped,
  -- whatever data is ready.
  pub left_alone :
      (n now : ℕ) (s : LinkState W) (w : W) (elapsed : ℕ)
      → (received now s).0 ≡ true
      → (received now s).1.0.valid ≡ false
      → let set_at = link.millis (received now s).1.1.world in
        let m = (drain_loop link (suc n) now s).manager in
        set_at + invalid_frame_backoff_ms < 2 ^ 32
        → elapsed < 2 ^ 32
        → link.millis w ≡ u32 (set_at + elapsed)
        → (elapsed < invalid_frame_backoff_ms) ⊎ (2 ^ 32 ≤ set_at + elapsed)
        → sub32 (link.millis w) m.last_heartbeat < heartbeat_ms
        → drain_nivalo_link link m w ≡ (m, w)
  left_alone n now s w elapsed sent bad fits h later early beat =
      let (ends, until) = round-invalid now s sent bad in
      let result = drain_loop-invalid n now s ends in
      wait_until (drain_loop link (suc n) now s).manager w (link.millis (received now s).1.1.world)
        elapsed fits (ap (λ (t : LinkState W). t.manager.backoff_until) result ∙ until) h later
        early beat
