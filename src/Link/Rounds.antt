-- ===== src/Link/Rounds.antt =====
-- src/NivaloDeviceLink.cpp: the loop of `drainNivaloLink`, as rounds in a row.
use nivalo_esp.PollPolicy.{fallback_poll_ms, LinkManager, should_defer_command_poll}
use nivalo_esp.Link.{
  hello_ms, heartbeat_ms, LinkWorld, LinkState, round, drain_loop, drain_limit, drain_nivalo_link,
}
use nivalo_esp.Common.{
  ℕ, zero, suc, ◌≤◌, ◌<◌, ◌≡◌, ◌⊎◌, inl, inr, refl, ap, ◌∙◌, Bool, true, false, not, ◌&&◌, ◌||◌,
  arith, ltb, leb, if◌then◌else◌, Bool-cases, sub32, if_cases,
}

module _ {W : Type 0} (link : LinkWorld W) where
  -- `k` rounds in a row.
  abbrev pub rounds : ℕ → ℕ → LinkState W → LinkState W
  rounds zero now s = s
  rounds (suc k) now s = rounds k now (round link now s).1

  -- The round after `k` others went on, with data ready after it.
  abbrev pub goes_on : ℕ → ℕ → LinkState W → Bool
  goes_on k now s =
      (round link now (rounds k now s)).0
      && link.data_ready (round link now (rounds k now s)).1.world

  -- The loop with `n` rounds left after the first makes `later` more: every round but the last goes on,
  -- and the last does not unless none is left.
  pub record IsDrain (n now : ℕ) (s s' : LinkState W) : Type 0 where
    pub later : ℕ
    pub bounded : later ≤ n
    pub result : s' ≡ rounds (suc later) now s
    pub before : (j : ℕ) → j < later → goes_on j now s ≡ true
    pub ends : (later ≡ n) ⊎ (goes_on later now s ≡ false)

  one_round :
      (n now : ℕ) (s : LinkState W)
      → goes_on 0 now s ≡ false
      → IsDrain n now s (drain_loop link (suc n) now s)
  unfolding drain_loop
  one_round n now s stop = record {
    later = 0;
    bounded = omega arith;
    result = rw stop refl;
    before = λ j lt. ground arith;
    ends = inr stop;
  }

  last_round : (now : ℕ) (s : LinkState W) → IsDrain 0 now s (drain_loop link 1 now s)
  unfolding drain_loop
  last_round now s = record {
    later = 0;
    bounded = omega arith;
    result = if_cases (λ t. t ≡ rounds 1 now s) (goes_on 0 now s) _ _ (λ e. refl) (λ e. refl);
    before = λ j lt. ground arith;
    ends = inl refl;
  }

  goes_on_before :
      (k now : ℕ) (s : LinkState W)
      → goes_on 0 now s ≡ true
      → ((j : ℕ) → j < k → goes_on j now (round link now s).1 ≡ true)
      → (j : ℕ) → j < suc k
      → goes_on j now s ≡ true
  goes_on_before k now s first later zero lt = first
  goes_on_before k now s first later (suc j) lt = later j (omega arith)

  next_round :
      (n now : ℕ) (s : LinkState W)
      → goes_on 0 now s ≡ true
      → IsDrain n now (round link now s).1 (drain_loop link (suc n) now (round link now s).1)
      → IsDrain (suc n) now s (drain_loop link (suc (suc n)) now s)
  unfolding drain_loop
  next_round n now s more d = record {
    later = suc d.later;
    bounded = (let h = d.bounded in omega arith);
    result =
        ap
          (λ b.
            if b then drain_loop link (suc n) now (round link now s).1 else (round link now s).1)
          more
        ∙ d.result;
    before = goes_on_before d.later now s more d.before;
    ends = elim d.ends [ inl e ↦ inl (ap suc e) | inr e ↦ inr e ];
  }

  -- The loop with at most `n + 1` rounds ends after at least one and at most that many: each of them
  -- but the last goes on and leaves data ready, and the last does not unless the limit is reached.
  pub drain_loop-IsDrain :
      (n now : ℕ) (s : LinkState W) → IsDrain n now s (drain_loop link (suc n) now s)
  drain_loop-IsDrain zero now s = last_round now s
  drain_loop-IsDrain (suc n) now s = elim (Bool-cases (goes_on 0 now s)) [
    | inl more ↦ next_round n now s more (drain_loop-IsDrain n now (round link now s).1)
    | inr stop ↦ one_round (suc n) now s stop
  ]

  -- Whether the link is to be drained at all.
  abbrev pub should_drain : LinkManager → W → Bool
  should_drain m w =
      let now = link.millis w in
      let hello_due = m.hello_pending || leb hello_ms (sub32 now m.last_hello) in
      let heartbeat_due = leb heartbeat_ms (sub32 now m.last_heartbeat) in
      let poll_due = leb fallback_poll_ms (sub32 now m.last_poll) in
      let ready = link.data_ready w in
      (not (link.paused w)
        && (not (should_defer_command_poll m now ready)
            && ((heartbeat_due || not (ltb now m.backoff_until))
                && (ready || hello_due || heartbeat_due || poll_due))))

  -- What the loop starts from.
  abbrev pub start : LinkManager → W → LinkState W
  start m w =
      let now = link.millis w in
      record {
        manager = m;
        world = w;
        hello_due = m.hello_pending || leb hello_ms (sub32 now m.last_hello);
        heartbeat_due = leb heartbeat_ms (sub32 now m.last_heartbeat);
      }

  drain-start :
      (m : LinkManager) (w : W)
      → drain_nivalo_link link m w ≡ (
          let s = drain_loop link drain_limit (link.millis w) (start m w) in
          if should_drain m w then (s.manager, s.world) else (m, w))
  unfolding drain_nivalo_link
  drain-start m w = ground arith

  -- Draining the link leaves it as it is when it is paused, its poll is put off, it backs off with no
  -- heartbeat due, or nothing is due. Otherwise it ends after at least one and at most eight rounds:
  -- every round but the last goes on and leaves data ready, and the last does not unless it is the
  -- eighth.
  pub at_most_eight :
      (m : LinkManager) (w : W)
      → (should_drain m w ≡ false × drain_nivalo_link link m w ≡ (m, w))
        ⊎ (should_drain m w ≡ true
            × ((s' : LinkState W) × IsDrain 7 (link.millis w) (start m w) s'
                × drain_nivalo_link link m w ≡ (s'.manager, s'.world)))
  at_most_eight m w =
      let now = link.millis w in
      let s' = drain_loop link drain_limit now (start m w) in
      elim (Bool-cases (should_drain m w)) [
        | inl due ↦ inr (
          due,
          (
            s',
            drain_loop-IsDrain 7 now (start m w),
            drain-start m w ∙ ap (λ b. if b then (s'.manager, s'.world) else (m, w)) due,
          ),
        )
        | inr idle ↦
            inl
              (idle, drain-start m w ∙ ap (λ b. if b then (s'.manager, s'.world) else (m, w)) idle)
      ]
