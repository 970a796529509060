-- ===== src/Provisioning/Passes.antt =====
-- A pass of the loop loses no answer.
use nivalo_esp.TimePolicy.{retry_due, may_retry, elapsed}
use nivalo_esp.Credentials.{RuntimeCredentials, Json}
use nivalo_esp.Store.{clear_pending, Preferences}
use nivalo_esp.Provisioning.{
  ProvisioningConfig, ProvisioningState, starting, connecting_wifi, syncing_time, setup_portal,
  claiming, ready, error, Outside, Provisioning, ClaimAnswer, unavailable, malformed, identity,
  fail_cli_claim, enter_setup_mode,
}
use nivalo_esp.Provisioning.Exchange.{
  clock_permits_tls, claimed, take_answer, exchange_claim, take_identity, verify_existing_identity,
}
use nivalo_esp.Provisioning.Loop.{
  no_attempt, commit_pending, clear_pending_claim, verify_and_commit, keep_identity,
  continue_after_time_sync, give_up, check_button, connecting_pass, sync_failed, syncing_pass,
  claim_committed, claim_failed, claiming_pass, ready_pass, state_pass, loop,
}
use nivalo_esp.Provisioning.View.{
  total, closed_state, quiet_state, answered_state, changed_done, after_time_sync, IsKept-changed,
  View, view, IsKept, IsKept-refl, IsKept-trans, closed, view-send, view-fail, IsKept-fail,
  IsKept-portal, IsKept-time_sync,
}
use nivalo_esp.Common.{
  ℕ, ◌+◌, ◌≡◌, inl, inr, refl, sym, ap, subst, Bool, true, false, not, arith, [], leb, ◌==◌,
  if◌then◌else◌, Option-cases, u8, Text, codes, is_empty, if_cases,
}

module _ {S : Type 0} (weigh : Text → ℕ) (prefs : Preferences S) (json : Json)
    (config : ProvisioningConfig) (outside : Outside) (cli : config.has_cli ≡ true) where
  -- A step from one state to the other keeps the view in order.
  pub record Kept (p p' : Provisioning S) : Type 0 where
    pub kept : IsKept weigh (view weigh p) (view weigh p')

  Kept-same : {p p' : Provisioning S} → view weigh p' ≡ view weigh p → Kept p p'
  Kept-same {p = p} e = record {
    kept = subst (IsKept weigh (view weigh p)) (sym e) (IsKept-refl weigh (view weigh p));
  }

  Kept-trans : {p q r : Provisioning S} → Kept p q → Kept q r → Kept p r
  Kept-trans a b = record { kept = IsKept-trans weigh a.kept b.kept }

  Kept-if : {p q r : Provisioning S} (b : Bool) → Kept p q → Kept p r → Kept p (if b then q else r)
  Kept-if true a b = a
  Kept-if false a b = b

  Kept-give_up : (p : Provisioning S) → Kept p (give_up prefs json config outside p)
  unfolding give_up
  Kept-give_up p = record {
    kept =
        IsKept-trans weigh (IsKept-fail weigh config outside cli p)
          (IsKept-portal weigh config outside cli (fail_cli_claim config outside p));
  }

  Kept-setup : (p : Provisioning S) → Kept p (enter_setup_mode config outside p)
  unfolding enter_setup_mode
  Kept-setup p = record { kept = IsKept-changed weigh config outside cli p _ }

  -- The button is down since then.
  Kept-pressed :
      (p q : Provisioning S)
      → view weigh q ≡ view weigh p
      → Kept p (
          if elapsed outside.now q.button_pressed_at config.setup_button_hold_ms
          then enter_setup_mode config outside (record q { button_pressed_at = 0 })
          else q)
  Kept-pressed p q e =
      Kept-if (elapsed outside.now q.button_pressed_at config.setup_button_hold_ms)
        (Kept-trans (Kept-same {p = p} {p' = record q { button_pressed_at = 0 }} e)
          (Kept-setup (record q { button_pressed_at = 0 })))
        (Kept-same e)

  Kept-button : (p : Provisioning S) → Kept p (check_button prefs json config outside p)
  unfolding check_button
  Kept-button p = Kept-if (not config.has_button) (Kept-same refl) (
      Kept-if (not outside.button_pressed) (Kept-same refl) (
        Kept-pressed p
          (if p.button_pressed_at == 0 then record p { button_pressed_at = outside.now } else p)
          (if_cases (λ (q : Provisioning S). view weigh q ≡ view weigh p) (p.button_pressed_at == 0)
            (record p { button_pressed_at = outside.now }) p (λ e. refl) (λ e. refl))))

  view-identity :
      (p : Provisioning S) (filled : RuntimeCredentials)
      → view weigh (take_identity config outside p filled).1 ≡ view weigh p
  unfolding take_identity
  view-identity p filled = elim (Option-cases (outside.sha256_text p.claim_attempt.claim_code)) [
    | inl e ↦ rw (take_identity, e) refl
    | inr (receipt, e) ↦
        rw (take_identity, e)
          (if_cases (λ (r : Bool × Provisioning S). view weigh r.1 ≡ view weigh p) _ _ _ (λ k. refl)
            (λ k. refl))
  ]

  view-answer :
      (p : Provisioning S) (a : ClaimAnswer)
      → view weigh (take_answer config outside p a).1 ≡ view weigh p
  unfolding take_answer
  view-answer p unavailable = refl
  view-answer p malformed = refl
  view-answer p (identity d h n c u k) =
      ground (arith, view-identity p (claimed config outside p d h n c u k))

  view-exchange :
      (p : Provisioning S) → view weigh (exchange_claim config outside p).1 ≡ view weigh p
  unfolding exchange_claim
  view-exchange p = ground (arith, view-answer p (outside.post p.claim_attempt))

  view-verify :
      (p : Provisioning S)
      → view weigh (verify_and_commit prefs json config outside p).1 ≡ view weigh p
  unfolding verify_and_commit commit_pending verify_existing_identity
  view-verify p = ground arith

  Kept-connecting : (p : Provisioning S) → Kept p (connecting_pass prefs json config outside p)
  unfolding connecting_pass
  Kept-connecting p =
      Kept-if outside.wifi_connected
        (record { kept = IsKept-time_sync weigh config outside cli p true })
        (Kept-if (elapsed outside.now p.state_started_at config.wifi_connect_timeout_ms)
          (Kept-give_up p) (Kept-same refl))

  Kept-ready : (p : Provisioning S) → Kept p (ready_pass prefs json config outside p)
  unfolding ready_pass
  Kept-ready p = Kept-if outside.wifi_connected (Kept-same refl) (
      Kept-if (p.wifi_lost_at == 0) (Kept-same refl) (
        Kept-if (elapsed outside.now p.wifi_lost_at config.wifi_connect_timeout_ms)
          (record { kept = IsKept-changed weigh config outside cli p true }) (Kept-same refl)))

  Kept-sync_failed : (p : Provisioning S) → Kept p (sync_failed prefs json config outside p)
  unfolding sync_failed
  Kept-sync_failed p =
      let failures = u8 (p.time_sync_failures + 1) in
      let q = record p {
        time_sync_failures = failures;
        last_error = codes "Clock synchronization timed out; TLS was not attempted";
      } in
      Kept-if (not (may_retry failures config.time_sync_maximum_attempts))
        (Kept-trans (Kept-same {p = p} {p' = q} refl) (Kept-give_up q)) (Kept-same refl)

  Kept-claim_failed : (p : Provisioning S) → Kept p (claim_failed prefs json config outside p)
  unfolding claim_failed
  Kept-claim_failed p =
      let failures = u8 (p.claim_failures + 1) in
      let q = record p { claim_failures = failures } in
      Kept-if (leb 5 failures) (Kept-trans (Kept-same {p = p} {p' = q} refl) (Kept-give_up q))
        (Kept-same refl)

  Kept-view :
      {p q : Provisioning S} {w : View}
      → view weigh q ≡ w
      → IsKept weigh (view weigh p) w
      → Kept p q
  Kept-view {p = p} e k = record { kept = subst (IsKept weigh (view weigh p)) (sym e) k }

  Kept-committed : (p : Provisioning S) → Kept p (claim_committed prefs json config outside p)
  unfolding claim_committed clear_pending_claim
  Kept-committed p =
      let (cleared, store) = clear_pending prefs json p.store in
      let q = record p { credentials = p.pending; store = store } in
      let fails = record q { last_error = codes "Committed claim cleanup failed" } in
      let done = record q { pending_claim_code = []; claim_attempt = no_attempt; state = ready } in
      Kept-if (not cleared)
        (Kept-view {p = p} {w = record (closed weigh (view weigh p)) { state = error }}
          (ap (λ (v : View). record v { state = error }) (view-fail weigh config outside cli fails))
          (closed_state weigh (view weigh p) error))
        (if_cases (Kept p) (is_empty p.cli_claim_request_id) done _
          (λ e. record { kept = quiet_state weigh (view weigh p) ready [] e })
          (λ e.
            Kept-view {p = p}
              {w = record (view weigh p) {
                state = ready;
                pending_claim_code = [];
                answers = weigh p.cli_claim_request_id + total weigh p.responses;
                request_id = [];
              }}
              (ap (λ (v : View). record v { request_id = [] })
                (view-send weigh config outside cli done p.cli_claim_request_id true))
              (answered_state weigh (view weigh p) ready [] e)))

  Kept-continue :
      (p : Provisioning S) → Kept p (continue_after_time_sync prefs json config outside p)
  unfolding continue_after_time_sync keep_identity
  Kept-continue p =
      let verified =
        verify_and_commit prefs json config outside (keep_identity prefs json config outside p) in
      let same : view weigh verified.1 ≡ view weigh p =
        view-verify (keep_identity prefs json config outside p) in
      if_cases (Kept p) p.changing_wifi_only _ _
        (λ e.
          Kept-if verified.0
            (Kept-view {p = p} {w = record (view weigh p) { state = ready }}
              (ap (λ (v : View). record v { state = ready }) same)
              (changed_done weigh (view weigh p) e))
            (Kept-trans (Kept-same {p = p} {p' = verified.1} same) (record {
              kept = IsKept-portal weigh config outside cli (record verified.1 {
                last_error = codes "New Wi-Fi could not validate the existing MQTT TLS identity";
              });
            })))
        (λ e. record { kept = after_time_sync weigh (view weigh p) })

  Kept-syncing : (p : Provisioning S) → Kept p (syncing_pass prefs json config outside p)
  unfolding syncing_pass
  Kept-syncing p =
      let q = record p { wifi_lost_at = 0 } in
      let same : Kept p q = Kept-same refl in
      Kept-if (not outside.wifi_connected)
        (Kept-if (p.wifi_lost_at == 0) (Kept-same refl) (
          Kept-if (elapsed outside.now p.wifi_lost_at config.wifi_connect_timeout_ms)
            (Kept-give_up p) (Kept-same refl)))
        (Kept-if (clock_permits_tls config outside) (Kept-trans same (Kept-continue q)) (
          Kept-if p.time_sync_waiting_to_retry
            (Kept-if (retry_due outside.now p.time_sync_retry_at)
              (Kept-trans same
                (record { kept = IsKept-time_sync weigh config outside cli q false }))
              same)
            (Kept-if (elapsed outside.now p.state_started_at config.time_sync_timeout_ms)
              (Kept-trans same (Kept-sync_failed q)) same)))

  Kept-claiming : (p : Provisioning S) → Kept p (claiming_pass prefs json config outside p)
  unfolding claiming_pass
  Kept-claiming p =
      let exchanged = exchange_claim config outside p in
      let committed = verify_and_commit prefs json config outside exchanged.1 in
      let first : Kept p exchanged.1 = Kept-same (view-exchange p) in
      let second : Kept p committed.1 = Kept-trans first (Kept-same (view-verify exchanged.1)) in
      Kept-if (not (retry_due outside.now p.claim_retry_at)) (Kept-same refl) (
        Kept-if exchanged.0
          (Kept-if committed.0 (Kept-trans second (Kept-committed committed.1))
            (Kept-trans second (Kept-claim_failed committed.1)))
          (Kept-trans first (Kept-claim_failed exchanged.1)))

  Kept-state :
      (s : ProvisioningState) (p : Provisioning S)
      → Kept p (state_pass prefs json config outside s p)
  unfolding state_pass
  Kept-state connecting_wifi p = Kept-connecting p
  Kept-state syncing_time p = Kept-syncing p
  Kept-state claiming p = Kept-claiming p
  Kept-state ready p = Kept-ready p
  Kept-state starting p = Kept-same refl
  Kept-state setup_portal p = Kept-same refl
  Kept-state error p = Kept-same refl

  pub Kept-loop : (p : Provisioning S) → Kept p (loop prefs json config outside p)
  unfolding loop
  Kept-loop p = Kept-trans (Kept-button p) (
      Kept-state (check_button prefs json config outside p).state
        (check_button prefs json config outside p))
