-- ===== src/Provisioning/Loop.antt =====
-- src/NivaloProvisioning.cpp: one pass of `loop`, without the serial line of the CLI and the requests
-- to the portal, which are operations of their own. The clock is read once in a pass.
use nivalo_esp.TimePolicy.{elapsed, retry_due, may_retry, retry_delay}
use nivalo_esp.Credentials.{PendingClaimAttempt, Json}
use nivalo_esp.Store.{Preferences, commit, clear_pending}
use nivalo_esp.Provisioning.{
  ProvisioningConfig, ProvisioningState, starting, connecting_wifi, syncing_time, setup_portal,
  claiming, ready, error, Outside, Provisioning, send_cli_claim_response, fail_cli_claim,
  start_portal, start_time_sync, enter_setup_mode,
}
use nivalo_esp.Provisioning.Exchange.{clock_permits_tls, exchange_claim, verify_existing_identity}
use nivalo_esp.Common.{
  ◌+◌, ◌*◌, ◌-◌, ◌^◌, Bool, true, false, not, [], min, leb, ◌==◌, if◌then◌else◌, u8, u32, codes,
  is_empty,
}

-- `NivaloPendingClaimAttempt()`.
unfoldable pub no_attempt : PendingClaimAttempt
no_attempt = record {
  wifi_ssid = [];
  wifi_password = [];
  claim_code = [];
  attempt_id = [];
  nonce = [];
  public_key_pem = [];
  private_key_pem = [];
  mqtt_credential = [];
  credential_sha256 = [];
  signature_base64 = [];
}

module _ {S : Type 0} (prefs : Preferences S) (json : Json) (config : ProvisioningConfig)
    (outside : Outside) where
  -- `_store.commit(_pending)`.
  unfoldable pub commit_pending : Provisioning S → Bool × Provisioning S
  commit_pending p =
      let (ok, store) = commit prefs json p.store p.pending in (ok, record p { store = store })

  unfoldable pub clear_pending_claim : Provisioning S → Bool × Provisioning S
  clear_pending_claim p =
      let (ok, store) = clear_pending prefs json p.store in (ok, record p { store = store })

  -- `verifyExistingIdentity() && _store.commit(_pending)`.
  unfoldable pub verify_and_commit : Provisioning S → Bool × Provisioning S
  verify_and_commit p =
      let (verified, p') = verify_existing_identity config outside p in
      if verified then commit_pending p' else (false, p')

  -- The identity that is kept when only the Wi-Fi changes.
  unfoldable pub keep_identity : Provisioning S → Provisioning S
  keep_identity p = record p {
    pending = record p.credentials {
      wifi_ssid = p.pending.wifi_ssid;
      wifi_password = p.pending.wifi_password;
      claim_code_sha256 = [];
    };
  }

  unfoldable pub continue_after_time_sync : Provisioning S → Provisioning S
  continue_after_time_sync p =
      if p.changing_wifi_only
      then (let (ok, p') = verify_and_commit (keep_identity p) in
          if ok
          then record p' { credentials = p'.pending; state = ready; state_started_at = outside.now }
          else record (start_portal config outside (record p' {
            last_error = codes "New Wi-Fi could not validate the existing MQTT TLS identity";
          })) { state_started_at = outside.now })
      else record p {
        state = if is_empty p.pending_claim_code then ready else claiming;
        state_started_at = outside.now;
      }

  -- `failCliClaim(); startPortal();`
  unfoldable pub give_up : Provisioning S → Provisioning S
  give_up p = start_portal config outside (fail_cli_claim config outside p)

  unfoldable pub check_button : Provisioning S → Provisioning S
  check_button p =
      if not config.has_button
      then p
      else (if not outside.button_pressed
          then record p { button_pressed_at = 0 }
          else (let p' =
                if p.button_pressed_at == 0
                then record p { button_pressed_at = outside.now }
                else p in
              if elapsed outside.now p'.button_pressed_at config.setup_button_hold_ms
              then enter_setup_mode config outside (record p' { button_pressed_at = 0 })
              else p'))

  unfoldable pub connecting_pass : Provisioning S → Provisioning S
  connecting_pass p =
      if outside.wifi_connected
      then start_time_sync config outside p true
      else (if elapsed outside.now p.state_started_at config.wifi_connect_timeout_ms
          then give_up p
          else p)

  -- A synchronisation that took too long.
  unfoldable pub sync_failed : Provisioning S → Provisioning S
  sync_failed p =
      let failures = u8 (p.time_sync_failures + 1) in
      let p' = record p { time_sync_failures = failures } in
      if not (may_retry failures config.time_sync_maximum_attempts)
      then give_up (record p' {
        last_error = codes "Clock synchronization timed out; TLS was not attempted";
      })
      else record p' {
        time_sync_retry_at = u32 (
            outside.now
            + retry_delay failures config.time_sync_retry_base_ms
                config.time_sync_retry_maximum_ms);
        time_sync_waiting_to_retry = true;
      }

  unfoldable pub syncing_pass : Provisioning S → Provisioning S
  syncing_pass p =
      if not outside.wifi_connected
      then (if p.wifi_lost_at == 0
          then record p { wifi_lost_at = outside.now }
          else (if elapsed outside.now p.wifi_lost_at config.wifi_connect_timeout_ms
              then give_up p
              else p))
      else (let p' = record p { wifi_lost_at = 0 } in
          if clock_permits_tls config outside
          then continue_after_time_sync p'
          else (if p'.time_sync_waiting_to_retry
              then (if retry_due outside.now p'.time_sync_retry_at
                  then start_time_sync config outside p' false
                  else p')
              else (if elapsed outside.now p'.state_started_at config.time_sync_timeout_ms
                  then sync_failed p'
                  else p')))

  -- After the new credentials were committed.
  unfoldable pub claim_committed : Provisioning S → Provisioning S
  claim_committed p =
      let (cleared, p') = clear_pending_claim (record p { credentials = p.pending }) in
      if not cleared
      then record (fail_cli_claim config outside
          (record p' { last_error = codes "Committed claim cleanup failed" })) { state = error }
      else (let p'' = record p' {
        pending_claim_code = [];
        claim_attempt = no_attempt;
        state = ready;
      } in
          if is_empty p''.cli_claim_request_id
          then p''
          else record (send_cli_claim_response config outside p'' p''.cli_claim_request_id true) {
            cli_claim_request_id = [];
          })

  -- `++_claimFailures`, and what follows.
  unfoldable pub claim_failed : Provisioning S → Provisioning S
  claim_failed p =
      let failures = u8 (p.claim_failures + 1) in
      let p' = record p { claim_failures = failures } in
      if leb 5 failures
      then give_up p'
      else record p' { claim_retry_at = u32 (outside.now + min 60000 (5000 * 2 ^ (failures - 1))) }

  unfoldable pub claiming_pass : Provisioning S → Provisioning S
  claiming_pass p =
      if not (retry_due outside.now p.claim_retry_at)
      then p
      else (let (exchanged, p') = exchange_claim config outside p in
          let (committed, p'') = verify_and_commit p' in
          if exchanged
          then (if committed then claim_committed p'' else claim_failed p'')
          else claim_failed p')

  unfoldable pub ready_pass : Provisioning S → Provisioning S
  ready_pass p =
      if outside.wifi_connected
      then record p { wifi_lost_at = 0 }
      else (if p.wifi_lost_at == 0
          then record p { wifi_lost_at = outside.now }
          else (if elapsed outside.now p.wifi_lost_at config.wifi_connect_timeout_ms
              then start_portal config outside (record p { changing_wifi_only = true })
              else p))

  unfoldable pub state_pass : ProvisioningState → Provisioning S → Provisioning S
  state_pass connecting_wifi p = connecting_pass p
  state_pass syncing_time p = syncing_pass p
  state_pass claiming p = claiming_pass p
  state_pass ready p = ready_pass p
  state_pass starting p = p
  state_pass setup_portal p = p
  state_pass error p = p

  unfoldable pub loop : Provisioning S → Provisioning S
  loop p = let p' = check_button p in state_pass p'.state p'
