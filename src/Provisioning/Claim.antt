-- ===== src/Provisioning/Claim.antt =====
-- src/NivaloProvisioning.cpp and src/NivaloCliClaimRecoveryPolicy.h: the requests of the CLI and of the
-- portal that start a claim. A request is what its document holds, where `none` stands for a document
-- of another form.
use nivalo_esp.Credentials.{
  RuntimeCredentials, Json, is_valid_credentials, is_valid_attempt, is_lower_hex_sha256,
}
use nivalo_esp.CliPolicy.{
  is_request_id, is_hardware_id, is_wifi_ssid, is_wifi_password, is_claim_code,
}
use nivalo_esp.Store.{Preferences, save_pending, no_credentials}
use nivalo_esp.Provisioning.{
  ProvisioningConfig, ProvisioningState, starting, connecting_wifi, syncing_time, setup_portal,
  claiming, ready, error, Outside, Provisioning, send_cli_claim_response, start_wifi,
  start_time_sync,
}
use nivalo_esp.Provisioning.Exchange.{clock_permits_tls}
use nivalo_esp.Provisioning.Loop.{no_attempt, clear_pending_claim}
use nivalo_esp.Common.{
  ℕ, ◌-◌, Bool, true, false, not, ◌&&◌, ◌||◌, [], map, Option, none, some, length, ltb, leb,
  if◌then◌else◌, Text, text_eq, is_empty,
}

pub record ClaimRequest : Type 0 where
  pub expected_hardware_id : Text
  pub wifi_ssid : Text
  pub wifi_password : Text
  pub code : Text

-- `String::toUpperCase`.
abbrev pub to_upper_case : Text → Text
to_upper_case = map (λ c. if leb b'a' c && leb c b'z' then c - 32 else c)

pub data ClaimRecoveryAction : Type 0 where
  reject_replay : ClaimRecoveryAction
  preserve_state : ClaimRecoveryAction
  connect_wifi : ClaimRecoveryAction
  sync_time : ClaimRecoveryAction
  be_ready : ClaimRecoveryAction

pub is_ordinary_startup : Bool → Bool → Bool → Bool → Bool
is_ordinary_startup connecting_state syncing_state has_pending_attempt changing_wifi_only =
    (connecting_state || syncing_state) && not has_pending_attempt && not changing_wifi_only

pub resume_action : Bool → Bool → Bool → Bool → Bool → ClaimRecoveryAction
resume_action ready_state ordinary_startup recovery_required wifi_connected clock_valid =
    if ready_state || ordinary_startup
    then preserve_state
    else (if not recovery_required
        then reject_replay
        else (if not wifi_connected
            then connect_wifi
            else (if not clock_valid then sync_time else be_ready)))

-- `_state == …`.
abbrev pub is_state : ProvisioningState → ProvisioningState → Bool
is_state starting starting = true
is_state connecting_wifi connecting_wifi = true
is_state syncing_time syncing_time = true
is_state setup_portal setup_portal = true
is_state claiming claiming = true
is_state ready ready = true
is_state error error = true
is_state s t = false

module _ {S : Type 0} (prefs : Preferences S) (json : Json) (config : ProvisioningConfig)
    (outside : Outside) where
  unfoldable pub create_pending_attempt :
      Provisioning S → Text → Text → Text → Bool × Provisioning S
  create_pending_attempt p claim_code ssid password =
      elim (outside.generate claim_code ssid password) [
        | none ↦ (false, p)
        | some attempt ↦ (is_valid_attempt attempt, record p { claim_attempt = attempt })
      ]

  -- `_store.savePending(_claimAttempt)`.
  unfoldable pub save_attempt : Provisioning S → Bool × Provisioning S
  save_attempt p =
      let (ok, store) = save_pending prefs json p.store p.claim_attempt in
      (ok, record p { store = store })

  -- An attempt for this code, with the keys of the one before if that has the same code, is made and
  -- saved.
  unfoldable pub prepare_attempt : Provisioning S → Text → Text → Text → Bool × Provisioning S
  prepare_attempt p claim_code ssid password =
      let (created, p') =
        if is_valid_attempt p.claim_attempt && text_eq claim_code p.claim_attempt.claim_code
        then (
          true,
          record p {
            claim_attempt = record p.claim_attempt { wifi_ssid = ssid; wifi_password = password };
          },
        )
        else create_pending_attempt p claim_code ssid password in
      if created then save_attempt p' else (false, p')

  pub recovery_action : Provisioning S → ClaimRecoveryAction
  recovery_action p =
      resume_action (is_state p.state ready)
        (is_ordinary_startup (is_state p.state connecting_wifi) (is_state p.state syncing_time)
          (is_valid_attempt p.claim_attempt) p.changing_wifi_only)
        (is_state p.state starting || is_state p.state setup_portal || is_state p.state error)
        outside.wifi_connected (clock_permits_tls config outside)

  -- The request is the one that the credentials came from.
  pub matches_receipt : RuntimeCredentials → ClaimRequest → Text → Bool
  matches_receipt c r receipt =
      is_lower_hex_sha256 c.claim_code_sha256
      && text_eq c.claim_code_sha256 receipt
      && text_eq c.wifi_ssid r.wifi_ssid
      && text_eq c.wifi_password r.wifi_password

  unfoldable pub recover : ClaimRecoveryAction → Provisioning S → Provisioning S
  recover connect_wifi p =
      start_wifi config outside p p.credentials.wifi_ssid p.credentials.wifi_password
  recover sync_time p = start_time_sync config outside p true
  recover be_ready p = record p { state = ready }
  recover preserve_state p = p
  recover reject_replay p = p

  -- Forgets the attempt, brings the device on its way, and answers.
  unfoldable pub answer_repeat : Provisioning S → ClaimRecoveryAction → Text → Bool × Provisioning S
  answer_repeat p action request_id =
      let forgotten = record p {
        claim_attempt = no_attempt;
        pending_claim_code = [];
        changing_wifi_only = false;
      } in
      (true, send_cli_claim_response config outside (recover action forgotten) request_id true)

  unfoldable pub clear_and_answer :
      Provisioning S → ClaimRecoveryAction → Text → Bool × Provisioning S
  clear_and_answer p action request_id =
      let (cleared, p') = clear_pending_claim prefs json config outside p in
      if cleared then answer_repeat p' action request_id else (false, p')

  -- What remains to do of a request that was carried out before.
  unfoldable pub repeat_claim : Provisioning S → ClaimRecoveryAction → Text → Bool × Provisioning S
  repeat_claim p reject_replay request_id = (false, p)
  repeat_claim p preserve_state request_id = answer_repeat p preserve_state request_id
  repeat_claim p connect_wifi request_id = clear_and_answer p connect_wifi request_id
  repeat_claim p sync_time request_id = clear_and_answer p sync_time request_id
  repeat_claim p be_ready request_id = clear_and_answer p be_ready request_id

  unfoldable pub start_claim : Provisioning S → Text → ClaimRequest → Text → Bool × Provisioning S
  start_claim p request_id r claim_code =
      let p' = record p {
        pending = record no_credentials {
          wifi_ssid = r.wifi_ssid;
          wifi_password = r.wifi_password;
        };
        pending_claim_code = claim_code;
      } in
      let (prepared, p'') = prepare_attempt p' claim_code r.wifi_ssid r.wifi_password in
      if not prepared then (false, p'') else (
        true,
        start_wifi config outside
            (record p'' {
              changing_wifi_only = false;
              claim_failures = 0;
              claim_retry_at = 0;
              cli_claim_request_id = request_id;
            })
            r.wifi_ssid r.wifi_password,
      )

  unfoldable pub handle_cli_claim :
      Provisioning S → Text → Option ClaimRequest → Bool × Provisioning S
  handle_cli_claim p request_id none = (false, p)
  handle_cli_claim p request_id (some r) =
      let claim_code = to_upper_case r.code in
      if not p.cli_provisioning_allowed || not (is_empty p.cli_claim_request_id)
      then (false, p)
      else (if not (is_hardware_id (some r.expected_hardware_id))
            || not (text_eq r.expected_hardware_id outside.hardware_id)
            || not (is_wifi_ssid (some r.wifi_ssid))
            || not (is_wifi_password (some r.wifi_password))
            || not (is_claim_code (some claim_code))
          then (false, p)
          else (elim (outside.sha256_text claim_code) [
            | none ↦ (false, p)
            | some receipt ↦
                if is_valid_credentials p.credentials
                then (if matches_receipt p.credentials r receipt
                    then repeat_claim p (recovery_action p) request_id
                    else (false, p))
                else start_claim p request_id r claim_code
          ]))

  -- A request for a claim in `handleCliLine`.
  unfoldable pub handle_claim_line : Provisioning S → Text → Option ClaimRequest → Provisioning S
  handle_claim_line p request_id request =
      if not (is_request_id (some request_id))
      then p
      else (let (ok, p') = handle_cli_claim p request_id request in
          if ok then p' else send_cli_claim_response config outside p' request_id false)

  -- The status of the answer, and the state after it.
  unfoldable pub handle_portal_submit : Provisioning S → Text → Text → Text → ℕ × Provisioning S
  handle_portal_submit p ssid password claim_arg =
      let claim = to_upper_case claim_arg in
      if is_empty ssid
        || ltb 32 (length ssid)
        || ltb 63 (length password)
        || (if p.changing_wifi_only then not (is_empty claim) else not (is_claim_code (some claim)))
      then (400, p)
      else (let p' = record p {
        pending = record no_credentials { wifi_ssid = ssid; wifi_password = password };
        pending_claim_code = claim;
      } in
          let (prepared, p'') =
            if p.changing_wifi_only then (true, p') else prepare_attempt p' claim ssid password in
          if not prepared
          then (500, p'')
          else (let q =
                if p.changing_wifi_only
                then p''
                else record p'' { claim_failures = 0; claim_retry_at = 0 } in
              (202, start_wifi config outside q ssid password)))
