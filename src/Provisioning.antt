-- ===== src/Provisioning.antt =====
-- src/NivaloProvisioning.{h,cpp}: the state machine of provisioning. The child modules have its
-- operations: Exchange the claim, Loop the passes of `loop`, Claim the requests of the CLI and the
-- portal, and Boot what happens at the start.
pub mod Exchange
pub mod Loop
pub mod Claim
pub mod Boot
pub mod View
pub mod Passes
pub mod Answers
pub mod Lines
pub mod Run
pub mod Attempts
mod Tests
use nivalo_esp.Credentials.{
  RuntimeCredentials, PendingClaimAttempt, is_valid_credentials, is_canonical_uuid,
}
use nivalo_esp.CliPolicy.{is_hardware_id}
use nivalo_esp.Store.{ProvisioningStore}
use nivalo_esp.Common.{
  ℤ, ℕ, Bool, true, false, not, ◌&&◌, List, [], ◌∷◌, Option, none, some, if◌then◌else◌, Text,
  is_empty,
}

pub data ProvisioningState : Type 0 where
  starting : ProvisioningState
  connecting_wifi : ProvisioningState
  syncing_time : ProvisioningState
  setup_portal : ProvisioningState
  claiming : ProvisioningState
  ready : ProvisioningState
  error : ProvisioningState

-- `has_button` says that the pin is not negative, and `has_cli` that there is a serial port for the
-- CLI.
pub record ProvisioningConfig : Type 0 where
  pub claim_url : Option Text
  pub has_button : Bool
  pub setup_button_hold_ms : ℕ
  pub wifi_connect_timeout_ms : ℕ
  pub time_sync_timeout_ms : ℕ
  pub time_sync_retry_base_ms : ℕ
  pub time_sync_retry_maximum_ms : ℕ
  pub minimum_valid_epoch_seconds : ℕ
  pub time_sync_maximum_attempts : ℕ
  pub has_cli : Bool

-- What a claim server answers: a refusal or another status than 200 and 201, a document of another
-- form than the claim's, or the identity of the device.
pub data ClaimAnswer : Type 0 where
  unavailable : ClaimAnswer
  malformed : ClaimAnswer
  identity : Text → Text → ℕ → Text → Text → Text → ClaimAnswer

-- What one pass reads from outside: the clocks, the Wi-Fi, the button, the claim server (`post`), the
-- MQTT broker (`connects`), the hash and the identifier of the chip; `generate` makes the keys of an
-- attempt.
pub record Outside : Type 0 where
  pub now : ℕ
  pub epoch : ℤ
  pub wifi_connected : Bool
  pub button_pressed : Bool
  pub post : PendingClaimAttempt → ClaimAnswer
  pub connects : RuntimeCredentials → Bool
  pub sha256_text : Text → Option Text
  pub hardware_id : Text
  pub generate : Text → Text → Text → Option PendingClaimAttempt

-- `wifi` is the network that was last joined, and `responses` are the answers to claims on the CLI, the
-- newest first.
pub record Provisioning (S : Type 0) : Type 0 where
  pub state : ProvisioningState
  pub store : ProvisioningStore S
  pub credentials : RuntimeCredentials
  pub pending : RuntimeCredentials
  pub claim_attempt : PendingClaimAttempt
  pub portal_running : Bool
  pub changing_wifi_only : Bool
  pub state_started_at : ℕ
  pub button_pressed_at : ℕ
  pub wifi_lost_at : ℕ
  pub time_sync_failures : ℕ
  pub time_sync_retry_at : ℕ
  pub time_sync_waiting_to_retry : Bool
  pub pending_claim_code : Text
  pub claim_failures : ℕ
  pub claim_retry_at : ℕ
  pub last_error : Text
  pub cli_claim_request_id : Text
  pub cli_provisioning_allowed : Bool
  pub wifi : Option (Text × Text)
  pub responses : List (Text × Bool)

module _ {S : Type 0} (config : ProvisioningConfig) (outside : Outside) where
  -- What `ok` is in the answer.
  pub response_ok : Provisioning S → Bool → Bool
  response_ok p ok =
      ok
      && is_valid_credentials p.credentials
      && is_canonical_uuid p.credentials.device_id
      && is_hardware_id (some outside.hardware_id)

  pub send_cli_claim_response : Provisioning S → Text → Bool → Provisioning S
  unfolding response_ok
  send_cli_claim_response p request_id ok =
      if not config.has_cli
      then p
      else record p { responses = (request_id, response_ok p ok) ∷ p.responses }

  pub fail_cli_claim : Provisioning S → Provisioning S
  fail_cli_claim p =
      if is_empty p.cli_claim_request_id
      then p
      else record (send_cli_claim_response p p.cli_claim_request_id false) {
        cli_claim_request_id = [];
      }

  pub start_portal : Provisioning S → Provisioning S
  start_portal p = record (fail_cli_claim p) {
    wifi = none;
    portal_running = true;
    state = setup_portal;
    state_started_at = outside.now;
  }

  unfoldable pub stop_portal : Provisioning S → Provisioning S
  stop_portal p = record p { portal_running = false }

  unfoldable pub start_wifi : Provisioning S → Text → Text → Provisioning S
  unfolding stop_portal
  start_wifi p ssid password = record (stop_portal p) {
    wifi = some (ssid, password);
    state = connecting_wifi;
    state_started_at = outside.now;
    wifi_lost_at = 0;
    time_sync_failures = 0;
    time_sync_retry_at = 0;
    time_sync_waiting_to_retry = false;
  }

  pub start_time_sync : Provisioning S → Bool → Provisioning S
  start_time_sync p reset_attempts = record p {
    time_sync_failures = if reset_attempts then 0 else p.time_sync_failures;
    time_sync_retry_at = 0;
    time_sync_waiting_to_retry = false;
    state = syncing_time;
    state_started_at = outside.now;
  }

  pub enter_setup_mode : Provisioning S → Provisioning S
  unfolding start_portal
  enter_setup_mode p =
      start_portal (record p { changing_wifi_only = is_valid_credentials p.credentials })

  pub set_error : Provisioning S → Text → Provisioning S
  set_error p message = record p { last_error = message; state = error }
