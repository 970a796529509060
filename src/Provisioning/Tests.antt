-- ===== src/Provisioning/Tests.antt =====
-- The theorems at concrete inputs.
use nivalo_esp.Credentials.{
  PendingClaimAttempt, is_valid_credentials, is_valid_attempt, is_canonical_uuid, uuid_loop,
  serialize_pending,
}
use nivalo_esp.Credentials.Example.{example_attempt, example_json}
use nivalo_esp.Store.{no_credentials, save_pending, put_checked}
use nivalo_esp.Store.Memory.{Memory, memory, blank}
use nivalo_esp.Provisioning.{
  start_wifi, stop_portal, ProvisioningConfig, setup_portal, claiming, Outside, Provisioning,
  unavailable,
}
use nivalo_esp.Provisioning.Claim.{
  ClaimRequest, handle_claim_line, handle_cli_claim, start_claim, prepare_attempt,
  create_pending_attempt, save_attempt,
}
use nivalo_esp.CliPolicy.{
  contains_control, is_request_id, is_hex, is_hardware_id, is_wifi_ssid, is_wifi_password,
  is_claim_code,
}
use nivalo_esp.Provisioning.Loop.{no_attempt}
use nivalo_esp.Provisioning.View.{total, view, waiting, IsSound}
use nivalo_esp.Provisioning.Run.{Event, claim_line, pass, run, received, is_id, answered_once}
use nivalo_esp.Common.{
  ◌+◌, ◌≡◌, refl, true, false, List, [], ◌∷◌, none, some, replicate, Text, codes, text_eq, pos,
}

abbrev config : ProvisioningConfig
config = record {
  claim_url = some (codes "https://iot-api.nivalo.io/v1/device-claims/exchange");
  has_button = false;
  setup_button_hold_ms = 3000;
  wifi_connect_timeout_ms = 20000;
  time_sync_timeout_ms = 15000;
  time_sync_retry_base_ms = 2000;
  time_sync_retry_maximum_ms = 30000;
  minimum_valid_epoch_seconds = 1704067200;
  time_sync_maximum_attempts = 3;
  has_cli = true;
}

-- No claim server answers.
abbrev outside : Outside
outside = record {
  now = 70000;
  epoch = pos 0;
  wifi_connected = true;
  button_pressed = false;
  post = λ attempt. unavailable;
  connects = λ credentials. false;
  sha256_text = λ t. some t;
  hardware_id = codes "esp32-0123456789ab";
  generate = λ code ssid password. some example_attempt;
}

-- A claim of the CLI that failed four times.
abbrev claims : Provisioning Memory
claims = record {
  state = claiming;
  store = record { protected = true; opened = true; preferences = blank 9 };
  credentials = no_credentials;
  pending = no_credentials;
  claim_attempt = example_attempt;
  portal_running = false;
  changing_wifi_only = false;
  state_started_at = 0;
  button_pressed_at = 0;
  wifi_lost_at = 0;
  time_sync_failures = 0;
  time_sync_retry_at = 0;
  time_sync_waiting_to_retry = false;
  pending_claim_code = codes "ABCDEFGH";
  claim_failures = 4;
  claim_retry_at = 60000;
  last_error = [];
  cli_claim_request_id = codes "request";
  cli_provisioning_allowed = true;
  wifi = none;
  responses = [];
}

-- The fourth attempt fails, a pass follows in which none is due, and then the fifth attempt fails.
abbrev failing : Provisioning Memory
failing = record claims { claim_failures = 3 }

abbrev early : Outside
early = record outside { now = 71000 }

abbrev late : Outside
late = record outside { now = 200000 }

-- A device that waits for its first claim in the portal.
abbrev fresh : Provisioning Memory
fresh = record claims {
  state = setup_portal;
  claim_attempt = no_attempt;
  portal_running = true;
  pending_claim_code = [];
  claim_failures = 0;
  claim_retry_at = 0;
  cli_claim_request_id = [];
}

abbrev first_id : Text
first_id = codes "0123456789abcdef0123456789ABCDEF"

abbrev second_id : Text
second_id = codes "fedcba9876543210fedcba9876543210"

abbrev request : ClaimRequest
request = record {
  expected_hardware_id = codes "esp32-0123456789ab";
  wifi_ssid = codes "home";
  wifi_password = codes "long password";
  code = codes "ABCDEFGH";
}

-- The keys of a claim, of the lengths that are asked for.
abbrev attempt : PendingClaimAttempt
attempt = record example_attempt {
  claim_code = codes "ABCDEFGH";
  attempt_id = codes "01234567-89ab-cdef-0123-456789abcdef";
  nonce = replicate 32 b'a';
  public_key_pem = replicate 120 b'p';
  private_key_pem = replicate 120 b's';
  mqtt_credential = replicate 43 b'c';
  credential_sha256 = replicate 64 b'0';
  signature_base64 = replicate 64 b'g';
}

abbrev online : Outside
online = record outside { generate = λ code ssid password. some attempt }

-- The first claim waits for the Wi-Fi, and a second one comes meanwhile.
abbrev events : List (Outside × Event)
events =
    (online, claim_line first_id (some request))
    ∷ (online, claim_line second_id (some request))
    ∷ (online, pass)
    ∷ []

first_waits :
    (handle_claim_line memory example_json config online fresh first_id
      (some request)).cli_claim_request_id
    ≡ first_id
unfolding no_attempt no_credentials contains_control handle_claim_line is_request_id is_hex
    handle_cli_claim is_hardware_id is_wifi_ssid is_wifi_password is_claim_code is_valid_credentials
    start_claim prepare_attempt create_pending_attempt is_valid_attempt is_canonical_uuid uuid_loop
    save_attempt save_pending put_checked serialize_pending start_wifi stop_portal text_eq
first_waits = refl

answered_once_example :
    let p' = run memory example_json config fresh events in
    (total (is_id first_id) p'.responses + waiting (is_id first_id) (view (is_id first_id) p')
      ≡ total (is_id first_id) fresh.responses + received (is_id first_id) events)
    × IsSound (view (is_id first_id) p')
answered_once_example = answered_once memory example_json config fresh events first_id refl refl
