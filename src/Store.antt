-- ===== src/Store.antt =====
-- src/NivaloProvisioning.cpp: `NivaloProvisioningStore`, the credentials in the flash, and
-- `finishCliProvisioning`, which replaces them; src/NivaloCliTransaction.h, the order of its steps.
-- The `Preferences` library, and the flash behind it, is a parameter.
pub mod Flash
pub mod Commit
pub mod Atomic
pub mod Quiet
pub mod Memory
mod Tests
use nivalo_esp.Credentials.{
  RuntimeCredentials, PendingClaimAttempt, is_valid_credentials, is_valid_attempt, Json,
  serialize_credentials, parse_credentials, serialize_pending, parse_pending,
}
use nivalo_esp.Common.{
  ℕ, Bool, false, not, ◌&&◌, ◌||◌, [], length, ltb, ◌==◌, if◌then◌else◌, Text, codes, text_eq,
}

-- `getString(key, default)`, `putString(key, value)` and `clear()`; the number of bytes that a put
-- reports need not be true.
pub record Preferences (S : Type 0) : Type 0 where
  pub get_string : S → Text → Text → Text
  pub put_string : S → Text → Text → ℕ × S
  pub erase_all : S → Bool × S

pub record ProvisioningStore (S : Type 0) : Type 0 where
  pub protected : Bool
  pub opened : Bool
  pub preferences : S

abbrev pub slot_a : Text
slot_a = codes "slotA"

abbrev pub slot_b : Text
slot_b = codes "slotB"

abbrev pub active_key : Text
active_key = codes "active"

abbrev pub pending_key : Text
pending_key = codes "pending"

abbrev pub stage_key : Text
stage_key = codes "cliStage"

-- `CliStageTombstone` and `PendingClaimTombstone`.
abbrev pub tombstone : Text
tombstone = codes "superseded"

unfoldable pub no_credentials : RuntimeCredentials
no_credentials = record {
  wifi_ssid = [];
  wifi_password = [];
  device_id = [];
  mqtt_host = [];
  mqtt_client_id = [];
  mqtt_username = [];
  mqtt_password = [];
  mqtt_ca_certificate = [];
  mqtt_port = 8883;
  device_private_key_pem = [];
  claim_code_sha256 = [];
}

module _ {S : Type 0} (prefs : Preferences S) (json : Json) where
  -- Whether the flash is encrypted, and what `Preferences::begin` returns, are arguments.
  pub begin : ProvisioningStore S → Bool → Bool → Bool → Bool × ProvisioningStore S
  begin s encrypted opens allow_unencrypted_development =
      if not encrypted && not allow_unencrypted_development
      then (false, record s { protected = encrypted })
      else (opens, record s { protected = encrypted; opened = opens })

  -- `putString(key, value) == value.length() && getString(key, "") == value`.
  unfoldable pub put_checked : ProvisioningStore S → Text → Text → Bool × ProvisioningStore S
  put_checked s key value =
      let (written, p) = prefs.put_string s.preferences key value in
      (
        written == length value && text_eq (prefs.get_string p key []) value,
        record s { preferences = p },
      )

  pub load : ProvisioningStore S → RuntimeCredentials → Bool × RuntimeCredentials
  load s credentials =
      if not s.opened
      then (false, credentials)
      else (let active = prefs.get_string s.preferences active_key (codes "A") in
          let value =
            prefs.get_string s.preferences (if text_eq active (codes "B") then slot_b else slot_a)
              [] in
          if ltb 0 (length value)
          then parse_credentials json value credentials
          else (false, credentials))

  pub commit : ProvisioningStore S → RuntimeCredentials → Bool × ProvisioningStore S
  unfolding put_checked load
  commit s credentials =
      if not s.opened || not (is_valid_credentials credentials)
      then (false, s)
      else (let current = prefs.get_string s.preferences active_key (codes "A") in
          let next = if text_eq current (codes "A") then codes "B" else codes "A" in
          let key = if text_eq next (codes "B") then slot_b else slot_a in
          let encoded = serialize_credentials json credentials in
          let (stored, s') = put_checked s key encoded in
          if not stored
          then (false, s')
          else (let (switched, s'') = put_checked s' active_key next in
              if not switched
              then (false, s'')
              else (let (ok, committed) = load s'' no_credentials in
                  (ok && text_eq (serialize_credentials json committed) encoded, s''))))

  pub clear : ProvisioningStore S → Bool × ProvisioningStore S
  clear s =
      if not s.opened
      then (false, s)
      else (let (ok, p) = prefs.erase_all s.preferences in (ok, record s { preferences = p }))

  pub load_pending : ProvisioningStore S → PendingClaimAttempt → Bool × PendingClaimAttempt
  load_pending s a =
      if not s.opened
      then (false, a)
      else parse_pending json (prefs.get_string s.preferences pending_key []) a

  unfoldable pub save_pending :
      ProvisioningStore S → PendingClaimAttempt → Bool × ProvisioningStore S
  unfolding put_checked
  save_pending s a =
      if not s.opened || not (is_valid_attempt a)
      then (false, s)
      else put_checked s pending_key (serialize_pending json a)

  pub clear_pending : ProvisioningStore S → Bool × ProvisioningStore S
  unfolding put_checked
  clear_pending s = if not s.opened then (false, s) else put_checked s pending_key tombstone

  pub load_cli_staged : ProvisioningStore S → RuntimeCredentials → Bool × RuntimeCredentials
  load_cli_staged s credentials =
      if not s.opened
      then (false, credentials)
      else parse_credentials json (prefs.get_string s.preferences stage_key tombstone) credentials

  pub stage_cli : ProvisioningStore S → RuntimeCredentials → Bool × ProvisioningStore S
  unfolding put_checked
  stage_cli s credentials =
      if not s.opened || not (is_valid_credentials credentials)
      then (false, s)
      else put_checked s stage_key (serialize_credentials json credentials)

  pub clear_cli_staged : ProvisioningStore S → Bool × ProvisioningStore S
  unfolding put_checked
  clear_cli_staged s = if not s.opened then (false, s) else put_checked s stage_key tombstone
