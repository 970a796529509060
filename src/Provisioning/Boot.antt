-- ===== src/Provisioning/Boot.antt =====
-- src/NivaloProvisioning.cpp: how provisioning starts, and the return to the factory's state.
use nivalo_esp.Credentials.{
  RuntimeCredentials, Json, is_valid_credentials, pending_identity_was_committed,
}
use nivalo_esp.Store
use nivalo_esp.Store.{
  Preferences, ProvisioningStore, load, load_pending, load_cli_staged, clear, no_credentials,
}
use nivalo_esp.Transaction.{finish_cli_provisioning}
use nivalo_esp.Provisioning.{
  ProvisioningConfig, Outside, Provisioning, start_portal, start_wifi, set_error,
}
use nivalo_esp.Provisioning.Loop.{no_attempt, clear_pending_claim}
use nivalo_esp.Common.{Bool, true, false, not, ◌&&◌, Option, none, some, if◌then◌else◌, codes}

-- What `begin` finds: whether the CLI needs a line buffer that could not be allocated, whether the flash
-- is encrypted and the store opens, and what is configured for development.
pub record BootInputs : Type 0 where
  pub buffer_failed : Bool
  pub encrypted : Bool
  pub opens : Bool
  pub allow_unencrypted : Bool
  pub local_developer_fixture : Option RuntimeCredentials

module _ {S : Type 0} (prefs : Preferences S) (json : Json) (config : ProvisioningConfig)
    (outside : Outside) where
  -- `startWifi(_credentials.wifiSsid, _credentials.wifiPassword)`.
  pub join_own_wifi : Provisioning S → Provisioning S
  join_own_wifi p = start_wifi config outside p p.credentials.wifi_ssid p.credentials.wifi_password

  -- A replacement by the CLI that was interrupted.
  pub recover_cli : Provisioning S → RuntimeCredentials → Bool × Provisioning S
  recover_cli p staged =
      let (ok, (store, credentials)) =
        finish_cli_provisioning prefs json (p.store, p.credentials) staged false in
      let p' = record p { store = store; credentials = credentials } in
      if not ok
      then (
        false,
        set_error config outside p' (codes "Interrupted CLI provisioning recovery failed"),
      )
      else (true, join_own_wifi p')

  -- A claim that was committed, but not cleared.
  pub recover_committed : Provisioning S → Bool × Provisioning S
  recover_committed p =
      let (cleared, p') = clear_pending_claim prefs json config outside p in
      if not cleared
      then (false, set_error config outside p' (codes "Committed claim cleanup recovery failed"))
      else (true, join_own_wifi (record p' { claim_attempt = no_attempt }))

  -- From the credentials and the pending claim that are stored on.
  pub resume_stored : Provisioning S → Bool × Provisioning S
  resume_stored p =
      let (has_credentials, credentials) = load prefs json p.store p.credentials in
      let (has_pending_attempt, attempt) = load_pending prefs json p.store p.claim_attempt in
      let p' = record p { credentials = credentials; claim_attempt = attempt } in
      if has_credentials
        && has_pending_attempt
        && pending_identity_was_committed credentials attempt
      then recover_committed p'
      else (
        true,
        if has_pending_attempt
            then start_wifi config outside
                (record p' {
                  pending_claim_code = attempt.claim_code;
                  pending = record p'.pending {
                    wifi_ssid = attempt.wifi_ssid;
                    wifi_password = attempt.wifi_password;
                  };
                })
                attempt.wifi_ssid attempt.wifi_password
            else (if has_credentials then join_own_wifi p' else start_portal config outside p'),
      )

  pub boot_stored : Provisioning S → Bool × Provisioning S
  boot_stored p =
      let (staged, replacement) = load_cli_staged prefs json p.store no_credentials in
      if staged then recover_cli p replacement else resume_stored p

  pub begin : Provisioning S → BootInputs → Bool × Provisioning S
  begin p inputs =
      if inputs.buffer_failed
      then (false, set_error config outside p (codes "CLI serial buffer allocation failed"))
      else (let (available, store) =
            Store.begin prefs json p.store inputs.encrypted inputs.opens inputs.allow_unencrypted in
          elim inputs.local_developer_fixture [
            | some fixture ↦
                let p' = record p {
                  store = store;
                  cli_provisioning_allowed = false;
                  credentials = fixture;
                } in
                if not (is_valid_credentials fixture)
                then (
                  false,
                  set_error config outside p' (codes "Local developer fixture is invalid"),
                )
                else (true, join_own_wifi p')
            | none ↦
                let p' = record p { store = store; cli_provisioning_allowed = available } in
                if not available
                then (
                  false,
                  set_error config outside p' (codes "Encrypted NVS/flash encryption is required"),
                )
                else boot_stored p'
          ])

  unfoldable pub factory_reset : Provisioning S → Bool × Provisioning S
  factory_reset p =
      let (ok, store) = clear prefs json p.store in
      (
        ok,
        start_portal config outside
            (record p { store = store; credentials = no_credentials; changing_wifi_only = false }),
      )
