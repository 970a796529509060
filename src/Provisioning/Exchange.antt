-- ===== src/Provisioning/Exchange.antt =====
-- src/NivaloProvisioning.cpp: the exchange of a claim, and the check of an identity.
use nivalo_esp.TimePolicy.{permits_tls}
use nivalo_esp.Credentials.{
  RuntimeCredentials, is_valid_credentials, is_valid_attempt, is_canonical_uuid,
}
use nivalo_esp.Provisioning.{
  ClaimAnswer, ProvisioningConfig, unavailable, malformed, identity, Outside, Provisioning,
}
use nivalo_esp.Common.{
  ℕ, Bool, true, false, not, ◌||◌, Option, none, some, length, take, ◌==◌, if◌then◌else◌, Text,
  codes, text_eq, or_empty,
}

unfoldable pub clock_permits_tls : ProvisioningConfig → Outside → Bool
clock_permits_tls config outside = permits_tls outside.epoch config.minimum_valid_epoch_seconds

-- `strncmp(claimUrl, "https://", 8) == 0`; without a URL it is false.
abbrev pub is_https : Option Text → Bool
is_https url = text_eq (take 8 (or_empty url)) (codes "https://")

module _ {S : Type 0} (config : ProvisioningConfig) (outside : Outside) where
  abbrev failed_with : Provisioning S → Text → Bool × Provisioning S
  failed_with p message = (false, record p { last_error = message })

  -- The identity that the server gave.
  pub claimed : Provisioning S → Text → Text → ℕ → Text → Text → Text → RuntimeCredentials
  claimed p device_id host port client_id username ca_certificate = record p.pending {
    device_id = device_id;
    mqtt_host = host;
    mqtt_port = port;
    mqtt_client_id = client_id;
    mqtt_username = username;
    mqtt_password = p.claim_attempt.mqtt_credential;
    mqtt_ca_certificate = ca_certificate;
    device_private_key_pem = p.claim_attempt.private_key_pem;
  }

  unfoldable pub take_identity : Provisioning S → RuntimeCredentials → Bool × Provisioning S
  take_identity p filled = elim (outside.sha256_text p.claim_attempt.claim_code) [
    | none ↦
        failed_with (record p { pending = filled })
          (codes "Claim response receipt could not be secured")
    | some receipt ↦
        let pending = record filled { claim_code_sha256 = receipt } in
        let p' = record p { pending = pending } in
        if not (is_valid_credentials pending) || not (length pending.device_id == 36)
        then failed_with p' (codes "Claim response identity invalid")
        else (true, p')
  ]

  -- From the answer of the server on.
  unfoldable pub take_answer : Provisioning S → ClaimAnswer → Bool × Provisioning S
  unfolding claimed
  take_answer p unavailable = failed_with p (codes "Claim exchange rejected")
  take_answer p malformed = failed_with p (codes "Claim response invalid")
  take_answer p (identity device_id host port client_id username ca_certificate) =
      if not (is_canonical_uuid device_id) || not (port == 8883 || port == 8884)
      then failed_with p (codes "Claim response invalid")
      else take_identity p (claimed p device_id host port client_id username ca_certificate)

  unfoldable pub exchange_claim : Provisioning S → Bool × Provisioning S
  exchange_claim p =
      if not (clock_permits_tls config outside)
      then failed_with p (codes "Clock is not synchronized; claim HTTPS was not attempted")
      else (if not (is_https config.claim_url) || not (is_valid_attempt p.claim_attempt)
          then failed_with p (codes "Pending claim is invalid")
          else take_answer p (outside.post p.claim_attempt))

  unfoldable pub verify_existing_identity : Provisioning S → Bool × Provisioning S
  unfolding clock_permits_tls
  verify_existing_identity p =
      if not (clock_permits_tls config outside)
      then failed_with p (codes "Clock is not synchronized; MQTT TLS was not attempted")
      else (outside.connects p.pending, p)
