-- ===== src/Credentials/Example.antt =====
-- Example credentials, and a JSON library that knows one document only.
use nivalo_esp.Credentials.{
  RuntimeCredentials, PendingClaimAttempt, is_valid_credentials, Document, Json,
  serialize_credentials, credentials_document,
}
use nivalo_esp.Credentials.Encoding.{RoundTrips}
use nivalo_esp.Common.{◌≡◌, refl, true, [], ◌∷◌, codes, some, ltb, length}

abbrev pub example : RuntimeCredentials
example = record {
  wifi_ssid = codes "home";
  wifi_password = [];
  device_id = codes "device";
  mqtt_host = codes "mqtt.example.com";
  mqtt_client_id = codes "client";
  mqtt_username = codes "user";
  mqtt_password = codes "0123456789abcdef";
  mqtt_ca_certificate = [];
  mqtt_port = 8883;
  device_private_key_pem = codes "key";
  claim_code_sha256 = [];
}

abbrev pub example_attempt : PendingClaimAttempt
example_attempt = record {
  wifi_ssid = codes "home";
  wifi_password = [];
  claim_code = codes "ABCD2345";
  attempt_id = [];
  nonce = [];
  public_key_pem = [];
  private_key_pem = [];
  mqtt_credential = [];
  credential_sha256 = [];
  signature_base64 = [];
}

abbrev pub one_document : Document → Json
one_document d = record { print = λ _. 123 ∷ []; parse = λ _. some d }

pub example_valid : is_valid_credentials example ≡ true
unfolding is_valid_credentials
example_valid = refl

abbrev pub example_json : Json
example_json = one_document (credentials_document example)

pub example_fits : RoundTrips example_json (credentials_document example)
example_fits = refl

pub example_nonempty : ltb 0 (length (serialize_credentials example_json example)) ≡ true
unfolding serialize_credentials
example_nonempty = refl
