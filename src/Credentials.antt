-- ===== src/Credentials.antt =====
-- src/NivaloProvisioning.h and .cpp: the credentials of a device and a pending claim, when they are
-- valid, and how they are written as JSON. The JSON library is a parameter: `print` stands for
-- `serializeJson` of a document, and `parse` for `deserializeJson`, where `none` is an error.
pub mod Encoding
pub mod Example
mod Tests
use nivalo_esp.Common.{
  ℕ, ◌+◌, ◌-◌, ◌^◌, Bool, true, false, not, ◌&&◌, ◌||◌, List, [], ◌∷◌, ◌++◌, Option, none, some,
  length, all, ltb, leb, ◌==◌, if◌then◌else◌, u16, Text, codes, text_eq,
}

pub record RuntimeCredentials : Type 0 where
  pub wifi_ssid : Text
  pub wifi_password : Text
  pub device_id : Text
  pub mqtt_host : Text
  pub mqtt_client_id : Text
  pub mqtt_username : Text
  pub mqtt_password : Text
  pub mqtt_ca_certificate : Text
  pub mqtt_port : ℕ
  pub device_private_key_pem : Text
  pub claim_code_sha256 : Text

pub record PendingClaimAttempt : Type 0 where
  pub wifi_ssid : Text
  pub wifi_password : Text
  pub claim_code : Text
  pub attempt_id : Text
  pub nonce : Text
  pub public_key_pem : Text
  pub private_key_pem : Text
  pub mqtt_credential : Text
  pub credential_sha256 : Text
  pub signature_base64 : Text

pub is_lower_hex_sha256 : Text → Bool
is_lower_hex_sha256 value =
    length value == 64 && all (λ c. (leb b'0' c && leb c b'9') || (leb b'a' c && leb c b'f')) value

unfoldable pub is_valid_credentials : RuntimeCredentials → Bool
unfolding is_lower_hex_sha256
is_valid_credentials c =
    ltb 0 (length c.wifi_ssid)
    && ltb 0 (length c.device_id)
    && ltb 0 (length c.mqtt_host)
    && (c.mqtt_port == 8883 || c.mqtt_port == 8884)
    && ltb 0 (length c.mqtt_client_id)
    && ltb 0 (length c.mqtt_username)
    && leb 16 (length c.mqtt_password)
    && (length c.claim_code_sha256 == 0 || is_lower_hex_sha256 c.claim_code_sha256)

-- `isxdigit` of the C locale.
abbrev is_x_digit : ℕ → Bool
is_x_digit c =
    (leb b'0' c && leb c b'9') || (leb b'a' c && leb c b'f') || (leb b'A' c && leb c b'F')

unfoldable pub uuid_loop : ℕ → Text → Bool
uuid_loop i [] = true
uuid_loop i (c ∷ rest) =
    let more = uuid_loop (i + 1) rest in
    if i == 8 || i == 13 || i == 18 || i == 23
    then (if not (c == b'-') then false else more)
    else (if not (is_x_digit c) then false else more)

unfoldable pub is_canonical_uuid : Text → Bool
unfolding uuid_loop
is_canonical_uuid value = if not (length value == 36) then false else uuid_loop 0 value

unfoldable pub is_valid_attempt : PendingClaimAttempt → Bool
unfolding is_canonical_uuid
is_valid_attempt a =
    ltb 0 (length a.wifi_ssid)
    && length a.claim_code == 8
    && is_canonical_uuid a.attempt_id
    && length a.nonce == 32
    && ltb 100 (length a.public_key_pem)
    && ltb 100 (length a.private_key_pem)
    && leb 43 (length a.mqtt_credential)
    && length a.credential_sha256 == 64
    && ltb 20 (length a.signature_base64)

pub pending_identity_was_committed : RuntimeCredentials → PendingClaimAttempt → Bool
unfolding is_valid_credentials is_valid_attempt
pending_identity_was_committed credentials attempt =
    is_valid_credentials credentials
    && is_valid_attempt attempt
    && text_eq credentials.mqtt_password attempt.mqtt_credential
    && text_eq credentials.device_private_key_pem attempt.private_key_pem

-- What a document has under a key; `other` is any value that is neither a string nor a natural
-- number.
pub data JsonValue : Type 0 where
  text : Text → JsonValue
  number : ℕ → JsonValue
  other : JsonValue

abbrev pub Document : Type 0
Document = List (Text × JsonValue)

-- `doc[key]`.
pub member : Text → Document → Option JsonValue
member key [] = none
member key ((k, v) ∷ rest) = let later = member key rest in if text_eq k key then some v else later

-- `doc[key] | ""`.
abbrev pub as_text : Option JsonValue → Text
as_text (some (text s)) = s
as_text (some (number n)) = []
as_text (some other) = []
as_text none = []

-- `doc[key] | 0`, an `int`, assigned to a `uint16_t`.
abbrev pub as_port : Option JsonValue → ℕ
as_port (some (number n)) = if ltb n (2 ^ 31) then u16 n else 0
as_port (some (text s)) = 0
as_port (some other) = 0
as_port none = 0

pub credentials_document : RuntimeCredentials → Document
credentials_document c =
    ((codes "wifiSsid", text c.wifi_ssid)
      ∷ (codes "wifiPassword", text c.wifi_password)
      ∷ (codes "deviceId", text c.device_id)
      ∷ (codes "mqttHost", text c.mqtt_host)
      ∷ (codes "mqttPort", number c.mqtt_port)
      ∷ (codes "mqttClientId", text c.mqtt_client_id)
      ∷ (codes "mqttUsername", text c.mqtt_username)
      ∷ (codes "mqttPassword", text c.mqtt_password)
      ∷ (codes "mqttCaCertificate", text c.mqtt_ca_certificate)
      ∷ (codes "devicePrivateKeyPem", text c.device_private_key_pem)
      ∷ [])
    ++ (if ltb 0 (length c.claim_code_sha256)
        then (codes "claimCodeSha256", text c.claim_code_sha256) ∷ []
        else [])

pub document_credentials : Document → RuntimeCredentials
unfolding member
document_credentials doc = record {
  wifi_ssid = as_text (member (codes "wifiSsid") doc);
  wifi_password = as_text (member (codes "wifiPassword") doc);
  device_id = as_text (member (codes "deviceId") doc);
  mqtt_host = as_text (member (codes "mqttHost") doc);
  mqtt_port = as_port (member (codes "mqttPort") doc);
  mqtt_client_id = as_text (member (codes "mqttClientId") doc);
  mqtt_username = as_text (member (codes "mqttUsername") doc);
  mqtt_password = as_text (member (codes "mqttPassword") doc);
  mqtt_ca_certificate = as_text (member (codes "mqttCaCertificate") doc);
  device_private_key_pem = as_text (member (codes "devicePrivateKeyPem") doc);
  claim_code_sha256 = as_text (member (codes "claimCodeSha256") doc);
}

pub attempt_document : PendingClaimAttempt → Document
attempt_document a =
    (codes "wifiSsid", text a.wifi_ssid)
    ∷ (codes "wifiPassword", text a.wifi_password)
    ∷ (codes "claimCode", text a.claim_code)
    ∷ (codes "attemptId", text a.attempt_id)
    ∷ (codes "nonce", text a.nonce)
    ∷ (codes "publicKeyPem", text a.public_key_pem)
    ∷ (codes "privateKeyPem", text a.private_key_pem)
    ∷ (codes "mqttCredential", text a.mqtt_credential)
    ∷ (codes "credentialSha256", text a.credential_sha256)
    ∷ (codes "signatureBase64", text a.signature_base64)
    ∷ []

pub document_attempt : Document → PendingClaimAttempt
unfolding member
document_attempt d = record {
  wifi_ssid = as_text (member (codes "wifiSsid") d);
  wifi_password = as_text (member (codes "wifiPassword") d);
  claim_code = as_text (member (codes "claimCode") d);
  attempt_id = as_text (member (codes "attemptId") d);
  nonce = as_text (member (codes "nonce") d);
  public_key_pem = as_text (member (codes "publicKeyPem") d);
  private_key_pem = as_text (member (codes "privateKeyPem") d);
  mqtt_credential = as_text (member (codes "mqttCredential") d);
  credential_sha256 = as_text (member (codes "credentialSha256") d);
  signature_base64 = as_text (member (codes "signatureBase64") d);
}

-- The JSON library.
pub record Json : Type 0 where
  pub print : Document → Text
  pub parse : Text → Option Document

pub serialize_credentials : Json → RuntimeCredentials → Text
serialize_credentials json c = json.print (credentials_document c)

-- The credentials given are overwritten even where the ones read are not valid.
pub parse_credentials : Json → Text → RuntimeCredentials → Bool × RuntimeCredentials
parse_credentials json encoded c = elim (json.parse encoded) [
  | none ↦ (false, c)
  | some doc ↦ let c' = document_credentials doc in (is_valid_credentials c', c')
]

unfoldable pub serialize_pending : Json → PendingClaimAttempt → Text
serialize_pending json a = json.print (attempt_document a)

pub parse_pending : Json → Text → PendingClaimAttempt → Bool × PendingClaimAttempt
parse_pending json encoded a = elim (json.parse encoded) [
  | none ↦ (false, a)
  | some doc ↦ let a' = document_attempt doc in (is_valid_attempt a', a')
]
