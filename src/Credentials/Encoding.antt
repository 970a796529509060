-- ===== src/Credentials/Encoding.antt =====
-- Credentials and pending claims come back from their encoding.
use nivalo_esp.Credentials.{
  as_text, RuntimeCredentials, PendingClaimAttempt, is_valid_credentials, is_valid_attempt,
  Document, credentials_document, document_credentials, attempt_document, document_attempt, Json,
  serialize_credentials, parse_credentials, serialize_pending, parse_pending, member, text,
}
use nivalo_esp.Common.{
  ◌^◌, ◌<◌, ◌≡◌, refl, ap, ◌∙◌, Bool, true, false, arith, [], ◌∷◌, none, some, length, ltb,
  if◌then◌else◌, u16, Text, codes, text_eq,
}

-- Printing this document and parsing the result gives it back: it fits the library's buffer.
abbrev pub RoundTrips : Json → Document → Type 0
RoundTrips json d = json.parse (json.print d) ≡ some d

sha_document :
    (s : Text)
    → as_text (
        member
          (codes "claimCodeSha256")
          (if ltb 0 (length s) then (codes "claimCodeSha256", text s) ∷ [] else []))
      ≡ s
unfolding member text_eq
sha_document [] = refl
sha_document (x ∷ xs) = let e : ltb 0 (length (x ∷ xs)) ≡ true = ground arith in rw e refl

pub credentials-document :
    (c : RuntimeCredentials)
    → c.mqtt_port < 2 ^ 16
    → document_credentials (credentials_document c) ≡ c
unfolding document_credentials credentials_document member text_eq
credentials-document c h =
    let port : (if ltb c.mqtt_port (2 ^ 31) then u16 c.mqtt_port else 0) ≡ c.mqtt_port =
      ground arith in
    let sha = sha_document c.claim_code_sha256 in
    λ i. record {
      wifi_ssid = c.wifi_ssid;
      wifi_password = c.wifi_password;
      device_id = c.device_id;
      mqtt_host = c.mqtt_host;
      mqtt_client_id = c.mqtt_client_id;
      mqtt_username = c.mqtt_username;
      mqtt_password = c.mqtt_password;
      mqtt_ca_certificate = c.mqtt_ca_certificate;
      mqtt_port = port i;
      device_private_key_pem = c.device_private_key_pem;
      claim_code_sha256 = sha i;
    }

attempt-document : (a : PendingClaimAttempt) → document_attempt (attempt_document a) ≡ a
unfolding document_attempt attempt_document member text_eq
attempt-document a = refl

credentials-parsed :
    (json : Json) (c previous : RuntimeCredentials)
    → RoundTrips json (credentials_document c)
    → c.mqtt_port < 2 ^ 16
    → parse_credentials json (serialize_credentials json c) previous ≡ (is_valid_credentials c, c)
unfolding parse_credentials serialize_credentials
credentials-parsed json c previous fits h =
    ap
      (λ o. elim o as (λ _. Bool × RuntimeCredentials) [
        | none ↦ (false, previous)
        | some doc ↦ (is_valid_credentials (document_credentials doc), document_credentials doc)
      ])
      fits
    ∙ ap (λ r. (is_valid_credentials r, r)) (credentials-document c h)

-- Where the documents fit the library's buffer, credentials with a 16-bit port are parsed from
-- their encoding, whatever was there before, and the result says whether they are valid; and the
-- same for a pending claim.
pub parse-serialize :
    (json : Json) (c previous : RuntimeCredentials) (a earlier : PendingClaimAttempt)
    → RoundTrips json (credentials_document c)
    → RoundTrips json (attempt_document a)
    → c.mqtt_port < 2 ^ 16
    → (parse_credentials json (serialize_credentials json c) previous ≡ (is_valid_credentials c, c))
      × (parse_pending json (serialize_pending json a) earlier ≡ (is_valid_attempt a, a))
unfolding parse_pending serialize_pending
parse-serialize json c previous a earlier fits fits' h = (
  credentials-parsed json c previous fits h,
  ap
        (λ o. elim o as (λ _. Bool × PendingClaimAttempt) [
          | none ↦ (false, earlier)
          | some doc ↦ (is_valid_attempt (document_attempt doc), document_attempt doc)
        ])
        fits'
      ∙ ap (λ r. (is_valid_attempt r, r)) (attempt-document a),
)

valid-port : (c : RuntimeCredentials) → is_valid_credentials c ≡ true → c.mqtt_port < 2 ^ 16
unfolding is_valid_credentials
valid-port c h = ground arith

pub parse-valid :
    (json : Json) (c previous : RuntimeCredentials)
    → RoundTrips json (credentials_document c)
    → is_valid_credentials c ≡ true
    → parse_credentials json (serialize_credentials json c) previous ≡ (true, c)
parse-valid json c previous fits ok =
    credentials-parsed json c previous fits (valid-port c ok) ∙ ap (λ b. (b, c)) ok
