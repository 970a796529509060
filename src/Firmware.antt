-- ===== src/Firmware.antt =====
-- src/NivaloFirmwareSecurity.cpp: the manifest that a firmware's signature is over, and the check of
-- the signature. mbedtls is a parameter.
pub mod Manifest
pub mod Signature
mod Tests
use nivalo_esp.Lifecycle.{FirmwareSigningKey}
use nivalo_esp.Common.{
  ℕ, zero, suc, ◌+◌, ◌/◌, ◌%◌, Bool, false, not, ◌&&◌, ◌||◌, List, [], ◌∷◌, ◌++◌, Option, none,
  some, length, all, ltb, leb, ◌==◌, if◌then◌else◌, is_some, Text, codes, text_eq, is_empty,
  or_empty,
}

pub is_canonical_sha256 : Option Text → Bool
is_canonical_sha256 none = false
is_canonical_sha256 (some value) =
    length value == 64 && all (λ c. (leb b'0' c && leb c b'9') || (leb b'a' c && leb c b'f')) value

-- What `%lu` prints, for a number below 10 ^ `n`.
pub decimal : ℕ → ℕ → Text
decimal zero value = []
decimal (suc n) value =
    if ltb value 10 then (b'0' + value) ∷ [] else decimal n (value / 10) ++ (b'0' + value % 10) ∷ []

abbrev pub manifest_head : Text
manifest_head = codes "NIVALO-FIRMWARE-SIGNATURE-V1\n"

-- The text that is printed.
pub manifest_text : Text → ℕ → Text → Text
unfolding decimal
manifest_text target size_bytes sha256 =
    manifest_head ++ target ++ b'\n' ∷ (decimal 10 size_bytes ++ b'\n' ∷ (sha256 ++ b'\n' ∷ []))

-- A manifest into a buffer of `capacity` bytes; `none` is `return false`.
unfoldable pub build_firmware_manifest : Option Text → ℕ → Option Text → ℕ → Option Text
unfolding is_canonical_sha256 manifest_text
build_firmware_manifest target size_bytes sha256 capacity =
    if size_bytes == 0
      || (not (text_eq (or_empty target) (codes "esp32"))
          && not (text_eq (or_empty target) (codes "stm32")))
      || not (is_canonical_sha256 sha256)
    then none
    else (let manifest = manifest_text (or_empty target) size_bytes (or_empty sha256) in
        if leb capacity (length manifest) then none else some manifest)

-- `base64_decode` into 80 bytes, `parse_public_key` and `sha256` have `none` for a result that is not 0;
-- `curve` has `none` for a null pointer.
pub record MbedTls (K : Type 0) : Type 0 where
  pub base64_decode : Text → Option (List ℕ)
  pub parse_public_key : Text → Option K
  pub can_do_ecdsa : K → Bool
  pub curve : K → Option ℕ
  pub secp256r1 : ℕ
  pub sha256 : Text → Option (List ℕ)
  pub verify : K → List ℕ → List ℕ → Bool

-- The result, with the message of a failure.
pub data Verification : Type 0 where
  verified : Verification
  failed : Text → Verification

-- The loop over the keys: the public key of the first one with this identifier.
pub find_key : Text → List FirmwareSigningKey → Option Text
find_key key_id [] = none
find_key key_id (key ∷ rest) =
    let later = find_key key_id rest in
    if is_some key.key_id && is_some key.public_key_pem && text_eq (or_empty key.key_id) key_id
    then key.public_key_pem
    else later

module _ {K : Type 0} (tls : MbedTls K) where
  -- From the digest of the manifest on.
  pub verify_hash : K → List ℕ → Text → Verification
  verify_hash public_key signature manifest =
      let failure = failed (codes "Firmware manifest signature verification failed") in
      elim (tls.sha256 manifest) [
        | none ↦ failure
        | some hash ↦ if tls.verify public_key hash signature then verified else failure
      ]

  -- From the parsing of the key on.
  pub verify_with_key : Text → List ℕ → Text → Verification
  unfolding verify_hash
  verify_with_key pem signature manifest =
      let invalid = failed (codes "Trusted firmware public key is invalid") in
      elim (tls.parse_public_key pem) [
        | none ↦ invalid
        | some public_key ↦
            if not (tls.can_do_ecdsa public_key)
            then invalid
            else (if (elim (tls.curve public_key) [ none ↦ false | some id ↦ id == tls.secp256r1 ])
                then verify_hash public_key signature manifest
                else failed (codes "Trusted firmware public key is not ECDSA P-256"))
      ]

  unfoldable pub verify_firmware_signature :
      List FirmwareSigningKey → Option Text → Option Text → Option Text → Text → Verification
  unfolding find_key verify_with_key
  verify_firmware_signature keys algorithm key_id signature_base64 manifest =
      if not (text_eq (or_empty algorithm) (codes "ecdsa-p256-sha256"))
      then failed (codes "Unsupported firmware signature algorithm")
      else (if is_empty (or_empty key_id) || is_empty (or_empty signature_base64)
          then failed (codes "Firmware signature is missing")
          else (elim (find_key (or_empty key_id) keys) [
            | none ↦ failed (codes "Firmware signature keyId is not trusted")
            | some pem ↦ elim (tls.base64_decode (or_empty signature_base64)) [
              | none ↦ failed (codes "Firmware signature Base64/DER is malformed")
              | some signature ↦
                  if ltb (length signature) 8
                  then failed (codes "Firmware signature Base64/DER is malformed")
                  else verify_with_key pem signature manifest
            ]
          ]))
