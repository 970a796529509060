-- ===== src/Firmware/Tests.antt =====
-- The theorems at concrete inputs.
use nivalo_esp.Lifecycle.{valid_keys}
use nivalo_esp.Lifecycle.Example.{two_keys}
use nivalo_esp.Firmware.{
  MbedTls, verified, verify_firmware_signature, build_firmware_manifest, manifest_text,
}
use nivalo_esp.Firmware.Manifest.{read_manifest, read-build}
use nivalo_esp.Firmware.Signature.{IsSigned, verified_iff}
use nivalo_esp.Common.{
  ◌≡◌, ◌↔◌, refl, true, false, arith, some, take, replicate, Text, codes, text_eq,
}

abbrev digest : Text
digest = replicate 64 b'a'

read-build_example :
    read_manifest (manifest_text (codes "stm32") 123456 digest) ≡ (codes "stm32", (123456, digest))
read-build_example =
    read-build (some (codes "stm32")) 123456 (some digest) 256
      (manifest_text (codes "stm32") 123456 digest) (omega arith)
      (unfold build_firmware_manifest manifest_text text_eq in refl)

-- Keys that are their own texts, and signatures that are eight bytes of the manifest's digest.
abbrev toy : MbedTls Text
toy = record {
  base64_decode = λ s. some s;
  parse_public_key = λ pem. some pem;
  can_do_ecdsa = λ k. true;
  curve = λ k. some 3;
  secp256r1 = 3;
  sha256 = λ m. some (take 8 m);
  verify = λ k hash signature. text_eq hash signature;
}

verified_iff_example :
    (verify_firmware_signature toy two_keys
        (some (codes "ecdsa-p256-sha256"))
        (some (codes "k2"))
        (some (codes "manifest"))
        (codes "manifest of a firmware")
      ≡ verified)
    ↔ ((codes "ecdsa-p256-sha256" ≡ codes "ecdsa-p256-sha256")
        × ((false ≡ false)
            × ((false ≡ false)
                × IsSigned toy two_keys
                    (codes "k2")
                    (codes "manifest")
                    (codes "manifest of a firmware"))))
verified_iff_example =
    verified_iff toy two_keys (some (codes "ecdsa-p256-sha256")) (some (codes "k2"))
      (some (codes "manifest")) (codes "manifest of a firmware") (unfold valid_keys text_eq in refl)
