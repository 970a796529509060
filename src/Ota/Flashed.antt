-- ===== src/Ota/Flashed.antt =====
-- src/NivaloDeviceOta.cpp: the firmware commands for the secondary MCU that succeed.
use nivalo_esp.Lifecycle.{FirmwareSigningKey}
use nivalo_esp.Firmware.{
  MbedTls, Verification, verified, failed as refused, build_firmware_manifest,
  verify_firmware_signature,
}
use nivalo_esp.Ota.{
  Response, code, error, OtaWorld, OtaState, running, percent, rainbow, remove, Outcome, go, emit,
  acknowledge,
}
use nivalo_esp.Ota.Files.{bytes_to_hex}
use nivalo_esp.Ota.Download.{staging_path, download, check_staged}
use nivalo_esp.Ota.Recovery.{RecoveryConfig, no_failure}
use nivalo_esp.Ota.Stm32.{flash_stm32}
use nivalo_esp.Ota.Command.{
  FirmwareArguments, expected_size, is_esp32, check_command, flash_target, complete_flash,
  stage_and_flash, announce_size, open_staging, receive_firmware, take_response, request_firmware,
}
use nivalo_esp.Ota.Programmed.{IsDevice, and_then-go, flash_stm32-Holds, check_staged-IsStaged}
use nivalo_esp.Ota.ReadBack.{Holds}
use nivalo_esp.Ota.Image.{acknowledge-image}
use nivalo_esp.Common.{
  ℕ, ◌≡◌, ◌⊎◌, inl, inr, refl, sym, ap, subst, ◌∙◌, Bool, false, arith, List, Option, none, some,
  length, Option-cases, Text, codes,
}

Verification-cases : (v : Verification) → (v ≡ verified) ⊎ ((reason : Text) × (v ≡ refused reason))
Verification-cases verified = inl refl
Verification-cases (refused reason) = inr (reason, refl)

-- The flash holds an image that has the size and the checksum of the command.
pub record HoldsSigned {W : Type 0} (io : OtaWorld W) (a : FirmwareArguments) (cells : ℕ → ℕ)
    : Type 0 where
  pub bytes : List ℕ
  pub long : length bytes ≡ expected_size a
  pub digest : a.sha256 ≡ bytes_to_hex (io.sha256 bytes)
  pub holds : Holds cells bytes

module _ {W : Type 0} (io : OtaWorld W) (content : W → Text → List ℕ) (flash : W → ℕ → ℕ)
    (device : IsDevice io content flash) (command_id : Text) (config : RecoveryConfig) where
  abbrev image : W → List ℕ
  image w = content w staging_path

  module _ {K : Type 0} (tls : MbedTls K) (keys : List FirmwareSigningKey)
      (has_secondary_mcu : Bool) (a : FirmwareArguments) (stm32 : is_esp32 a ≡ false) where
    flash_target-stm32 :
        (failure : Text) (s : OtaState W)
        → flash_target tls keys has_secondary_mcu io command_id config a failure s
          ≡ flash_stm32 io command_id config
              (expected_size a)
              failure
              (acknowledge io command_id running (codes "Firmware verified") (some (percent 35)) s)
    unfolding flash_target
    flash_target-stm32 failure s = rw (flash_target, stm32) refl

    flash_target-Holds :
        (failure : Text) (s : OtaState W)
        → (flash_target tls keys has_secondary_mcu io command_id config a failure s).0 ≡ go tt
        → Holds
            (flash
              (flash_target tls keys has_secondary_mcu io command_id config a failure s).1.world)
            (image s.world)
    flash_target-Holds failure s h =
        let s1 =
          acknowledge io command_id running (codes "Firmware verified") (some (percent 35)) s in
        let same =
          ap (λ (t : Outcome (Unit {0}) × OtaState W). flash t.1.world)
            (flash_target-stm32 failure s) in
        let h1 =
          sym (ap (λ (t : Outcome (Unit {0}) × OtaState W). t.0) (flash_target-stm32 failure s))
          ∙ h in
        subst (λ f. Holds f (image s.world)) (sym same)
          (subst
            (Holds (flash (flash_stm32 io command_id config (expected_size a) failure s1).1.world))
            (acknowledge-image io command_id image device.keeps running (codes "Firmware verified")
              (some (percent 35)) s)
            (flash_stm32-Holds io content flash device command_id config (expected_size a) failure
              s1 h1))

    complete_flash-flash :
        (s : OtaState W)
        → flash (complete_flash tls keys has_secondary_mcu io command_id config s).1.world
          ≡ flash s.world
    unfolding complete_flash emit
    complete_flash-flash s = grind (arith, device.perform)

    stage_and_flash-HoldsSigned :
        (content_length : Option ℕ) (s : OtaState W)
        → let r =
            stage_and_flash tls keys has_secondary_mcu io command_id config a content_length s in
          r.0 ≡ go none → HoldsSigned io a (flash r.1.world)
    unfolding stage_and_flash
    stage_and_flash-HoldsSigned content_length s h =
        let size = expected_size a in
        let r1 = download io command_id size content_length no_failure s in
        let (d, (e1, (h1, same1))) = and_then-go r1 _ none h in
        let r2 = check_staged io command_id size a.sha256 d r1.1 in
        let (u, (e2, (h2, same2))) = and_then-go r2 _ none h1 in
        let r3 = flash_target tls keys has_secondary_mcu io command_id config a d.failure r2.1 in
        let (v, (e3, (h3, same3))) = and_then-go r3 _ none h2 in
        let staged =
          check_staged-IsStaged io content flash device command_id config size a.sha256 d r1.1 e2 in
        let same =
          ap (λ (t : Outcome (Option Text) × OtaState W). flash t.1.world) (same1 ∙ same2 ∙ same3)
          ∙ complete_flash-flash r3.1 in
        record {
          bytes = image r1.1.world;
          long = staged.long;
          digest = staged.digest;
          holds =
              subst (λ f. Holds f (image r1.1.world)) (sym same)
                (subst (Holds (flash r3.1.world)) staged.kept
                  (flash_target-Holds d.failure r2.1 e3));
        }

    -- What holds of a part of the handler that ends with success.
    abbrev Flashed : Outcome (Option Text) × OtaState W → Type 0
    Flashed r = r.0 ≡ go none → HoldsSigned io a (flash r.1.world)

    open_staging-stage :
        (content_length : Option ℕ) (s : OtaState W)
        → let r = open_staging tls keys has_secondary_mcu io command_id config a content_length s in
          r.0 ≡ go none
          → let s1 = emit io (remove staging_path) s in
            r
            ≡ stage_and_flash tls keys has_secondary_mcu io command_id config a content_length
                (record s1 { world = (io.open_write s1.world staging_path).1 })
    unfolding open_staging
    open_staging-stage content_length s h = ground arith

    open_staging-Flashed :
        (content_length : Option ℕ) (s : OtaState W)
        → Flashed (open_staging tls keys has_secondary_mcu io command_id config a content_length s)
    open_staging-Flashed content_length s h =
        let s1 = emit io (remove staging_path) s in
        let s2 = record s1 { world = (io.open_write s1.world staging_path).1 } in
        subst Flashed (sym (open_staging-stage content_length s h))
          (stage_and_flash-HoldsSigned content_length s2) h

    receive_firmware-open :
        (s : OtaState W)
        → let r = receive_firmware tls keys has_secondary_mcu io command_id config a s in
          r.0 ≡ go none
          → let content_length = io.http_size s.world in
            let s1 =
              announce_size tls keys has_secondary_mcu io command_id config content_length
                (emit io rainbow s) in
            r
            ≡ open_staging tls keys has_secondary_mcu io command_id config a content_length
                (record s1 { world = (io.spiffs_begin s1.world).1 })
    unfolding receive_firmware
    receive_firmware-open s h = ground arith

    take_response-Flashed :
        (response : Response) (s : OtaState W)
        → Flashed (take_response tls keys has_secondary_mcu io command_id config a response s)
    unfolding take_response
    take_response-Flashed (error text) s h = absurd (ground arith)
    take_response-Flashed (code n) s h =
        let r = receive_firmware tls keys has_secondary_mcu io command_id config a s in
        let s1 =
          announce_size tls keys has_secondary_mcu io command_id config (io.http_size s.world)
            (emit io rainbow s) in
        let same : take_response tls keys has_secondary_mcu io command_id config a (code n) s ≡ r =
          ground arith in
        let h1 : r.0 ≡ go none =
          ap (λ (t : Outcome (Option Text) × OtaState W). t.0) (sym same) ∙ h in
        subst Flashed (sym (same ∙ receive_firmware-open s h1))
          (open_staging-Flashed (io.http_size s.world)
            (record s1 { world = (io.spiffs_begin s1.world).1 }))
          h

    request_firmware-response :
        (s : OtaState W)
        → let r = request_firmware tls keys has_secondary_mcu io command_id config a s in
          r.0 ≡ go none
          → let w1 = (io.http_begin s.world a.url).1 in
            let (response, w2) = io.http_get w1 in
            r
            ≡ take_response tls keys has_secondary_mcu io command_id config a response
                (record s { world = w2 })
    unfolding request_firmware
    request_firmware-response s h = ground arith

    request_firmware-Flashed :
        (s : OtaState W)
        → Flashed (request_firmware tls keys has_secondary_mcu io command_id config a s)
    request_firmware-Flashed s h =
        let (response, w2) = io.http_get (io.http_begin s.world a.url).1 in
        subst Flashed (sym (request_firmware-response s h))
          (take_response-Flashed response (record s { world = w2 })) h

    check_command-manifest :
        check_command tls keys has_secondary_mcu a ≡ none
        → (manifest : Text) × ((build_firmware_manifest
                (some a.target)
                (expected_size a)
                (some a.sha256)
                160
              ≡ some manifest)
            × (verify_firmware_signature tls keys
                  (some a.signature_algorithm)
                  (some a.signature_key_id)
                  (some a.signature_value)
                  manifest
                ≡ verified))
    unfolding check_command
    check_command-manifest h =
        let built = build_firmware_manifest (some a.target) (expected_size a) (some a.sha256) 160 in
        elim (Option-cases built) [
          | inl malformed ↦ absurd (ground arith)
          | inr (manifest, found) ↦
              let result =
                verify_firmware_signature tls keys (some a.signature_algorithm)
                  (some a.signature_key_id) (some a.signature_value) manifest in
              elim (Verification-cases result) [
                | inl ok ↦ (manifest, (found, ok))
                | inr (reason, bad) ↦ absurd (ground arith)
              ]
        ]

    -- When a firmware command for the secondary MCU that was not rejected comes to its successful end, the
    -- flash holds, from its start, an image with the size and the SHA-256 of the command, and the
    -- manifest of this target, size and SHA-256 had a valid signature.
    pub flashed_image :
        (s : OtaState W)
        → check_command tls keys has_secondary_mcu a ≡ none
        → let r = request_firmware tls keys has_secondary_mcu io command_id config a s in
          r.0 ≡ go none
          → HoldsSigned io a (flash r.1.world)
            × ((manifest : Text) × ((build_firmware_manifest
                      (some a.target)
                      (expected_size a)
                      (some a.sha256)
                      160
                    ≡ some manifest)
                  × (verify_firmware_signature tls keys
                        (some a.signature_algorithm)
                        (some a.signature_key_id)
                        (some a.signature_value)
                        manifest
                      ≡ verified)))
    flashed_image s accepted h = (request_firmware-Flashed s h, check_command-manifest accepted)
