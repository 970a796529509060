-- ===== src/Ota/Command.antt =====
-- src/NivaloDeviceOta.cpp: `handleFirmwareCommand`, from its parts.
use nivalo_esp.Lifecycle.{FirmwareSigningKey}
use nivalo_esp.Firmware.{
  MbedTls, verified, failed as refused, decimal, build_firmware_manifest, verify_firmware_signature,
}
use nivalo_esp.Ota.{
  OtaWorld, OtaState, running, succeeded, failed, percent, Outcome, go, returned, restarted, Run,
  Response, code, error, event, client_loop, rainbow, remove, mqtt_reconnect, init, restart, ◌>>=◌,
  ◌>>◌, emit, open_session, close_session, acknowledge, fail, fail_with,
}
use nivalo_esp.Ota.Download.{staging_path, download, check_staged, flash_esp32}
use nivalo_esp.Ota.Recovery.{RecoveryConfig, no_failure}
use nivalo_esp.Ota.Stm32.{flash_stm32}
use nivalo_esp.Common.{
  ℕ, Bool, false, not, ◌&&◌, List, ◌++◌, Option, none, some, ltb, ◌==◌, if◌then◌else◌, Text, codes,
  text_eq, is_empty,
}

-- The arguments of the command; `size_bytes` has `none` where it is not an unsigned number of 32 bits.
pub record FirmwareArguments : Type 0 where
  pub target : Text
  pub url : Text
  pub sha256 : Text
  pub signature_algorithm : Text
  pub signature_key_id : Text
  pub signature_value : Text
  pub size_bytes : Option ℕ

abbrev pub is_esp32 : FirmwareArguments → Bool
is_esp32 a = text_eq a.target (codes "esp32")

abbrev pub is_stm32 : FirmwareArguments → Bool
is_stm32 a = text_eq a.target (codes "stm32")

abbrev pub expected_size : FirmwareArguments → ℕ
expected_size a = elim a.size_bytes [ none ↦ 0 | some n ↦ n ]

module _ {K : Type 0} (tls : MbedTls K) (keys : List FirmwareSigningKey)
    (has_secondary_mcu : Bool) where
  -- Why the command is rejected, if it is.
  unfoldable pub check_command : FirmwareArguments → Option Text
  check_command a =
      if is_empty a.url
      then some (codes "Missing firmware URL")
      else (if not (is_esp32 a) && not (is_stm32 a)
          then some (codes "Unsupported or non-canonical firmware target")
          else (if expected_size a == 0
              then some (
                  codes
                    "Firmware sizeBytes is missing or outside the supported unsigned 32-bit range")
              else (if not has_secondary_mcu && is_stm32 a
                  then some (codes "Secondary MCU flashing is not enabled for this build")
                  else (elim (build_firmware_manifest (some a.target) (expected_size a)
                      (some a.sha256) 160) [
                        | none ↦ some (
                            codes
                              "Firmware manifest target, sizeBytes, or sha256 is missing or malformed")
                        | some manifest ↦
                            elim (verify_firmware_signature tls keys (some a.signature_algorithm)
                              (some a.signature_key_id) (some a.signature_value) manifest) [
                                | verified ↦ none
                                | refused reason ↦ some reason
                              ]
                      ]))))

  module _ {W : Type 0} (io : OtaWorld W) (command_id : Text) (config : RecoveryConfig) where
    -- The end of the handler, with `flashFailure` if the command did not succeed.
    unfoldable pub finish : Option Text → Run W (Unit {0})
    unfolding emit
    finish (some failure) s =
        fail_with io command_id (codes "esp32.flash.failed") failure (codes "error") s
    finish none s = (
      restarted,
      emit io restart (
          acknowledge io command_id succeeded (codes "Flash command completed; restarting ESP32")
            none s),
    )

    -- From the verified staging file on. A build without a secondary MCU has rejected its target.
    unfoldable pub flash_target : FirmwareArguments → Text → Run W (Unit {0})
    unfolding emit
    flash_target a failure s =
        let s1 =
          acknowledge io command_id running (codes "Firmware verified")
            (some (percent (if is_esp32 a then 45 else 35))) s in
        if is_esp32 a
        then flash_esp32 io command_id (expected_size a) s1
        else flash_stm32 io command_id config (expected_size a) failure s1

    -- After the target holds the image.
    unfoldable pub complete_flash : Run W (Option Text)
    unfolding emit
    complete_flash s = (
      go none,
      emit io init (
          emit io
            (event (codes "flashing") (codes "[DAP] Firmware flashed and verified successfully!")
              (codes "info"))
            (emit io mqtt_reconnect (emit io (remove staging_path) s))),
    )

    -- With the staging file open.
    unfoldable pub stage_and_flash : FirmwareArguments → Option ℕ → Run W (Option Text)
    stage_and_flash a content_length = do
      d ← download io command_id (expected_size a) content_length no_failure
      check_staged io command_id (expected_size a) a.sha256 d
      flash_target a d.failure
      complete_flash

    unfoldable pub announce_size : Option ℕ → OtaState W → OtaState W
    unfolding emit
    announce_size content_length s =
        emit io
          (event (codes "flashing")
            (codes "[HTTP] Size of firmware: "
              ++ (elim content_length [ none ↦ codes "-1" | some n ↦ decimal 10 n ])
              ++ codes "\n")
            (codes "info"))
          s

    -- With the file system mounted.
    unfoldable pub open_staging : FirmwareArguments → Option ℕ → Run W (Option Text)
    unfolding emit
    open_staging a content_length s =
        let s1 = emit io (remove staging_path) s in
        let (opened, w) = io.open_write s1.world staging_path in
        let s2 = record s1 { world = w } in
        if ltb (io.free_storage s1.world) (expected_size a)
        then fail_with io command_id (codes "esp32.flash.rejected")
            (codes "Insufficient durable storage for verified firmware staging") (codes "warning")
            s1
        else (if opened then stage_and_flash a content_length s2 else (
          go (some (codes "Durable firmware staging file could not be opened")),
          emit io (remove staging_path) s2,
        ))

    -- With an answer of the server that has the firmware; the result is `flashFailure`.
    unfoldable pub receive_firmware : FirmwareArguments → Run W (Option Text)
    unfolding emit
    receive_firmware a s =
        let content_length = io.http_size s.world in
        let s1 = emit io rainbow s in
        let s2 = announce_size content_length s1 in
        let (mounted, w) = io.spiffs_begin s2.world in
        let s3 = record s2 { world = w } in
        if (elim content_length [ none ↦ false | some n ↦ not (n == expected_size a) ])
        then fail_with io command_id (codes "esp32.flash.verification-failed")
            (codes "Firmware Content-Length does not match signed sizeBytes") (codes "warning") s1
        else (if mounted
            then open_staging a content_length s3
            else (go (some (codes "Durable firmware staging filesystem could not be mounted")), s3))

    -- What becomes of the answer.
    unfoldable pub take_response : FirmwareArguments → Response → Run W (Option Text)
    take_response a (error text) s = (go (some (codes "Firmware download failed: " ++ text)), s)
    take_response a (code n) s =
        if n == 200 then receive_firmware a s else (go (some no_failure), s)

    unfoldable pub request_firmware : FirmwareArguments → Run W (Option Text)
    request_firmware a s =
        let (begun, w1) = io.http_begin s.world a.url in
        let (response, w2) = io.http_get w1 in
        if begun
        then take_response a response (record s { world = w2 })
        else fail io command_id (codes "Firmware download URL rejected") (record s { world = w1 })

    -- What is done while the session is open.
    unfoldable pub run_session : FirmwareArguments → Run W (Unit {0})
    run_session a = do failure ← request_firmware a; finish failure

    -- A handler that restarts the device does not come to the session's destructor.
    unfoldable pub leave_session : Outcome (Unit {0}) × OtaState W → OtaState W
    leave_session (restarted, s) = s
    leave_session (returned, s) = close_session io s
    leave_session (go u, s) = close_session io s

    unfoldable pub handle_firmware_command : FirmwareArguments → OtaState W → OtaState W
    unfolding leave_session emit
    handle_firmware_command a s =
        let announced = emit io client_loop (
          emit io (event (codes "esp32.flash.started") a.target (codes "info")) (
            acknowledge io command_id running
              (if is_esp32 a
                then codes "Downloading ESP32 firmware"
                else codes "Downloading STM32 firmware")
              (some (percent 5)) s)) in
        elim (check_command a) [
          | some reason ↦
              acknowledge io command_id failed reason none
                (emit io (event (codes "esp32.flash.rejected") reason (codes "warning")) s)
          | none ↦ leave_session (run_session a (open_session io announced))
        ]
