-- ===== src/Ota/Answers.antt =====
-- src/NivaloDeviceOta.cpp: the acknowledgments that a firmware command gets.
use nivalo_esp.Lifecycle.{FirmwareSigningKey}
use nivalo_esp.Firmware.{MbedTls}
use nivalo_esp.Ota.{
  Response, code, error, OtaWorld, OtaState, Outcome, go, returned, restarted, and_then, emit,
  close_download, open_session, close_session, acknowledge,
}
use nivalo_esp.Ota.Download.{download, check_staged}
use nivalo_esp.Ota.Recovery.{RecoveryConfig}
use nivalo_esp.Ota.Command.{
  FirmwareArguments, expected_size, finish, flash_target, complete_flash, stage_and_flash,
  announce_size, open_staging, receive_firmware, take_response, request_firmware, run_session,
  leave_session, handle_firmware_command,
}
use nivalo_esp.Ota.Parts.{
  answers, ended, AnswersOnce, bind-AnswersOnce, download-AnswersOnce, check_staged-AnswersOnce,
  flash_esp32-AnswersOnce, flash_stm32-AnswersOnce,
}
use nivalo_esp.Common.{
  ℕ, ◌+◌, ◌-◌, ◌≡◌, refl, Bool, false, arith, List, [], ◌∷◌, Option, none, some, Text, is_empty,
}

module _ {W : Type 0} (io : OtaWorld W) (c : ℕ) (cs : Text) where
  module _ {K : Type 0} (tls : MbedTls K) (keys : List FirmwareSigningKey)
      (has_secondary_mcu : Bool) (config : RecoveryConfig) where
    flash_target-AnswersOnce :
        (a : FirmwareArguments) (failure : Text)
        → AnswersOnce (flash_target tls keys has_secondary_mcu io (c ∷ cs) config a failure)
    unfolding flash_target acknowledge emit
    flash_target-AnswersOnce a failure s =
        grind (
          arith,
          flash_esp32-AnswersOnce io c cs (Unit {0}),
          flash_stm32-AnswersOnce io c cs config,
        )

    stage_and_flash-AnswersOnce :
        (a : FirmwareArguments) (content_length : Option ℕ)
        → AnswersOnce
            (stage_and_flash tls keys has_secondary_mcu io (c ∷ cs) config a content_length)
    unfolding stage_and_flash complete_flash emit
    stage_and_flash-AnswersOnce a content_length =
        let size = expected_size a in
        bind-AnswersOnce (download io (c ∷ cs) size content_length _) _
          (download-AnswersOnce io c cs size content_length _)
          λ d.
            bind-AnswersOnce (check_staged io (c ∷ cs) size a.sha256 d) _
              (check_staged-AnswersOnce io c cs size a.sha256 d)
              λ _.
                bind-AnswersOnce
                  (flash_target tls keys has_secondary_mcu io (c ∷ cs) config a d.failure) _
                  (flash_target-AnswersOnce a d.failure) λ _ s. omega arith

    open_staging-AnswersOnce :
        (a : FirmwareArguments) (content_length : Option ℕ)
        → AnswersOnce (open_staging tls keys has_secondary_mcu io (c ∷ cs) config a content_length)
    unfolding open_staging acknowledge emit
    open_staging-AnswersOnce a content_length s = grind (arith, stage_and_flash-AnswersOnce)

    receive_firmware-AnswersOnce :
        (a : FirmwareArguments)
        → AnswersOnce (receive_firmware tls keys has_secondary_mcu io (c ∷ cs) config a)
    unfolding receive_firmware announce_size acknowledge emit
    receive_firmware-AnswersOnce a s = grind (arith, open_staging-AnswersOnce)

    take_response-AnswersOnce :
        (a : FirmwareArguments) (response : Response)
        → AnswersOnce (take_response tls keys has_secondary_mcu io (c ∷ cs) config a response)
    unfolding take_response
    take_response-AnswersOnce a (error text) s = omega arith
    take_response-AnswersOnce a (code n) s = ground (arith, receive_firmware-AnswersOnce a s)

    request_firmware-AnswersOnce :
        (a : FirmwareArguments)
        → AnswersOnce (request_firmware tls keys has_secondary_mcu io (c ∷ cs) config a)
    unfolding request_firmware acknowledge emit
    request_firmware-AnswersOnce a s = grind (arith, take_response-AnswersOnce)

    ended_by-finish :
        (r : Outcome (Option Text) × OtaState W)
        → let t = and_then r (finish tls keys has_secondary_mcu io (c ∷ cs) config) in
          (answers t.1.trace ≡ answers r.1.trace + (1 - ended r.0)) × (ended t.0 ≡ 1)
    unfolding finish acknowledge emit
    ended_by-finish (go none, s) = (omega arith, refl)
    ended_by-finish (go (some failure), s) = (omega arith, refl)
    ended_by-finish (returned, s) = (omega arith, refl)
    ended_by-finish (restarted, s) = (omega arith, refl)

    run_session-answers :
        (a : FirmwareArguments) (s : OtaState W)
        → answers (run_session tls keys has_secondary_mcu io (c ∷ cs) config a s).1.trace
          ≡ answers s.trace + 1
    unfolding run_session
    run_session-answers a s =
        let r = request_firmware tls keys has_secondary_mcu io (c ∷ cs) config a s in
        ground (arith, request_firmware-AnswersOnce a s, ended_by-finish r)

    leave_session-answers :
        (r : Outcome (Unit {0}) × OtaState W)
        → answers (leave_session tls keys has_secondary_mcu io (c ∷ cs) config r).trace
          ≡ answers r.1.trace
    unfolding leave_session close_session close_download emit
    leave_session-answers (go u, s) = ground arith
    leave_session-answers (returned, s) = ground arith
    leave_session-answers (restarted, s) = refl

    handle-answers :
        (a : FirmwareArguments) (s : OtaState W)
        → answers (handle_firmware_command tls keys has_secondary_mcu io (c ∷ cs) config a s).trace
          ≡ answers s.trace + 1
    unfolding handle_firmware_command open_session acknowledge emit
    handle-answers a s = grind (arith, leave_session-answers, run_session-answers)

-- A firmware command with an identifier is acknowledged as succeeded or failed exactly once, however it
-- ends.
pub answered_exactly_once :
    {W K : Type 0} (io : OtaWorld W) (tls : MbedTls K) (keys : List FirmwareSigningKey)
    (has_secondary_mcu : Bool) (config : RecoveryConfig) (command_id : Text) (a : FirmwareArguments)
    (s : OtaState W)
    → is_empty command_id ≡ false
    → answers (handle_firmware_command tls keys has_secondary_mcu io command_id config a s).trace
      ≡ answers s.trace + 1
answered_exactly_once io tls keys has_secondary_mcu config [] a s h = cc
answered_exactly_once io tls keys has_secondary_mcu config (c ∷ cs) a s h =
    handle-answers io c cs tls keys has_secondary_mcu config a s
