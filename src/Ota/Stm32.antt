-- ===== src/Ota/Stm32.antt =====
-- src/NivaloDeviceOta.cpp: the programming of the secondary MCU from the staging file, and its recovery.
use nivalo_esp.Ota.{
  OtaWorld, OtaState, running, percent, go, Run, event, remove, dap_deselect, dap_disconnect, ◌>>=◌,
  ◌>>◌, emit, close_download, acknowledge, fail,
}
use nivalo_esp.Ota.Files.{
  program_stm32_from_file, verify_stm32_against_file, inject_stm32_recovery_acceptance_mismatch,
}
use nivalo_esp.Ota.Download.{staging_path}
use nivalo_esp.Ota.Recovery.{
  RecoveryConfig, Recovery, connect_target, check_capacity, prepare_recovery,
}
use nivalo_esp.Common.{
  ℕ, Bool, true, false, not, ◌&&◌, ◌++◌, Option, none, some, if◌then◌else◌, Text, codes,
}

module _ {W : Type 0} (io : OtaWorld W) (command_id : Text) (config : RecoveryConfig)
    (expected_size : ℕ) where
  -- The mismatch of an acceptance test, once: whether one was asked for, and whether it was made.
  unfoldable pub inject_if_pending : OtaState W → (Bool × Bool) × OtaState W
  unfolding emit
  inject_if_pending s =
      let (injected, w) =
        inject_stm32_recovery_acceptance_mismatch io staging_path expected_size s.world in
      if s.acceptance_pending
      then (
        (true, injected),
        emit io
            (event
              (if injected
                then codes "esp32.flash.stm32-acceptance-corruption-injected"
                else codes "esp32.flash.stm32-acceptance-corruption-failed")
              (if injected
                then codes "Destructive recovery acceptance mismatch injected"
                else codes "Destructive recovery acceptance mismatch could not be injected")
              (if injected then codes "warning" else codes "error"))
            (record s { world = w; acceptance_pending = false }),
      )
      else ((false, false), s)

  -- The staged image is programmed and read back; `none` if it is in the flash, or why not.
  unfoldable pub program_target : OtaState W → Option Text × OtaState W
  program_target s =
      let (programmed, w) = program_stm32_from_file io staging_path expected_size s.world in
      let s1 = record s { world = w } in
      let reading =
        acknowledge io command_id running (codes "Read-back verifying STM32 flash")
          (some (percent 85)) s1 in
      let ((requested, injected), s2) = inject_if_pending reading in
      let (verified, w') = verify_stm32_against_file io staging_path expected_size s2.world in
      let s3 = record s2 { world = w' } in
      if not programmed
      then (some (codes "STM32 programming failed"), s1)
      else (if requested && not injected
          then (some (codes "STM32 recovery acceptance mismatch injection failed"), s2)
          else (
            if verified then none else some (codes "STM32 full read-back verification failed"),
            s3,
          ))

  abbrev pub drop_snapshot : Recovery → OtaState W → OtaState W
  drop_snapshot r s = if r.is_snapshot then emit io (remove r.path) s else s

  -- The recovery after a failure, and the failure of the command.
  unfoldable pub recover_target : {A : Type 0} → Recovery → Text → Run W A
  unfolding emit
  recover_target r failure s =
      let started =
        acknowledge io command_id running (codes "STM32 update failed; restoring known-good image")
          (some (percent 90))
          (emit io (event (codes "esp32.flash.stm32-recovery-started") failure (codes "warning"))
            s) in
      let (programmed, w1) = program_stm32_from_file io r.path r.size started.world in
      let (verified, w2) = verify_stm32_against_file io r.path r.size w1 in
      let restored = programmed && verified in
      let s1 = record started { world = if programmed then w2 else w1 } in
      let failure' =
        failure
        ++ (if restored
            then codes "; known-good image restored and verified"
            else codes "; automatic recovery failed (recovery image retained)") in
      let s2 =
        if restored
        then drop_snapshot r (
            emit io
              (event (codes "esp32.flash.stm32-recovery-succeeded") failure' (codes "warning")) s1)
        else emit io (event (codes "esp32.flash.stm32-recovery-failed") failure' (codes "error"))
            s1 in
      fail io command_id failure' (emit io dap_disconnect (emit io dap_deselect s2))

  -- The network phase ends before the programmer is used.
  unfoldable pub announce_programming : OtaState W → OtaState W
  unfolding emit
  announce_programming s =
      acknowledge io command_id running (codes "Programming STM32 flash") (some (percent 50)) (
        emit io
          (event (codes "flashing") (codes "[DAP] Programming and full read-back verification...")
            (codes "info"))
          (close_download io s))

  -- What is done once the image was read back.
  unfoldable pub leave_verified : Recovery → OtaState W → OtaState W
  unfolding emit
  leave_verified r s =
      let verified =
        emit io
          (event (codes "esp32.flash.stm32-verified")
            (codes "STM32 flash matched the signed staged image") (codes "info"))
          s in
      emit io dap_disconnect (emit io dap_deselect (drop_snapshot r verified))

  -- From the prepared recovery on.
  unfoldable pub program_or_recover : Recovery → Run W (Unit {0})
  program_or_recover r s =
      let (failure, s') = program_target (announce_programming s) in
      elim failure [
        | some reason ↦ recover_target r reason s'
        | none ↦ (go tt, leave_verified r s')
      ]

  unfoldable pub flash_stm32 : Text → Run W (Unit {0})
  flash_stm32 failure = do
    connect_target io command_id config expected_size
    check_capacity io command_id config expected_size
    r ← prepare_recovery io command_id config expected_size failure
    program_or_recover r
