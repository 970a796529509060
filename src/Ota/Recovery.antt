-- ===== src/Ota/Recovery.antt =====
-- src/NivaloDeviceOta.cpp: the connection to the secondary MCU, and the image that it is recovered from.
use nivalo_esp.Ota.{
  OtaWorld, OtaState, go, Run, event, remove, close_file, dap_begin, dap_debugger_info,
  dap_deselect, dap_disconnect, emit, fail, fail_with,
}
use nivalo_esp.Ota.Files.{compute_file_sha256, copy_stm32_flash_to_file, verify_stm32_against_file}
use nivalo_esp.Ota.Download.{staging_path}
use nivalo_esp.Common.{
  ℕ, Bool, true, false, not, ◌&&◌, ◌||◌, [], ◌++◌, Option, none, some, length, ltb, ◌==◌,
  if◌then◌else◌, is_some, Text, codes, text_eq, is_empty, or_empty,
}

-- The members that say how the secondary MCU is recovered.
pub record RecoveryConfig : Type 0 where
  pub golden_image_path : Text
  pub golden_image_size : ℕ
  pub golden_image_sha256 : Text
  pub preserve_known_good : Bool
  pub known_good_size : ℕ

abbrev pub snapshot_path : Text
snapshot_path = codes "/stm32-prior-known-good.bin"

-- What `flashFailure` is at first.
abbrev pub no_failure : Text
no_failure = codes "Flash command failed"

-- `recoveryPath`, `recoverySize` and `recoveryIsSnapshot`.
pub record Recovery : Type 0 where
  pub path : Text
  pub size : ℕ
  pub is_snapshot : Bool

module _ {W : Type 0} (io : OtaWorld W) (command_id : Text) (config : RecoveryConfig)
    (expected_size : ℕ) where
  unfoldable pub connect_target : Run W (Unit {0})
  unfolding emit
  connect_target s =
      let begun = emit io dap_begin s in
      let (connected, w) = io.target_connect begun.world in
      let s1 = record begun { world = w } in
      let dropped =
        λ (t : OtaState W). emit io (remove staging_path) (emit io (close_file staging_path) t) in
      let informed = emit io dap_debugger_info s1 in
      let (selected, w') = io.select informed.world in
      let s2 = record informed { world = w' } in
      if not connected
      then fail io command_id (codes "DAP target connect failed: " ++ io.dap_error w) (dropped s1)
      else (if not selected
          then fail io command_id (codes "Unknown STM32 target")
              (emit io dap_disconnect (dropped s2))
          else (go tt, s2))

  -- The staged image is removed, the target is left, and the command fails.
  abbrev pub reject_target : {A : Type 0} → Text → Run W A
  reject_target reason s =
      fail_with io command_id (codes "esp32.flash.rejected") reason (codes "warning")
        (emit io dap_disconnect (emit io dap_deselect (emit io (remove staging_path) s)))

  unfoldable pub check_capacity : Run W (Unit {0})
  unfolding emit
  check_capacity s =
      if ltb (io.flash_size s.world) expected_size
      then reject_target (codes "Signed STM32 image exceeds target flash capacity") s
      else (go tt, s)

  -- The configured golden image, if it is the one that was configured.
  unfoldable pub check_golden : W → Bool × W
  check_golden w =
      let size = config.golden_image_size in
      let (digest, w') = compute_file_sha256 io config.golden_image_path size w in
      if text_eq config.golden_image_path staging_path
        || text_eq config.golden_image_path snapshot_path
        || size == 0
        || ltb (io.flash_size w) size
        || not (length config.golden_image_sha256 == 64)
      then (false, w)
      else (is_some digest && text_eq (or_empty digest) config.golden_image_sha256, w')

  -- The copy of the flash, or why there is none.
  unfoldable pub take_snapshot : W → Option Text × W
  take_snapshot w =
      let size = config.known_good_size in
      let (copied, w1) = copy_stm32_flash_to_file io snapshot_path size w in
      let (verified, w2) = verify_stm32_against_file io snapshot_path size w1 in
      let failure =
        some (codes "STM32 known-good recovery snapshot could not be preserved and verified") in
      if size == 0 || ltb (io.flash_size w) size
      then (some (codes "Known-good STM32 image size is not configured or exceeds target flash"), w)
      else (if ltb (io.free_storage w) size
          then (some (codes "Insufficient durable storage for STM32 recovery snapshot"), w)
          else (if copied then (if verified then (none, w2) else (failure, w2)) else (failure, w1)))

  -- `recoveryPath` is null where no recovery is configured, here the empty path. The text is `flashFailure`.
  unfoldable pub choose_recovery : Text → OtaState W → (Text × Recovery) × OtaState W
  unfolding emit
  choose_recovery failure s =
      let (golden, w1) = check_golden s.world in
      let cleared = emit io (remove snapshot_path) s in
      let (problem, w2) = take_snapshot cleared.world in
      let s2 = record cleared { world = w2 } in
      let snapshot : Recovery = record {
        path = snapshot_path;
        size = config.known_good_size;
        is_snapshot = true;
      } in
      if not (is_empty config.golden_image_path)
      then (
        (
          if golden
              then failure
              else codes "Configured STM32 golden image is missing, malformed, or corrupt",
          record {
            path = config.golden_image_path;
            size = config.golden_image_size;
            is_snapshot = false;
          },
        ),
        record s { world = w1 },
      )
      else (if config.preserve_known_good
          then (elim problem [
            | some reason ↦ ((reason, snapshot), s2)
            | none ↦ (
              (failure, snapshot),
              emit io
                  (event (codes "esp32.flash.stm32-recovery-prepared")
                    (codes "Known-good STM32 image preserved") (codes "info"))
                  s2,
            )
          ])
          else (
            (
              codes "STM32 recovery is not configured; refusing to program",
              record { path = []; size = 0; is_snapshot = false },
            ),
            s,
          ))

  unfoldable pub prepare_recovery : Text → Run W Recovery
  unfolding emit
  prepare_recovery failure s =
      let ((failure', r), s') = choose_recovery failure s in
      if is_empty r.path || r.size == 0 || not (text_eq failure' no_failure)
      then reject_target failure' s'
      else (go r, s')
