-- ===== src/Ota/Image.antt =====
-- src/NivaloDeviceOta.cpp: the image that the secondary MCU holds when a firmware command succeeds.
use nivalo_esp.Ota.{
  http_end, OtaWorld, OtaState, ack, AckStatus, Progress, event, remove, go, emit, close_download,
  acknowledge,
}
use nivalo_esp.Ota.Files.{copy_stm32_flash_to_file}
use nivalo_esp.Ota.Download.{staging_path}
use nivalo_esp.Ota.Recovery.{
  RecoveryConfig, Recovery, snapshot_path, connect_target, check_capacity, check_golden,
  take_snapshot, choose_recovery, prepare_recovery,
}
use nivalo_esp.Ota.Stm32.{inject_if_pending, program_target, announce_programming}
use nivalo_esp.Ota.Kept.{
  KeepsImage, spares_file, compute_file_sha256-image, verify-image, program-image, copy-image,
  inject-image,
}
use nivalo_esp.Common.{ℕ, ◌≡◌, refl, true, false, arith, List, Option, Text, codes, text_eq}

module _ {W : Type 0} (io : OtaWorld W) (command_id : Text) (image : W → List ℕ)
    (keeps : KeepsImage io image) where
  pub acknowledge-image :
      (status : AckStatus) (message : Text) (progress : Option Progress) (s : OtaState W)
      → image (acknowledge io command_id status message progress s).world ≡ image s.world
  unfolding acknowledge emit
  acknowledge-image status message progress s =
      ground (arith, keeps.perform s.world (ack status message progress) refl)

  pub close_download-image : (s : OtaState W) → image (close_download io s).world ≡ image s.world
  unfolding close_download emit
  close_download-image s = ground (arith, keeps.perform s.world http_end refl)

  module _ (config : RecoveryConfig) (size : ℕ) where
    pub announce_programming-image :
        (s : OtaState W)
        → image (announce_programming io command_id config size s).world ≡ image s.world
    unfolding announce_programming emit
    announce_programming-image s =
        grind (arith, acknowledge-image, keeps.perform, close_download-image)

    pub connect_target-image :
        (s : OtaState W)
        → (connect_target io command_id config size s).0 ≡ go tt
        → image (connect_target io command_id config size s).1.world ≡ image s.world
    unfolding connect_target emit
    connect_target-image s h = grind (arith, keeps.perform, keeps.connect, keeps.select)

    pub check_capacity-image :
        (s : OtaState W)
        → (check_capacity io command_id config size s).0 ≡ go tt
        → image (check_capacity io command_id config size s).1.world ≡ image s.world
    unfolding check_capacity
    check_capacity-image s h = ground arith

    check_golden-image : (w : W) → image (check_golden io command_id config size w).1 ≡ image w
    unfolding check_golden
    check_golden-image w = grind (arith, compute_file_sha256-image io image keeps)

    take_snapshot-image : (w : W) → image (take_snapshot io command_id config size w).1 ≡ image w
    unfolding take_snapshot
    take_snapshot-image w =
        let other : text_eq snapshot_path staging_path ≡ false = unfold text_eq in refl in
        let known = config.known_good_size in
        let w1 = (copy_stm32_flash_to_file io snapshot_path known w).1 in
        ground (
          arith,
          copy-image io image keeps snapshot_path known w other,
          verify-image io image keeps snapshot_path known w1,
        )

    choose_recovery-image :
        (failure : Text) (s : OtaState W)
        → image (choose_recovery io command_id config size failure s).1.world ≡ image s.world
    unfolding choose_recovery emit
    choose_recovery-image failure s =
        let spared : spares_file (remove snapshot_path) ≡ true = unfold text_eq in refl in
        let w1 = io.perform s.world (remove snapshot_path) in
        let w2 = (take_snapshot io command_id config size w1).1 in
        ground (
          arith,
          check_golden-image s.world,
          keeps.perform s.world (remove snapshot_path) spared,
          take_snapshot-image w1,
          keeps.perform w2
              (event (codes "esp32.flash.stm32-recovery-prepared")
                (codes "Known-good STM32 image preserved") (codes "info"))
              refl,
        )

    pub prepare_recovery-image :
        (failure : Text) (s : OtaState W) (r : Recovery)
        → (prepare_recovery io command_id config size failure s).0 ≡ go r
        → image (prepare_recovery io command_id config size failure s).1.world ≡ image s.world
    unfolding prepare_recovery
    prepare_recovery-image failure s r h = ground (arith, choose_recovery-image failure s)

    pub inject_if_pending-image :
        (s : OtaState W)
        → image (inject_if_pending io command_id config size s).1.world ≡ image s.world
    unfolding inject_if_pending emit
    inject_if_pending-image s = grind (arith, inject-image io image keeps, keeps.perform)

    pub program_target-image :
        (s : OtaState W)
        → image (program_target io command_id config size s).1.world ≡ image s.world
    unfolding program_target
    program_target-image s = grind (
      arith,
      program-image io image keeps,
      acknowledge-image,
      inject_if_pending-image,
      verify-image io image keeps,
    )
