-- ===== src/Ota/Tests.antt =====
-- The theorems at concrete inputs.
use nivalo_esp.Lifecycle.Example.{two_keys}
use nivalo_esp.Firmware.{verified, build_firmware_manifest, verify_firmware_signature}
use nivalo_esp.Ota.{go, acknowledge, emit, close_download}
use nivalo_esp.Ota.Files.{
  has_size, hash_loop, compute_file_sha256, program_loop, program_stm32_from_file, verify_loop,
  verify_stm32_against_file,
}
use nivalo_esp.Ota.Download.{take_bytes, download_round, download_loop, download, check_staged}
use nivalo_esp.Ota.Recovery.{
  connect_target, check_capacity, check_golden, choose_recovery, prepare_recovery,
}
use nivalo_esp.Ota.Stm32.{
  announce_programming, inject_if_pending, program_target, leave_verified, program_or_recover,
  flash_stm32,
}
use nivalo_esp.Ota.Command.{
  is_esp32, check_command, flash_target, complete_flash, stage_and_flash, announce_size,
  open_staging, receive_firmware, take_response, request_firmware, handle_firmware_command,
}
use nivalo_esp.Ota.Parts.{answers}
use nivalo_esp.Ota.Answers.{answered_exactly_once}
use nivalo_esp.Ota.Flashed.{HoldsSigned, flashed_image}
use nivalo_esp.Ota.Example.{
  board, content, flash, board-IsDevice, toy_tls, started, arguments, recovery,
}
use nivalo_esp.Common.{◌+◌, ◌≡◌, refl, true, false, [], none, some, Text, codes, text_eq}

answered_exactly_once_example :
    answers
      (handle_firmware_command toy_tls two_keys true board
        (codes "42")
        recovery
        arguments
        started).trace
    ≡ answers [] + 1
answered_exactly_once_example =
    answered_exactly_once board toy_tls two_keys true recovery (codes "42") arguments started refl

accepted : check_command toy_tls two_keys true arguments ≡ none
unfolding check_command build_firmware_manifest verify_firmware_signature text_eq
accepted = refl

succeeds :
    (request_firmware toy_tls two_keys true board (codes "42") recovery arguments started).0
    ≡ go none
unfolding request_firmware take_response receive_firmware announce_size open_staging stage_and_flash
    download download_loop download_round take_bytes check_staged compute_file_sha256 hash_loop
    has_size flash_target flash_stm32 connect_target check_capacity prepare_recovery choose_recovery
    check_golden program_or_recover announce_programming program_target inject_if_pending
    program_stm32_from_file program_loop verify_stm32_against_file verify_loop leave_verified
    complete_flash close_download acknowledge emit text_eq
succeeds = refl

not_esp32 : is_esp32 arguments ≡ false
unfolding text_eq
not_esp32 = refl

flashed_image_example :
    HoldsSigned board arguments (
      flash
        (request_firmware toy_tls two_keys true board
          (codes "42")
          recovery
          arguments
          started).1.world)
    × ((manifest : Text) × ((build_firmware_manifest
              (some (codes "stm32"))
              3
              (some arguments.sha256)
              160
            ≡ some manifest)
          × (verify_firmware_signature toy_tls two_keys
                (some (codes "ecdsa-p256-sha256"))
                (some (codes "k2"))
                (some (codes "NIVALO-F"))
                manifest
              ≡ verified)))
flashed_image_example =
    flashed_image board content flash board-IsDevice (codes "42") recovery toy_tls two_keys true
      arguments not_esp32 started accepted succeeds
