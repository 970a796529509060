-- ===== src/Ota/Kept.antt =====
-- src/NivaloDeviceOta.cpp: the calls that leave the staged firmware as it is.
use nivalo_esp.Ota.{OtaWorld, Action, remove, program_prepare}
use nivalo_esp.Ota.Files.{
  has_size, hash_loop, compute_file_sha256, copy_loop, copy_stm32_flash_to_file, program_loop,
  program_stm32_from_file, verify_loop, verify_stm32_against_file, find_change, inject_change,
  inject_stm32_recovery_acceptance_mismatch,
}
use nivalo_esp.Ota.Download.{staging_path}
use nivalo_esp.Common.{
  ℕ, zero, suc, ◌+◌, ◌/◌, ◌-◌, ◌≡◌, refl, ◌∙◌, Bool, true, false, not, arith, List, [], ◌++◌,
  Option, none, some, min, length, Text, text_eq, or_empty, if_cases,
}

-- Whether a call leaves the staging file as it is, and whether it leaves the flash as it is.
abbrev pub spares_file : Action → Bool
spares_file (remove path) = not (text_eq path staging_path)
spares_file _ = true

abbrev pub spares_flash : Action → Bool
spares_flash (program_prepare address size) = false
spares_flash _ = true

-- What is asked of the calls: `image` is what the staging file has, and only writing that file or
-- removing it changes it; `flash` is what the secondary MCU has, and only programming changes it.
pub record KeepsImage {W : Type 0} (io : OtaWorld W) (image : W → List ℕ) : Type 0 where
  pub perform : (w : W) (a : Action) → spares_file a ≡ true → image (io.perform w a) ≡ image w
  pub open_write :
      (w : W) (path : Text)
      → text_eq path staging_path ≡ false
      → image (io.open_write w path).1 ≡ image w
  pub append :
      (w : W) (path : Text) (bytes : List ℕ)
      → text_eq path staging_path ≡ false
      → image (io.file_append w path bytes).1 ≡ image w
  pub read : (w : W) (path : Text) (offset n : ℕ) → image (io.file_read w path offset n).1 ≡ image w
  pub starts : (w : W) → image (io.sha_starts w).1 ≡ image w
  pub update : (w : W) (bytes : List ℕ) → image (io.sha_update w bytes).1 ≡ image w
  pub finish : (w : W) → image (io.sha_finish w).1 ≡ image w
  pub connect : (w : W) → image (io.target_connect w).1 ≡ image w
  pub select : (w : W) → image (io.select w).1 ≡ image w
  pub block : (w : W) (address n : ℕ) → image (io.dap_read_block w address n).1 ≡ image w
  pub program :
      (w : W) (address : ℕ) (bytes : List ℕ) → image (io.program_flash w address bytes).1 ≡ image w

module _ {W : Type 0} (io : OtaWorld W) (image : W → List ℕ) (keeps : KeepsImage io image) where
  hash_loop-image :
      (n : ℕ) (path : Text) (size total : ℕ) (hashed : List ℕ) (w : W)
      → image (hash_loop io n path size total hashed w).1 ≡ image w
  unfolding hash_loop
  hash_loop-image zero path size total hashed w = refl
  hash_loop-image (suc n) path size total hashed w =
      let asked = min 1024 (size - total) in
      let (bytes, w1) = io.file_read w path total asked in
      let w2 = (io.sha_update w1 bytes).1 in
      ground (
        arith,
        keeps.read w path total asked,
        keeps.update w1 bytes,
        hash_loop-image n path size (total + length bytes) (hashed ++ bytes) w2,
      )

  pub compute_file_sha256-image :
      (path : Text) (size : ℕ) (w : W) → image (compute_file_sha256 io path size w).1 ≡ image w
  unfolding compute_file_sha256
  compute_file_sha256-image path size w =
      let w1 = (io.sha_starts w).1 in
      let w2 = (hash_loop io size path size 0 [] w1).1 in
      ground (arith, keeps.starts w, hash_loop-image size path size 0 [] w1, keeps.finish w2)

  verify_loop-image :
      (n : ℕ) (path : Text) (size offset : ℕ) (w : W)
      → image (verify_loop io n path size offset w).1 ≡ image w
  unfolding verify_loop
  verify_loop-image zero path size offset w = refl
  verify_loop-image (suc n) path size offset w =
      let count = min 4096 (size - offset) in
      let w1 = (io.file_read w path offset count).1 in
      let w2 = (io.dap_read_block w1 (0x08000000 + offset) count).1 in
      ground (
        arith,
        keeps.read w path offset count,
        keeps.block w1 (0x08000000 + offset) count,
        verify_loop-image n path size (offset + count) w2,
      )

  pub verify-image :
      (path : Text) (size : ℕ) (w : W)
      → image (verify_stm32_against_file io path size w).1 ≡ image w
  unfolding verify_stm32_against_file
  verify-image path size w = grind (arith, verify_loop-image)

  program_loop-image :
      (n : ℕ) (path : Text) (size offset : ℕ) (w : W)
      → image (program_loop io n path size offset w).1 ≡ image w
  unfolding program_loop
  program_loop-image zero path size offset w = refl
  program_loop-image (suc n) path size offset w =
      let count = min 4096 (size - offset) in
      let (bytes, w1) = io.file_read w path offset count in
      let w2 = (io.program_flash w1 (0x08000000 + offset) bytes).1 in
      ground (
        arith,
        keeps.read w path offset count,
        keeps.program w1 (0x08000000 + offset) bytes,
        program_loop-image n path size (offset + count) w2,
      )

  pub program-image :
      (path : Text) (size : ℕ) (w : W) → image (program_stm32_from_file io path size w).1 ≡ image w
  unfolding program_stm32_from_file
  program-image path size w =
      grind (arith, program_loop-image, keeps.perform w (program_prepare 0x08000000 size) refl)

  copy_loop-image :
      (n : ℕ) (path : Text) (size offset : ℕ) (w : W)
      → text_eq path staging_path ≡ false
      → image (copy_loop io n path size offset w).1 ≡ image w
  unfolding copy_loop
  copy_loop-image zero path size offset w other = refl
  copy_loop-image (suc n) path size offset w other =
      let count = min 4096 (size - offset) in
      let (block, w1) = io.dap_read_block w (0x08000000 + offset) count in
      let w2 = (io.file_append w1 path (or_empty block)).1 in
      ground (
        arith,
        keeps.block w (0x08000000 + offset) count,
        keeps.append w1 path (or_empty block) other,
        copy_loop-image n path size (offset + count) w2 other,
      )

  pub copy-image :
      (path : Text) (size : ℕ) (w : W)
      → text_eq path staging_path ≡ false
      → image (copy_stm32_flash_to_file io path size w).1 ≡ image w
  unfolding copy_stm32_flash_to_file
  copy-image path size w other =
      let spared : spares_file (remove path) ≡ true = rw other refl in
      let w0 = io.perform w (remove path) in
      let w1 = (io.open_write w0 path).1 in
      let n = (size + 4095) / 4096 in
      let w2 = (copy_loop io n path size 0 w1).1 in
      ground (
        arith,
        keeps.perform w (remove path) spared,
        keeps.open_write w0 path other,
        copy_loop-image n path size 0 w1 other,
        keeps.perform w2 (remove path) spared,
      )

  find_change-image :
      (n : ℕ) (path : Text) (size offset : ℕ) (w : W)
      → image (find_change io n path size offset w).1 ≡ image w
  unfolding find_change
  find_change-image zero path size offset w = refl
  find_change-image (suc n) path size offset w =
      let count = min 4 (size - offset) in
      let w1 = (io.file_read w path offset count).1 in
      ground
        (arith, keeps.read w path offset count, find_change-image n path size (offset + count) w1)

  inject_change-image :
      (found : Option (ℕ × (List ℕ × List ℕ))) (w : W)
      → image (inject_change io found w).1 ≡ image w
  unfolding inject_change
  inject_change-image none w = refl
  inject_change-image (some (offset, (original, changed))) w =
      let w1 = (io.program_flash w (0x08000000 + offset) changed).1 in
      ground (
        arith,
        keeps.program w (0x08000000 + offset) changed,
        keeps.block w1 (0x08000000 + offset) 4,
      )

  pub inject-image :
      (path : Text) (size : ℕ) (w : W)
      → image (inject_stm32_recovery_acceptance_mismatch io path size w).1 ≡ image w
  unfolding inject_stm32_recovery_acceptance_mismatch
  inject-image path size w =
      let r = find_change io ((size + 3) / 4) path size 0 w in
      if_cases (λ (t : Bool × W). image t.1 ≡ image w) (has_size io w path size) _ _
        (λ e. inject_change-image r.0 r.1 ∙ find_change-image ((size + 3) / 4) path size 0 w)
        (λ e. refl)
