-- ===== src/Ota/Files.antt =====
-- src/NivaloDeviceOta.cpp: the functions that go through a file in chunks. Each loop has the rounds
-- that its file takes, but `hash_loop` has one for each byte, since a read may be short.
use nivalo_esp.Ota.{OtaWorld, remove, program_prepare}
use Prim.Native.Nat.{bit_and}
use nivalo_esp.Common.{
  ℕ, zero, suc, ◌+◌, ◌/◌, ◌%◌, ◌-◌, Bool, false, not, ◌&&◌, List, [], ◌∷◌, ◌++◌, Option, none, some,
  min, length, take, replicate, ltb, ◌==◌, if◌then◌else◌, is_some, Text, text_eq, is_empty,
  or_empty,
}

abbrev pub flash_start_address : ℕ
flash_start_address = 0x08000000

abbrev pub chunk_size : ℕ
chunk_size = 4096

abbrev pub hex_digit : ℕ → ℕ
hex_digit n = if ltb n 10 then b'0' + n else b'a' + (n - 10)

abbrev pub bytes_to_hex : List ℕ → Text
bytes_to_hex [] = []
bytes_to_hex (b ∷ bytes) = hex_digit (b / 16 % 16) ∷ hex_digit (b % 16) ∷ bytes_to_hex bytes

-- How many chunks of `count` bytes a file of this size has.
abbrev pub chunks : ℕ → ℕ → ℕ
chunks count size = (size + (count - 1)) / count

-- The first byte that is not 0 loses its lowest bit; `none` if there is none.
pub clear_bit : List ℕ → Option (List ℕ)
clear_bit [] = none
clear_bit (x ∷ xs) =
    if x == 0
    then (elim (clear_bit xs) [ none ↦ none | some ys ↦ some (x ∷ ys) ])
    else some (bit_and x (x - 1) ∷ xs)

module _ {W : Type 0} (io : OtaWorld W) where
  -- `file && file.size() == size` of a file that is opened for reading.
  unfoldable pub has_size : W → Text → ℕ → Bool
  has_size w path size = elim (io.file_size w path) [ none ↦ false | some n ↦ n == size ]

  -- The bytes that were hashed, or `none` if a call failed.
  unfoldable pub hash_loop : ℕ → Text → ℕ → ℕ → List ℕ → W → Option (List ℕ) × W
  hash_loop zero path size total hashed w = (if total == size then some hashed else none, w)
  hash_loop (suc n) path size total hashed w =
      let (bytes, w1) = io.file_read w path total (min 1024 (size - total)) in
      let (updated, w2) = io.sha_update w1 bytes in
      let rest = hash_loop n path size (total + length bytes) (hashed ++ bytes) w2 in
      if ltb total size
      then (if is_empty bytes then (none, w1) else (if updated then rest else (none, w2)))
      else (if total == size then some hashed else none, w)

  unfoldable pub compute_file_sha256 : Text → ℕ → W → Option Text × W
  unfolding has_size hash_loop
  compute_file_sha256 path size w =
      let (started, w1) = io.sha_starts w in
      let (hashed, w2) = hash_loop size path size 0 [] w1 in
      let (finished, w3) = io.sha_finish w2 in
      if not (has_size w path size)
      then (none, w)
      else (if not started then (none, w1) else (elim hashed [
        | none ↦ (none, w2)
        | some bytes ↦ (if finished then some (bytes_to_hex (io.sha256 bytes)) else none, w3)
      ]))

  unfoldable pub copy_loop : ℕ → Text → ℕ → ℕ → W → Bool × W
  copy_loop zero path size offset w = (offset == size, w)
  copy_loop (suc n) path size offset w =
      let count = min chunk_size (size - offset) in
      let (block, w1) = io.dap_read_block w (flash_start_address + offset) count in
      let (written, w2) = io.file_append w1 path (or_empty block) in
      let rest = copy_loop n path size (offset + count) w2 in
      if ltb offset size
      then (if is_some block then (if written then rest else (false, w2)) else (false, w1))
      else (offset == size, w)

  unfoldable pub copy_stm32_flash_to_file : Text → ℕ → W → Bool × W
  unfolding copy_loop
  copy_stm32_flash_to_file path size w =
      let (opened, w1) = io.open_write (io.perform w (remove path)) path in
      let (ok, w2) = copy_loop (chunks chunk_size size) path size 0 w1 in
      if not opened then (false, w1) else (ok, if ok then w2 else io.perform w2 (remove path))

  unfoldable pub program_loop : ℕ → Text → ℕ → ℕ → W → Bool × W
  program_loop zero path size offset w = (offset == size, w)
  program_loop (suc n) path size offset w =
      let count = min chunk_size (size - offset) in
      let (bytes, w1) = io.file_read w path offset count in
      let (programmed, w2) = io.program_flash w1 (flash_start_address + offset) bytes in
      let rest = program_loop n path size (offset + count) w2 in
      if ltb offset size
      then (if length bytes == count
          then (if programmed then rest else (false, w2))
          else (false, w1))
      else (offset == size, w)

  unfoldable pub program_stm32_from_file : Text → ℕ → W → Bool × W
  unfolding has_size program_loop
  program_stm32_from_file path size w =
      let prepared = io.perform w (program_prepare flash_start_address size) in
      if has_size w path size
      then program_loop (chunks chunk_size size) path size 0 prepared
      else (false, w)

  unfoldable pub verify_loop : ℕ → Text → ℕ → ℕ → W → Bool × W
  verify_loop zero path size offset w = (offset == size, w)
  verify_loop (suc n) path size offset w =
      let count = min chunk_size (size - offset) in
      let (expected, w1) = io.file_read w path offset count in
      let (actual, w2) = io.dap_read_block w1 (flash_start_address + offset) count in
      let rest = verify_loop n path size (offset + count) w2 in
      if ltb offset size
      then (if length expected == count
          then (if is_some actual && text_eq expected (or_empty actual) then rest else (false, w2))
          else (false, w1))
      else (offset == size, w)

  unfoldable pub verify_stm32_against_file : Text → ℕ → W → Bool × W
  unfolding has_size verify_loop
  verify_stm32_against_file path size w =
      if has_size w path size
      then verify_loop (chunks chunk_size size) path size 0 w
      else (false, w)

  -- The place and the bytes, before and after, of the first four bytes that are not all 0.
  unfoldable pub find_change : ℕ → Text → ℕ → ℕ → W → Option (ℕ × (List ℕ × List ℕ)) × W
  find_change zero path size offset w = (none, w)
  find_change (suc n) path size offset w =
      let count = min 4 (size - offset) in
      let (original, w1) = io.file_read w path offset count in
      let rest = find_change n path size (offset + count) w1 in
      let padded = λ (bytes : List ℕ). take 4 (bytes ++ replicate 4 0xff) in
      if ltb offset size && length original == count
      then (elim (clear_bit original) [
        | none ↦ rest
        | some changed ↦ (some (offset, (padded original, padded changed)), w1)
      ])
      else (none, if ltb offset size then w1 else w)

  -- From the place that was found on, if one was.
  unfoldable pub inject_change : Option (ℕ × (List ℕ × List ℕ)) → W → Bool × W
  inject_change none w = (false, w)
  inject_change (some (offset, (original, changed))) w =
      let (programmed, w1) = io.program_flash w (flash_start_address + offset) changed in
      let (observed, w2) = io.dap_read_block w1 (flash_start_address + offset) 4 in
      if programmed
      then (is_some observed && not (text_eq original (or_empty observed)), w2)
      else (false, w1)

  unfoldable pub inject_stm32_recovery_acceptance_mismatch : Text → ℕ → W → Bool × W
  unfolding has_size
  inject_stm32_recovery_acceptance_mismatch path size w =
      let (found, w1) = find_change (chunks 4 size) path size 0 w in
      if has_size w path size then inject_change found w1 else (false, w)
