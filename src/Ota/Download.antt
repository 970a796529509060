-- ===== src/Ota/Download.antt =====
-- src/NivaloDeviceOta.cpp: the download of a firmware into the staging file, its check, and the update of
-- the ESP32 from it.
use nivalo_esp.Ota.{
  OtaWorld, OtaState, running, succeeded, portion, go, restarted, Run, Round, remove, close_file,
  restart, emit, close_download, acknowledge, fail, fail_with,
}
use nivalo_esp.Ota.Files.{compute_file_sha256, bytes_to_hex}
use nivalo_esp.Common.{
  ℕ, ◌+◌, ◌%◌, ◌-◌, Bool, true, false, not, ◌&&◌, ◌||◌, List, [], ◌∷◌, ◌++◌, Option, none, some,
  length, ltb, leb, ◌==◌, if◌then◌else◌, is_some, sub32, Text, codes, text_eq, is_empty, or_empty,
}

abbrev pub staging_path : Text
staging_path = codes "/firmware.bin"

-- What the loop of the download keeps. `remaining` has `none` for -1.
pub record Download : Type 0 where
  pub downloaded : List ℕ
  pub remaining : Option ℕ
  pub write_ok : Bool
  pub failure : Text
  pub last_progress : ℕ
  pub last_data : ℕ

abbrev pub idle_timeout_ms : ℕ
idle_timeout_ms = 15000

abbrev pub progress_interval_ms : ℕ
progress_interval_ms = 1500

abbrev pub progress_chunk_bytes : ℕ
progress_chunk_bytes = 16384

module _ {W : Type 0} (io : OtaWorld W) (command_id : Text) (expected_size : ℕ) where
  -- The test of the loop, but for the connection.
  abbrev pub wants_more : Option ℕ → Bool
  wants_more none = true
  wants_more (some n) = ltb 0 n

  -- The bytes of a round are written; whether the loop goes on.
  unfoldable pub take_bytes :
      Round → List ℕ → Download → OtaState W → Bool × (Download × OtaState W)
  take_bytes round bytes d s =
      let size = length d.downloaded + length bytes in
      let d' = record d {
        downloaded = d.downloaded ++ bytes;
        remaining = elim d.remaining [ none ↦ none | some n ↦ some (n - length bytes) ];
        last_data = round.now;
      } in
      if is_empty bytes || ltb expected_size size || not round.written
      then (
        false,
        (
          record d {
            failure =
                if ltb expected_size size
                then codes "Firmware download exceeds signed sizeBytes"
                else codes "Durable firmware staging write failed";
            write_ok = false;
          },
          s,
        ),
      )
      else (if not (is_empty command_id)
            && (leb progress_interval_ms (sub32 round.now d.last_progress)
                || size % progress_chunk_bytes == 0)
          then (
            true,
            (
              record d' { last_progress = round.now },
              acknowledge io command_id running (codes "Downloading firmware")
                  (some (portion size expected_size)) s,
            ),
          )
          else (true, (d', s)))

  -- A round of the loop.
  unfoldable pub download_round : Round → Download → OtaState W → Bool × (Download × OtaState W)
  unfolding take_bytes
  download_round round d s = elim round.received [
    | some bytes ↦ take_bytes round bytes d s
    | none ↦
        (if ltb idle_timeout_ms (sub32 round.now d.last_data)
          then (false, (record d { failure = codes "Firmware download timed out" }, s))
          else (true, (d, s)))
  ]

  unfoldable pub download_loop : List Round → Download → OtaState W → Download × OtaState W
  unfolding download_round
  download_loop [] d s = (d, s)
  download_loop (round ∷ rounds) d s =
      let (more, (d', s')) = download_round round d s in
      let rest = download_loop rounds d' s' in
      if wants_more d.remaining then (if more then rest else (d', s')) else (d, s)

  -- The download, from the opened staging file until it is closed.
  unfoldable pub download : Option ℕ → Text → Run W Download
  unfolding download_loop emit
  download content_length failure s =
      let now = io.millis s.world in
      let rounds = io.http_rounds s.world in
      let (d, s') =
        download_loop rounds
          (record {
            downloaded = [];
            remaining = content_length;
            write_ok = true;
            failure = failure;
            last_progress = now;
            last_data = now;
          })
          (record s { world = io.received s.world rounds }) in
      (go d, emit io (close_file staging_path) s')

  -- The size and the checksums of what was downloaded and of what was staged.
  unfoldable pub check_staged : Text → Download → Run W (Unit {0})
  unfolding emit
  check_staged expected_sha256 d s =
      let removed = emit io (remove staging_path) s in
      let (staged, w) = compute_file_sha256 io staging_path expected_size s.world in
      let hashed = record s { world = w } in
      let name = codes "esp32.flash.verification-failed" in
      let wrong = codes "Firmware SHA-256 verification failed" in
      if not d.write_ok || not (length d.downloaded == expected_size)
      then fail_with io command_id name
          (if d.write_ok then codes "Firmware size verification failed" else d.failure)
          (codes "warning") removed
      else (if not (text_eq expected_sha256 (bytes_to_hex (io.sha256 d.downloaded)))
          then fail_with io command_id name wrong (codes "warning") removed
          else (if is_some staged && text_eq expected_sha256 (or_empty staged)
              then (go tt, hashed)
              else fail_with io command_id name wrong (codes "warning")
                  (emit io (remove staging_path) hashed)))

  -- `Update`, from the staging file.
  pub update_esp32 : ℕ → W → Bool × W
  update_esp32 size w =
      let (begun, w1) = io.update_begin w size in
      let (written, w2) = io.update_write w1 staging_path in
      let (ended, w3) = io.update_end w2 in
      if begun then (if written == size then (ended, w3) else (false, w2)) else (false, w1)

  unfoldable pub flash_esp32 : {A : Type 0} → Run W A
  unfolding update_esp32 close_download emit
  flash_esp32 s =
      let closed = close_download io s in
      let size : ℕ = elim (io.file_size closed.world staging_path) [ none ↦ 0 | some n ↦ n ] in
      let (ok, w) = update_esp32 size closed.world in
      let done =
        emit io (remove staging_path)
          (emit io (close_file staging_path) (record closed { world = w })) in
      if is_some (io.file_size closed.world staging_path)
      then (if not ok || io.update_has_error done.world
          then fail_with io command_id (codes "esp32.flash.failed") (io.update_error done.world)
              (codes "error") done
          else (
            restarted,
            emit io restart (
                acknowledge io command_id succeeded (codes "ESP32 firmware updated; restarting")
                  none done),
          ))
      else fail io command_id (codes "Verified ESP32 firmware file could not be reopened") closed
