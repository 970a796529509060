-- ===== src/Ota/Example.antt =====
-- A device that is small enough to run a firmware command: a staging file, a golden image of two bytes,
-- and a flash that is programmed cell by cell.
use nivalo_esp.Firmware.{MbedTls}
use nivalo_esp.Ota.{OtaWorld, OtaState, Action, remove, code, Round}
use nivalo_esp.Ota.Download.{staging_path}
use nivalo_esp.Ota.Recovery.{RecoveryConfig}
use nivalo_esp.Ota.Command.{FirmwareArguments}
use nivalo_esp.Ota.Files.{bytes_to_hex}
use nivalo_esp.Ota.ReadBack.{IsMemory}
use nivalo_esp.Ota.Kept.{spares_file, spares_flash}
use nivalo_esp.Ota.Programmed.{IsDevice}
use nivalo_esp.Common.{
  ℕ, zero, suc, ◌+◌, ◌<◌, ◌≡◌, refl, sym, ap, ◌∙◌, true, false, arith, List, [], ◌∷◌, ◌++◌, some,
  length, get_elem?, take, drop, replicate, ◌==◌, if◌then◌else◌, Text, codes, text_eq, or_empty,
}

pub record Board : Type 0 where
  pub staged : List ℕ
  pub cells : ℕ → ℕ

abbrev golden : List ℕ
golden = 7 ∷ 8 ∷ []

abbrev pub content : Board → Text → List ℕ
content w path = if text_eq path staging_path then w.staged else golden

abbrev pub flash : Board → ℕ → ℕ
flash w = w.cells

-- The cells of a block.
abbrev block : (ℕ → ℕ) → ℕ → ℕ → List ℕ
block cells address zero = []
block cells address (suc n) = cells address ∷ block cells (address + 1) n

abbrev program : (ℕ → ℕ) → ℕ → List ℕ → ℕ → ℕ
program cells address [] i = cells i
program cells address (b ∷ bytes) i =
    let rest = program cells (address + 1) bytes i in if i == address then b else rest

-- `SPIFFS.remove`; the other calls whose results are not used change nothing here.
abbrev drop_file : Board → Action → Board
drop_file w (remove path) = if text_eq path staging_path then record w { staged = [] } else w
drop_file w _ = w

abbrev toy_digest : List ℕ → List ℕ
toy_digest bytes = replicate 32 (length bytes)

abbrev pub firmware : List ℕ
firmware = 1 ∷ 2 ∷ 3 ∷ []

abbrev fill_file : Board → List Round → Board
fill_file w [] = w
fill_file w (round ∷ rounds) =
    fill_file (record w { staged = w.staged ++ or_empty round.received }) rounds

abbrev pub board : OtaWorld Board
board = record {
  perform = drop_file;
  millis = λ w. 0;
  http_begin = λ w url. (true, w);
  http_get = λ w. (code 200, w);
  http_size = λ w. some 3;
  http_rounds = λ w.
      record { now = 100; received = some (1 ∷ 2 ∷ []); written = true }
      ∷ record { now = 200; received = some (3 ∷ []); written = true }
      ∷ [];
  received = fill_file;
  spiffs_begin = λ w. (true, w);
  free_storage = λ w. 1000;
  open_write = λ w path. (true, if text_eq path staging_path then record w { staged = [] } else w);
  file_size = λ w path. some (length (content w path));
  file_read = λ w path offset n. (take n (drop offset (content w path)), w);
  file_append = λ w path bytes. (true, w);
  sha_starts = λ w. (true, w);
  sha_update = λ w bytes. (true, w);
  sha_finish = λ w. (true, w);
  sha256 = toy_digest;
  update_begin = λ w n. (true, w);
  update_write = λ w path. (3, w);
  update_end = λ w. (true, w);
  update_has_error = λ w. false;
  update_error = λ w. [];
  target_connect = λ w. (true, w);
  dap_error = λ w. [];
  select = λ w. (true, w);
  flash_size = λ w. 65536;
  dap_read_block = λ w address n. (some (block w.cells address n), w);
  program_flash = λ w address bytes. (true, record w { cells = program w.cells address bytes });
}

take-length_take : (n : ℕ) (xs : List ℕ) → take n xs ≡ take (length (take n xs)) xs
take-length_take zero xs = refl
take-length_take (suc n) [] = refl
take-length_take (suc n) (x ∷ xs) = ap (λ l. x ∷ l) (take-length_take n xs)

get_elem?-block :
    (cells : ℕ → ℕ) (n address i : ℕ)
    → i < n
    → get_elem? (block cells address n) i ≡ some (cells (address + i))
get_elem?-block cells zero address i h = absurd (omega arith)
get_elem?-block cells (suc n) address zero h = ap (λ k. some (cells k)) (omega arith)
get_elem?-block cells (suc n) address (suc i) h =
    let next : address + 1 + i ≡ address + suc i = omega arith in
    get_elem?-block cells n (address + 1) i (omega arith) ∙ ap (λ k. some (cells k)) next

board-read_block :
    (w : Board) (address n : ℕ) (bytes : List ℕ) (i : ℕ)
    → (board.dap_read_block w address n).0 ≡ some bytes
    → i < n
    → get_elem? bytes i ≡ some (flash w (address + i))
board-read_block w address n bytes i found lt =
    let same : block w.cells address n ≡ bytes = cc in
    ap (λ l. get_elem? l i) (sym same) ∙ get_elem?-block w.cells n address i lt

board-perform :
    (w : Board) (a : Action)
    → spares_file a ≡ true
    → content (board.perform w a) staging_path ≡ content w staging_path
board-perform w (remove path) h = ground arith
board-perform w _ h = refl

board-flash : (w : Board) (a : Action) → spares_flash a ≡ true → flash (board.perform w a) ≡ flash w
board-flash w (remove path) h = ground arith
board-flash w _ h = refl

board-IsMemory : IsMemory board content flash
board-IsMemory = record {
  size = λ w path n found. ground arith;
  read = λ w path offset n. take-length_take n (drop offset (content w path));
  block = board-read_block;
  read_content = λ w path offset n other. refl;
  read_flash = λ w path offset n. refl;
  block_content = λ w address n other. refl;
  block_flash = λ w address n. refl;
  starts_content = λ w other. refl;
  update_content = λ w bytes other. refl;
}

pub board-IsDevice : IsDevice board content flash
board-IsDevice = record {
  memory = board-IsMemory;
  keeps = record {
    perform = board-perform;
    open_write = λ w path other. rw other refl;
    append = λ w path bytes other. refl;
    read = λ w path offset n. refl;
    starts = λ w. refl;
    update = λ w bytes. refl;
    finish = λ w. refl;
    connect = λ w. refl;
    select = λ w. refl;
    block = λ w address n. refl;
    program = λ w address bytes. refl;
  };
  perform = board-flash;
}

-- Keys that are their own texts, and signatures that are the first bytes of a manifest.
abbrev pub toy_tls : MbedTls Text
toy_tls = record {
  base64_decode = λ s. some s;
  parse_public_key = λ pem. some pem;
  can_do_ecdsa = λ k. true;
  curve = λ k. some 3;
  secp256r1 = 3;
  sha256 = λ m. some (take 8 m);
  verify = λ k hash signature. text_eq hash signature;
}

abbrev pub started : OtaState Board
started = record {
  world = record { staged = []; cells = λ i. 0xff };
  trace = [];
  download_closed = false;
  acceptance_pending = false;
}

abbrev pub arguments : FirmwareArguments
arguments = record {
  target = codes "stm32";
  url = codes "https://example.com/firmware.bin";
  sha256 = bytes_to_hex (toy_digest firmware);
  signature_algorithm = codes "ecdsa-p256-sha256";
  signature_key_id = codes "k2";
  signature_value = codes "NIVALO-F";
  size_bytes = some 3;
}

abbrev pub recovery : RecoveryConfig
recovery = record {
  golden_image_path = codes "/golden.bin";
  golden_image_size = 2;
  golden_image_sha256 = bytes_to_hex (toy_digest golden);
  preserve_known_good = false;
  known_good_size = 0;
}
