-- ===== src/Ota/ReadBack.antt =====
-- src/NivaloDeviceOta.cpp: what a read-back of the flash of the secondary MCU, and a checksum of a file,
-- say about them.
use nivalo_esp.Ota.{OtaWorld}
use nivalo_esp.Ota.Files.{
  flash_start_address, chunk_size, chunks, has_size, verify_loop, verify_stm32_against_file,
}
use native.Mathlib.Decide.{dec_lt}
use nivalo_esp.Common.{
  ℕ, zero, suc, ◌+◌, ◌-◌, ◌≤◌, ◌<◌, ◌≡◌, inl, inr, refl, sym, ap, ap₂, ◌∙◌, true, ◌&&◌, arith, List,
  [], ◌∷◌, some, min, length, get_elem?, take, drop, ◌==◌, is_some, Option-cases, Text, text_eq,
  text_eq_iff, or_empty,
}

-- What is asked of the file system and the programmer: a file has bytes and the flash has cells, a read
-- that gives as many bytes as were asked for gives those of the file, a shorter one gives the first ones,
-- a block that was read is that of the flash, and reading and hashing change neither.
pub record IsMemory {W : Type 0} (io : OtaWorld W) (content : W → Text → List ℕ) (flash : W → ℕ → ℕ)
    : Type 0 where
  pub size :
      (w : W) (path : Text) (n : ℕ) → io.file_size w path ≡ some n → length (content w path) ≡ n
  pub read :
      (w : W) (path : Text) (offset n : ℕ)
      → (io.file_read w path offset n).0
        ≡ take (length (io.file_read w path offset n).0) (drop offset (content w path))
  pub block :
      (w : W) (address n : ℕ) (bytes : List ℕ) (i : ℕ)
      → (io.dap_read_block w address n).0 ≡ some bytes
      → i < n
      → get_elem? bytes i ≡ some (flash w (address + i))
  pub read_content :
      (w : W) (path : Text) (offset n : ℕ) (other : Text)
      → content (io.file_read w path offset n).1 other ≡ content w other
  pub read_flash :
      (w : W) (path : Text) (offset n : ℕ) → flash (io.file_read w path offset n).1 ≡ flash w
  pub block_content :
      (w : W) (address n : ℕ) (other : Text)
      → content (io.dap_read_block w address n).1 other ≡ content w other
  pub block_flash : (w : W) (address n : ℕ) → flash (io.dap_read_block w address n).1 ≡ flash w
  pub starts_content : (w : W) (other : Text) → content (io.sha_starts w).1 other ≡ content w other
  pub update_content :
      (w : W) (bytes : List ℕ) (other : Text)
      → content (io.sha_update w bytes).1 other ≡ content w other

get_elem?-take :
    {A : Type 0} (n : ℕ) (xs : List A) (i : ℕ) → i < n → get_elem? (take n xs) i ≡ get_elem? xs i
get_elem?-take zero xs i h = absurd (omega arith)
get_elem?-take (suc n) [] i h = refl
get_elem?-take (suc n) (x ∷ xs) zero h = refl
get_elem?-take (suc n) (x ∷ xs) (suc i) h = get_elem?-take n xs i (omega arith)

get_elem?-drop :
    {A : Type 0} (n : ℕ) (xs : List A) (i : ℕ) → get_elem? (drop n xs) i ≡ get_elem? xs (n + i)
get_elem?-drop zero xs i = ap (get_elem? xs) (omega arith)
get_elem?-drop (suc n) [] i = refl
get_elem?-drop (suc n) (x ∷ xs) i =
    let next : suc n + i ≡ suc (n + i) = omega arith in
    get_elem?-drop n xs i ∙ ap (get_elem? (x ∷ xs)) (sym next)

-- The cells of the flash from its start hold the bytes of an image.
abbrev pub Holds : (ℕ → ℕ) → List ℕ → Type 0
Holds cells image =
    (i : ℕ) → i < length image → get_elem? image i ≡ some (cells (flash_start_address + i))

module _ {W : Type 0} (io : OtaWorld W) (content : W → Text → List ℕ) (flash : W → ℕ → ℕ)
    (memory : IsMemory io content flash) where
  -- The part of a chunk that both sides have.
  chunk_holds :
      (w : W) (path : Text) (offset count i : ℕ) (bytes : List ℕ)
      → let (expected, w1) = io.file_read w path offset count in
        length expected ≡ count
        → (io.dap_read_block w1 (flash_start_address + offset) count).0 ≡ some bytes
        → expected ≡ bytes
        → i < count
        → get_elem? (content w path) (offset + i)
          ≡ some (flash w (flash_start_address + (offset + i)))
  chunk_holds w path offset count i bytes len found same lt =
      let (expected, w1) = io.file_read w path offset count in
      let cell = memory.block w1 (flash_start_address + offset) count bytes i found lt in
      let bytes_there : get_elem? expected i ≡ get_elem? (content w path) (offset + i) =
        ap (λ l. get_elem? l i) (memory.read w path offset count)
        ∙ get_elem?-take (length expected) (drop offset (content w path)) i (omega arith)
        ∙ get_elem?-drop offset (content w path) i in
      let place : flash_start_address + offset + i ≡ flash_start_address + (offset + i) =
        omega arith in
      sym bytes_there
      ∙ ap (λ l. get_elem? l i) same
      ∙ cell
      ∙ ap₂ (λ (f : ℕ → ℕ) k. some (f k)) (memory.read_flash w path offset count) place

  -- A round that goes on has read the same bytes from the file and from the flash.
  record IsSame (path : Text) (size offset : ℕ) (n : ℕ) (w : W) : Type 0 where
    bytes : List ℕ
    long :
        length (io.file_read w path offset (min chunk_size (size - offset))).0
        ≡ min chunk_size (size - offset)
    found :
        (io.dap_read_block
          (io.file_read w path offset (min chunk_size (size - offset))).1
          (flash_start_address + offset)
          (min chunk_size (size - offset))).0
        ≡ some bytes
    same : (io.file_read w path offset (min chunk_size (size - offset))).0 ≡ bytes
    later :
        (verify_loop io n path size
          (offset + min chunk_size (size - offset))
          (io.dap_read_block
            (io.file_read w path offset (min chunk_size (size - offset))).1
            (flash_start_address + offset)
            (min chunk_size (size - offset))).1).0
        ≡ true

  verify_loop-IsSame :
      (n : ℕ) (path : Text) (size offset : ℕ) (w : W)
      → offset < size
      → (verify_loop io (suc n) path size offset w).0 ≡ true
      → IsSame path size offset n w
  unfolding verify_loop
  verify_loop-IsSame n path size offset w lt h =
      let count = min chunk_size (size - offset) in
      let (expected, w1) = io.file_read w path offset count in
      let (actual, w2) = io.dap_read_block w1 (flash_start_address + offset) count in
      let long : length expected ≡ count = ground arith in
      let later : (verify_loop io n path size (offset + count) w2).0 ≡ true = ground arith in
      let both : (is_some actual && text_eq expected (or_empty actual)) ≡ true = ground arith in
      elim (Option-cases actual) [
        | inl missing ↦ absurd (let e = ap is_some missing in ground arith)
        | inr (bytes, found) ↦ record {
          bytes = bytes;
          long = long;
          found = found;
          same =
              (text_eq_iff expected bytes).0 (
                let e = ap (λ a. is_some a && text_eq expected (or_empty a)) found in sym e ∙ both);
          later = later;
        }
      ]

  verify_loop-holds :
      (n : ℕ) (path : Text) (size offset : ℕ) (w : W)
      → (verify_loop io n path size offset w).0 ≡ true
      → (i : ℕ) → offset ≤ i
      → i < size
      → get_elem? (content w path) i ≡ some (flash w (flash_start_address + i))
  verify_loop-holds zero path size offset w h i le lt =
      let e : (offset == size) ≡ true = unfold verify_loop in h in absurd (ground arith)
  verify_loop-holds (suc n) path size offset w h i le lt =
      let r = verify_loop-IsSame n path size offset w (omega arith) h in
      let count = min chunk_size (size - offset) in
      let w1 = (io.file_read w path offset count).1 in
      let w2 = (io.dap_read_block w1 (flash_start_address + offset) count).1 in
      elim (dec_lt i (offset + count)) [
        | yes now ↦
            let place : offset + (i - offset) ≡ i = omega arith in
            ap (get_elem? (content w path)) (sym place)
            ∙ chunk_holds w path offset count (i - offset) r.bytes r.long r.found r.same
                (omega arith)
            ∙ ap (λ k. some (flash w (flash_start_address + k))) place
        | no later ↦
            ap (λ l. get_elem? l i)
              (sym (
                memory.block_content w1 (flash_start_address + offset) count path
                ∙ memory.read_content w path offset count path))
            ∙ verify_loop-holds n path size (offset + count) w2 r.later i (omega arith) lt
            ∙ ap (λ (f : ℕ → ℕ). some (f (flash_start_address + i)))
                (memory.block_flash w1 (flash_start_address + offset) count
                  ∙ memory.read_flash w path offset count)
      ]

  -- A read-back that succeeds has found the bytes of the file in the flash.
  pub verify-Holds :
      (path : Text) (size : ℕ) (w : W)
      → (verify_stm32_against_file io path size w).0 ≡ true
      → (length (content w path) ≡ size) × Holds (flash w) (content w path)
  unfolding verify_stm32_against_file has_size
  verify-Holds path size w h = elim (Option-cases (io.file_size w path)) [
    | inl missing ↦ absurd (ground arith)
    | inr (n, found) ↦
        let same : n ≡ size = ground arith in
        let all : (verify_loop io (chunks chunk_size size) path size 0 w).0 ≡ true = ground arith in
        let long = memory.size w path n found ∙ same in
        (
          long,
          λ i lt.
              verify_loop-holds (chunks chunk_size size) path size 0 w all i (omega arith)
                (omega arith),
        )
  ]

  verify_loop-flash :
      (n : ℕ) (path : Text) (size offset : ℕ) (w : W)
      → flash (verify_loop io n path size offset w).1 ≡ flash w
  unfolding verify_loop
  verify_loop-flash zero path size offset w = refl
  verify_loop-flash (suc n) path size offset w =
      let count = min chunk_size (size - offset) in
      let w1 = (io.file_read w path offset count).1 in
      let w2 = (io.dap_read_block w1 (flash_start_address + offset) count).1 in
      ground (
        arith,
        memory.read_flash w path offset count,
        memory.block_flash w1 (flash_start_address + offset) count,
        verify_loop-flash n path size (offset + count) w2,
      )

  pub verify-flash :
      (path : Text) (size : ℕ) (w : W)
      → flash (verify_stm32_against_file io path size w).1 ≡ flash w
  unfolding verify_stm32_against_file
  verify-flash path size w = grind (arith, verify_loop-flash)
