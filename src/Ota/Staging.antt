-- ===== src/Ota/Staging.antt =====
-- src/NivaloDeviceOta.cpp: what the checksum of a file, and the check of a staged firmware, say.
use nivalo_esp.Ota.{OtaWorld}
use nivalo_esp.Ota.Files.{has_size, bytes_to_hex, hash_loop, compute_file_sha256}
use nivalo_esp.Ota.ReadBack.{IsMemory}
use nivalo_esp.Common.{
  take_all, ℕ, zero, suc, ◌+◌, ◌-◌, ◌≡◌, inl, inr, refl, sym, ap, ap₂, ◌∙◌, true, false, arith,
  List, [], ◌∷◌, ◌++◌, none, some, min, length, take, drop, all, ltb, ◌==◌, if◌then◌else◌,
  Bool-cases, Option-cases, Text,
}

take-nil : {A : Type 0} (n : ℕ) → take {A = A} n [] ≡ []
take-nil zero = refl
take-nil (suc n) = refl

take-add : {A : Type 0} (m n : ℕ) (xs : List A) → take (m + n) xs ≡ take m xs ++ take n (drop m xs)
take-add zero n xs = ap (λ k. take k xs) (omega arith)
take-add (suc m) n [] = take-nil (suc m + n) ∙ sym (take-nil n)
take-add (suc m) n (x ∷ xs) =
    let next : suc m + n ≡ suc (m + n) = omega arith in
    ap (λ k. take k (x ∷ xs)) next ∙ ap (λ l. x ∷ l) (take-add m n xs)

module _ {W : Type 0} (io : OtaWorld W) (content : W → Text → List ℕ) (flash : W → ℕ → ℕ)
    (memory : IsMemory io content flash) where
  whole_file :
      (size total : ℕ) (hashed bytes c : List ℕ)
      → length c ≡ size
      → hashed ≡ take total c
      → (if total == size then some hashed else none) ≡ some bytes
      → bytes ≡ c
  whole_file size total hashed bytes c long so_far h =
      let done : total ≡ size = ground arith in
      let same : bytes ≡ hashed = ground arith in same ∙ so_far ∙ take_all total c (omega arith)

  hash_loop-next :
      (n : ℕ) (path : Text) (size total : ℕ) (hashed : List ℕ) (w : W) (bytes : List ℕ)
      → ltb total size ≡ true
      → (hash_loop io (suc n) path size total hashed w).0 ≡ some bytes
      → let (read, w1) = io.file_read w path total (min 1024 (size - total)) in
        (hash_loop io n path size
          (total + length read)
          (hashed ++ read)
          (io.sha_update w1 read).1).0
        ≡ some bytes
  unfolding hash_loop
  hash_loop-next n path size total hashed w bytes more h = ground arith

  hash_loop-stopped :
      (n : ℕ) (path : Text) (size total : ℕ) (hashed : List ℕ) (w : W)
      → ltb total size ≡ false
      → (hash_loop io (suc n) path size total hashed w).0
        ≡ (if total == size then some hashed else none)
  unfolding hash_loop
  hash_loop-stopped n path size total hashed w stop = rw stop refl

  -- What a computed checksum was computed from.
  compute_file_sha256-parts :
      (path : Text) (size : ℕ) (w : W) (digest : Text)
      → (compute_file_sha256 io path size w).0 ≡ some digest
      → (bytes : List ℕ) × ((length (content w path) ≡ size)
          × (((hash_loop io size path size 0 [] (io.sha_starts w).1).0 ≡ some bytes)
              × (digest ≡ bytes_to_hex (io.sha256 bytes))))
  unfolding compute_file_sha256 has_size
  compute_file_sha256-parts path size w digest h =
      let hashed = (hash_loop io size path size 0 [] (io.sha_starts w).1).0 in
      elim (Option-cases (io.file_size w path)) [
        | inl missing ↦ absurd (ground arith)
        | inr (n, found) ↦ elim (Option-cases hashed) [
          | inl failed ↦ absurd (ground arith)
          | inr (bytes, all) ↦
              (bytes, (memory.size w path n found ∙ ground arith, (all, ground arith)))
        ]
      ]

  hash_loop-content :
      (n : ℕ) (path : Text) (size total : ℕ) (hashed : List ℕ) (w : W) (bytes : List ℕ)
      → length (content w path) ≡ size
      → hashed ≡ take total (content w path)
      → (hash_loop io n path size total hashed w).0 ≡ some bytes
      → bytes ≡ content w path
  hash_loop-content zero path size total hashed w bytes long so_far h =
      whole_file size total hashed bytes (content w path) long so_far (unfold hash_loop in h)
  hash_loop-content (suc n) path size total hashed w bytes long so_far h =
      elim (Bool-cases (ltb total size)) [
        | inl more ↦
            let asked = min 1024 (size - total) in
            let (read, w1) = io.file_read w path total asked in
            let w2 = (io.sha_update w1 read).1 in
            let kept : content w2 path ≡ content w path =
              memory.update_content w1 read path ∙ memory.read_content w path total asked path in
            let next : hashed ++ read ≡ take (total + length read) (content w path) =
              ap₂ (λ a b. a ++ b) so_far (memory.read w path total asked)
              ∙ sym (take-add total (length read) (content w path)) in
            hash_loop-content n path size (total + length read) (hashed ++ read) w2 bytes
              (ap length kept ∙ long) (next ∙ ap (take (total + length read)) (sym kept))
              (hash_loop-next n path size total hashed w bytes more h)
            ∙ kept
        | inr stop ↦
            whole_file size total hashed bytes (content w path) long so_far
              (sym (hash_loop-stopped n path size total hashed w stop) ∙ h)
      ]

  -- A checksum that was computed is that of the file's bytes.
  pub compute_file_sha256-content :
      (path : Text) (size : ℕ) (w : W) (digest : Text)
      → (compute_file_sha256 io path size w).0 ≡ some digest
      → (length (content w path) ≡ size) × (digest ≡ bytes_to_hex (io.sha256 (content w path)))
  compute_file_sha256-content path size w digest h =
      let (bytes, (started, (hashed, same))) = compute_file_sha256-parts path size w digest h in
      let w1 = (io.sha_starts w).1 in
      let kept = memory.starts_content w path in
      let whole =
        hash_loop-content size path size 0 [] w1 bytes (ap length kept ∙ started) refl hashed
        ∙ kept in
      (started, same ∙ ap (λ b. bytes_to_hex (io.sha256 b)) whole)
