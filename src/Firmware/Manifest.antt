-- ===== src/Firmware/Manifest.antt =====
-- A manifest is read back: it determines the target, the size and the digest.
use native.Mathlib.Decide.{dec_lt}
use native.Mathlib.Nat.{pow-suc}
use nivalo_esp.Firmware.{is_canonical_sha256, decimal, manifest_text, build_firmware_manifest}
use nivalo_esp.Common.{
  take-length_append, ℕ, zero, suc, ◌+◌, ◌*◌, ◌/◌, ◌%◌, ◌-◌, ◌^◌, ◌≤◌, ◌<◌, ◌≡◌, inl, inr, refl, ap,
  ap₂, subst, ◌∙◌, Bool, true, false, not, ◌||◌, arith, [], ◌∷◌, ◌++◌, Option, none, some, length,
  take, drop, all, ◌==◌, if◌then◌else◌, Bool-cases, Text, codes, text_eq, text_eq_iff, or_empty,
}

-- The number before the next newline, and what follows it.
abbrev pub read_number : ℕ → Text → ℕ × Text
read_number value [] = (value, [])
read_number value (c ∷ rest) =
    let more = read_number (value * 10 + (c - b'0')) rest in
    if c == b'\n' then (value, rest) else more

abbrev pub read_manifest : Text → Text × (ℕ × Text)
read_manifest manifest =
    let body = drop 29 manifest in
    let (size, rest) = read_number 0 (drop 6 body) in (take 5 body, (size, take 64 rest))

abbrev digits_value : ℕ → Text → ℕ
digits_value value [] = value
digits_value value (c ∷ rest) = digits_value (value * 10 + (c - b'0')) rest

abbrev no_newline : Text → Bool
no_newline = all (λ c. not (c == b'\n'))

read_number-append :
    (value : ℕ) (digits rest : Text)
    → no_newline digits ≡ true
    → read_number value (digits ++ b'\n' ∷ rest) ≡ (digits_value value digits, rest)
read_number-append value [] rest h = refl
read_number-append value (c ∷ digits) rest h =
    ground (arith, read_number-append (value * 10 + (c - b'0')) digits rest)

digits_value-append :
    (value c : ℕ) (digits : Text)
    → digits_value value (digits ++ c ∷ []) ≡ digits_value value digits * 10 + (c - b'0')
digits_value-append value c [] = refl
digits_value-append value c (d ∷ digits) = digits_value-append (value * 10 + (d - b'0')) c digits

no_newline-append :
    (c : ℕ) (digits : Text)
    → no_newline digits ≡ true
    → (c == b'\n') ≡ false
    → no_newline (digits ++ c ∷ []) ≡ true
no_newline-append c [] h k = ground arith
no_newline-append c (d ∷ digits) h k = ground (arith, no_newline-append c digits)

decimal_small : (n value : ℕ) → value < 10 → decimal (suc n) value ≡ (b'0' + value) ∷ []
unfolding decimal
decimal_small n value h = ground arith

decimal_large :
    (n value : ℕ)
    → 10 ≤ value
    → decimal (suc n) value ≡ decimal n (value / 10) ++ (b'0' + value % 10) ∷ []
unfolding decimal
decimal_large n value h = ground arith

no_newline-decimal : (n value : ℕ) → no_newline (decimal n value) ≡ true
no_newline-decimal zero value = unfold decimal in refl
no_newline-decimal (suc n) value = elim (dec_lt value 10) [
  | yes small ↦ rw (decimal_small n value small) (ground arith)
  | no large ↦ rw (decimal_large n value (omega arith)) (
      no_newline-append (b'0' + value % 10) (decimal n (value / 10))
        (no_newline-decimal n (value / 10)) (ground arith))
]

digits_value-decimal : (n value : ℕ) → value < 10 ^ n → digits_value 0 (decimal n value) ≡ value
digits_value-decimal zero value h = unfold decimal in omega arith
digits_value-decimal (suc n) value h = elim (dec_lt value 10) [
  | yes small ↦ rw (decimal_small n value small) (omega arith)
  | no large ↦
      let shorter : value / 10 < 10 ^ n = omega (arith, pow-suc 10 n) in
      rw
        (
          decimal_large n value (omega arith),
          digits_value-append 0 (b'0' + value % 10) (decimal n (value / 10)),
          digits_value-decimal n (value / 10) shorter,
        )
        (omega arith)
]

target_length :
    (t : Text) → (text_eq t (codes "esp32") || text_eq t (codes "stm32")) ≡ true → length t ≡ 5
target_length t h = elim (Bool-cases (text_eq t (codes "esp32"))) [
  | inl e ↦ ap length ((text_eq_iff t (codes "esp32")).0 e)
  | inr n ↦ ap length ((text_eq_iff t (codes "stm32")).0 (ground arith))
]

digest_length : (v : Option Text) → is_canonical_sha256 v ≡ true → length (or_empty v) ≡ 64
unfolding is_canonical_sha256
digest_length none h = absurd (ground arith)
digest_length (some v) h = ground arith

module _ (target : Option Text) (size_bytes : ℕ) (sha256 : Option Text) (capacity : ℕ)
    (manifest : Text) where
  build-inverted :
      build_firmware_manifest target size_bytes sha256 capacity ≡ some manifest
      → (manifest_text (or_empty target) size_bytes (or_empty sha256) ≡ manifest)
        × (((text_eq (or_empty target) (codes "esp32") || text_eq (or_empty target) (codes "stm32"))
              ≡ true)
            × (is_canonical_sha256 sha256 ≡ true))
  unfolding build_firmware_manifest
  build-inverted e = (ground arith, (ground arith, ground arith))

take-prefix : (n : ℕ) (xs ys : Text) → length xs ≡ n → take n (xs ++ ys) ≡ xs
take-prefix n xs ys h = subst (λ k. take k (xs ++ ys) ≡ xs) h (take-length_append xs ys)

drop-past :
    (n : ℕ) (xs : Text) (c : ℕ) (ys : Text) → length xs ≡ n → drop (suc n) (xs ++ c ∷ ys) ≡ ys
drop-past n [] c ys h = subst (λ k. drop (suc k) (c ∷ ys) ≡ ys) h refl
drop-past zero (x ∷ xs) c ys h = absurd (omega arith)
drop-past (suc n) (x ∷ xs) c ys h = drop-past n xs c ys (omega arith)

read-text :
    (target : Text) (size_bytes : ℕ) (sha256 : Text)
    → size_bytes < 2 ^ 32
    → length target ≡ 5
    → length sha256 ≡ 64
    → read_manifest (manifest_text target size_bytes sha256) ≡ (target, (size_bytes, sha256))
unfolding manifest_text
read-text target size_bytes sha256 h k l =
    let digits = decimal 10 size_bytes in
    let tail = sha256 ++ b'\n' ∷ [] in
    let read : read_number 0 (digits ++ b'\n' ∷ tail) ≡ (size_bytes, tail) =
      read_number-append 0 digits tail (no_newline-decimal 10 size_bytes)
      ∙ ap (λ n. (n, tail)) (digits_value-decimal 10 size_bytes (omega arith)) in
    ap₂ (λ t r. (t, ((read_number 0 r).0, take 64 (read_number 0 r).1)))
      (take-prefix 5 target (b'\n' ∷ (digits ++ b'\n' ∷ tail)) k)
      (drop-past 5 target b'\n' (digits ++ b'\n' ∷ tail) k)
    ∙ ap (λ (r : ℕ × Text). (target, (r.0, take 64 r.1))) read
    ∙ ap (λ t. (target, (size_bytes, t))) (take-prefix 64 sha256 (b'\n' ∷ []) l)

-- A manifest that is built is read back as the target, the size and the digest that it was built from,
-- for a size below 2 ^ 32.
pub read-build :
    (target : Option Text) (size_bytes : ℕ) (sha256 : Option Text) (capacity : ℕ) (manifest : Text)
    → size_bytes < 2 ^ 32
    → build_firmware_manifest target size_bytes sha256 capacity ≡ some manifest
    → read_manifest manifest ≡ (or_empty target, (size_bytes, or_empty sha256))
read-build target size_bytes sha256 capacity manifest h e =
    let (text, (known, canonical)) = build-inverted target size_bytes sha256 capacity manifest e in
    subst (λ m. read_manifest m ≡ (or_empty target, (size_bytes, or_empty sha256))) text
      (read-text (or_empty target) size_bytes (or_empty sha256) h
        (target_length (or_empty target) known) (digest_length sha256 canonical))
