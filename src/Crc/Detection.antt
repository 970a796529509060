-- ===== src/Crc/Detection.antt =====
-- The checksum is a 32-bit word, and tells apart data that differ in one byte.
use Prim.Native.Nat.{bit_xor}
use native.Mathlib.Decide.{ℕ_discrete}
use nivalo_esp.Common.Bits.{
  bit_and_mask, bit_xor-lt, bit_xor_top, bit_xor_comm, bit_xor_injective, bit_xor-zero,
}
use nivalo_esp.Crc.{crc_bit, crc_bits, crc_byte, crc32, finish_crc32}
use nivalo_esp.Common.{
  refl, ℕ, zero, suc, ◌+◌, ◌/◌, ◌%◌, ◌^◌, ◌<◌, ◌≡◌, ◌≢◌, ◌∙◌, arith, List, [], ◌∷◌, ◌++◌, All,
}

abbrev pub IsBytes : List ℕ → Type 0
IsBytes = All λ b. b < 256

crc_bit_even : (c : ℕ) → c < 2 ^ 32 → c % 2 ≡ 0 → crc_bit c ≡ c / 2
unfolding crc_bit
crc_bit_even c h e = rw (bit_and_mask 1 c, e) (bit_xor-zero 31 (c / 2) (omega arith))

-- The polynomial has the top bit set.
crc_bit_odd : (c : ℕ) → c < 2 ^ 32 → c % 2 ≡ 1 → crc_bit c ≡ 2 ^ 31 + bit_xor (c / 2) 0x6DB88320
unfolding crc_bit
crc_bit_odd c h e =
    rw (bit_and_mask 1 c, e) (bit_xor_top 31 (c / 2) 0x6DB88320 (omega arith) (omega arith))

crc_bit-lt : (c : ℕ) → c < 2 ^ 32 → crc_bit c < 2 ^ 32
crc_bit-lt c h = elim (ℕ_discrete (c % 2) 0) [
  | yes e ↦ omega (arith, crc_bit_even c h e)
  | no ne ↦ omega (
    arith,
    crc_bit_odd c h (omega arith),
    bit_xor-lt 31 (c / 2) 0x6DB88320 (omega arith) (omega arith),
  )
]

crc_bit_injective : (c d : ℕ) → c < 2 ^ 32 → d < 2 ^ 32 → crc_bit c ≡ crc_bit d → c ≡ d
crc_bit_injective c d h k e = elim (ℕ_discrete (c % 2) 0) [
  | yes p ↦ elim (ℕ_discrete (d % 2) 0) [
    | yes q ↦ omega (arith, crc_bit_even c h p, crc_bit_even d k q)
    | no q ↦ omega (arith, crc_bit_even c h p, crc_bit_odd d k (omega arith))
  ]
  | no p ↦ elim (ℕ_discrete (d % 2) 0) [
    | yes q ↦ omega (arith, crc_bit_odd c h (omega arith), crc_bit_even d k q)
    | no q ↦
        let same : c / 2 ≡ d / 2 =
          bit_xor_injective 31 (c / 2) (d / 2) 0x6DB88320 (omega arith) (omega arith) (omega arith)
            (omega (arith, crc_bit_odd c h (omega arith), crc_bit_odd d k (omega arith))) in
        omega arith
  ]
]

crc_bits-lt : (n c : ℕ) → c < 2 ^ 32 → crc_bits n c < 2 ^ 32
unfolding crc_bits
crc_bits-lt zero c h = h
crc_bits-lt (suc n) c h = crc_bits-lt n (crc_bit c) (crc_bit-lt c h)

crc_bits_injective : (n c d : ℕ) → c < 2 ^ 32 → d < 2 ^ 32 → crc_bits n c ≡ crc_bits n d → c ≡ d
unfolding crc_bits
crc_bits_injective zero c d h k e = e
crc_bits_injective (suc n) c d h k e =
    crc_bit_injective c d h k
      (crc_bits_injective n (crc_bit c) (crc_bit d) (crc_bit-lt c h) (crc_bit-lt d k) e)

byte-lt : (b : ℕ) → b < 256 → b < 2 ^ 32
byte-lt b h = omega arith

crc_byte-lt : (c b : ℕ) → c < 2 ^ 32 → b < 256 → crc_byte c b < 2 ^ 32
unfolding crc_byte
crc_byte-lt c b h k = crc_bits-lt 8 (bit_xor c b) (bit_xor-lt 32 c b h (byte-lt b k))

pub crc32-lt : (bytes : List ℕ) (c : ℕ) → IsBytes bytes → c < 2 ^ 32 → crc32 bytes c < 2 ^ 32
unfolding crc32
crc32-lt [] c h k = k
crc32-lt (b ∷ bytes) c h k = crc32-lt bytes (crc_byte c b) h.1 (crc_byte-lt c b k h.0)

pub finish_crc32-lt : (c : ℕ) → c < 2 ^ 32 → finish_crc32 c < 2 ^ 32
unfolding finish_crc32
finish_crc32-lt c h = bit_xor-lt 32 c 0xFFFFFFFF h (omega arith)

-- Equal checksums of the same bytes come from equal checksums before.
crc32_injective :
    (bytes : List ℕ) (c d : ℕ)
    → IsBytes bytes
    → c < 2 ^ 32
    → d < 2 ^ 32
    → crc32 bytes c ≡ crc32 bytes d
    → c ≡ d
unfolding crc32
crc32_injective [] c d h k l e = e
crc32_injective (b ∷ bytes) c d h k l e = bit_xor_injective 32 c d b k l (byte-lt b h.0) (
    unfold crc_byte in
    crc_bits_injective 8 (bit_xor c b) (bit_xor d b) (bit_xor-lt 32 c b k (byte-lt b h.0))
      (bit_xor-lt 32 d b l (byte-lt b h.0))
      (crc32_injective bytes (crc_byte c b) (crc_byte d b) h.1 (crc_byte-lt c b k h.0)
        (crc_byte-lt d b l h.0) e))

crc_byte_injective :
    (c x y : ℕ) → c < 2 ^ 32 → x < 256 → y < 256 → crc_byte c x ≡ crc_byte c y → x ≡ y
unfolding crc_byte
crc_byte_injective c x y h k l e =
    let x' = byte-lt x k in
    let y' = byte-lt y l in
    bit_xor_injective 32 x y c x' y' h (
      bit_xor_comm 32 x c x' h
      ∙ crc_bits_injective 8 (bit_xor c x) (bit_xor c y) (bit_xor-lt 32 c x h x')
          (bit_xor-lt 32 c y h y') e
      ∙ bit_xor_comm 32 c y h y')

pub crc32-append : (xs ys : List ℕ) (c : ℕ) → crc32 (xs ++ ys) c ≡ crc32 ys (crc32 xs c)
unfolding crc32
crc32-append [] ys c = refl
crc32-append (x ∷ xs) ys c = crc32-append xs ys (crc_byte c x)

-- From the same 32-bit start, bytes that differ in exactly one place have different checksums.
pub crc32_detects :
    (before after : List ℕ) (c x y : ℕ)
    → IsBytes before
    → IsBytes after
    → c < 2 ^ 32
    → x < 256
    → y < 256
    → x ≢ y
    → crc32 (before ++ x ∷ after) c ≢ crc32 (before ++ y ∷ after) c
unfolding crc32
crc32_detects [] after c x y hb ha h k l ne e = ne (
    crc_byte_injective c x y h k l (
      crc32_injective after (crc_byte c x) (crc_byte c y) ha (crc_byte-lt c x h k)
        (crc_byte-lt c y h l) e))
crc32_detects (b ∷ before) after c x y hb ha h k l ne e =
    crc32_detects before after (crc_byte c b) x y hb.1 ha (crc_byte-lt c b h hb.0) k l ne e

pub finish_crc32_injective :
    (c d : ℕ) → c < 2 ^ 32 → d < 2 ^ 32 → finish_crc32 c ≡ finish_crc32 d → c ≡ d
unfolding finish_crc32
finish_crc32_injective c d h k e = bit_xor_injective 32 c d 0xFFFFFFFF h k (omega arith) e
