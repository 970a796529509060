-- ===== src/Crc.antt =====
-- The checksum of src/NivaloLinkSpiTransport.cpp: `crc32` and `finishCrc32`.
pub mod Detection
mod Tests
use Prim.Native.Nat.{bit_and, bit_xor}
use nivalo_esp.Common.{ℕ, zero, suc, ◌/◌, ◌-◌, ◌^◌, List, [], ◌∷◌, u32}

-- One round of the inner loop: `mask` is 0 or all ones.
crc_bit : ℕ → ℕ
crc_bit crc = let mask = u32 (2 ^ 32 - bit_and crc 1) in bit_xor (crc / 2) (bit_and 0xEDB88320 mask)

crc_bits : ℕ → ℕ → ℕ
unfolding crc_bit
crc_bits zero crc = crc
crc_bits (suc bits) crc = crc_bits bits (crc_bit crc)

crc_byte : ℕ → ℕ → ℕ
unfolding crc_bits
crc_byte crc byte = crc_bits 8 (bit_xor crc byte)

-- The bytes `data[0..length)`, from the checksum so far.
pub crc32 : List ℕ → ℕ → ℕ
unfolding crc_byte
crc32 [] crc = crc
crc32 (byte ∷ rest) crc = crc32 rest (crc_byte crc byte)

-- The default for the checksum so far.
abbrev pub crc_start : ℕ
crc_start = 0xFFFFFFFF

pub finish_crc32 : ℕ → ℕ
finish_crc32 crc = bit_xor crc 0xFFFFFFFF
