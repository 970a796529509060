-- ===== src/Crc/Tests.antt =====
-- The theorem at a concrete input, and the check value of the checksum.
use nivalo_esp.Crc.{crc32, crc_bit, crc_bits, crc_byte, crc_start, finish_crc32}
use nivalo_esp.Common.{◌≡◌, refl, codes}

crc32_check_value : finish_crc32 (crc32 (codes "123456789") crc_start) ≡ 0xCBF43926
unfolding finish_crc32 crc32 crc_byte crc_bits crc_bit
crc32_check_value = refl
