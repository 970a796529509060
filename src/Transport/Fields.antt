-- ===== src/Transport/Fields.antt =====
-- The layout of a frame.
use Prim.Native.Nat.{bit_and}
use nivalo_esp.Common.Bits.{bit_and_mask, bit_or_fields}
use nivalo_esp.Crc.{crc32, crc_start, finish_crc32}
use nivalo_esp.Common.{take-length_append}
use nivalo_esp.Transport.{fill_zeroed, fill_frame, write_at, read_le16, read_le32}
use nivalo_esp.Common.{
  ℕ, zero, suc, ◌+◌, ◌*◌, ◌/◌, ◌%◌, ◌-◌, ◌^◌, ◌≤◌, ◌<◌, ◌≡◌, refl, ap, subst, arith, List, [], ◌∷◌,
  ◌++◌, length, get_or, replicate, u8, u16,
}

abbrev le16 : ℕ → List ℕ
le16 v = v % 2 ^ 8 ∷ v / 2 ^ 8 % 2 ^ 8 ∷ []

abbrev le32 : ℕ → List ℕ
le32 v = v % 2 ^ 8 ∷ v / 2 ^ 8 % 2 ^ 8 ∷ v / 2 ^ 16 % 2 ^ 8 ∷ v / 2 ^ 24 % 2 ^ 8 ∷ []

abbrev pub header : ℕ → ℕ → ℕ → ℕ → ℕ → List ℕ
header type seq ack len crc =
    b'M'
    ∷ b'L'
    ∷ 1
    ∷ type
    ∷ 0
    ∷ 24
    ∷ (le16 seq ++ le16 ack ++ le16 len ++ (0 ∷ 0 ∷ 0 ∷ 0 ∷ []) ++ le32 crc ++ (0 ∷ 0 ∷ 0 ∷ 0 ∷ []))

byte_masked : (v : ℕ) → u8 (bit_and v 0xFF) ≡ v % 2 ^ 8
byte_masked v = omega (arith, bit_and_mask 8 v)

write_at-zeros :
    (n : ℕ) (bytes : List ℕ)
    → length bytes ≤ n
    → write_at (replicate n 0) 0 bytes ≡ bytes ++ replicate (n - length bytes) 0
write_at-zeros zero [] h = refl
write_at-zeros zero (b ∷ bytes) h = absurd (omega arith)
write_at-zeros (suc n) [] h = let same : suc n - 0 ≡ suc n = omega arith in rw same
write_at-zeros (suc n) (b ∷ bytes) h =
    let same : suc n - suc (length bytes) ≡ n - length bytes = omega arith in
    rw same (ap (◌∷◌ b) (write_at-zeros n bytes (omega arith)))

layout_zeroed :
    (rest : List ℕ) (type seq ack : ℕ) (payload zeros : List ℕ)
    → write_at rest 0 payload ≡ payload ++ zeros
    → fill_zeroed (replicate 24 0 ++ rest) type seq ack payload
      ≡ header type seq ack (u16 (length payload)) (
          finish_crc32
            (crc32 payload (crc32 (header type seq ack (u16 (length payload)) 0) crc_start)))
        ++ payload
        ++ zeros
unfolding fill_zeroed
layout_zeroed rest type seq ack payload zeros e =
    rw
      (
        e,
        byte_masked seq,
        byte_masked ack,
        byte_masked (u16 (length payload)),
        take-length_append payload zeros,
      )
      (simp byte_masked)

pub layout :
    (type seq ack : ℕ) (payload : List ℕ)
    → length payload ≤ 1000
    → fill_frame type seq ack payload
      ≡ header type seq ack
          (length payload)
          (finish_crc32 (crc32 payload (crc32 (header type seq ack (length payload) 0) crc_start)))
        ++ payload
        ++ replicate (1000 - length payload) 0
unfolding fill_frame
layout type seq ack payload h =
    let same : u16 (length payload) ≡ length payload = omega arith in
    subst
      (λ n.
        fill_frame type seq ack payload
        ≡ header type seq ack n
            (finish_crc32 (crc32 payload (crc32 (header type seq ack n 0) crc_start)))
          ++ payload
          ++ replicate (1000 - length payload) 0)
      same
      (layout_zeroed (replicate 1000 0) type seq ack payload (replicate (1000 - length payload) 0)
        (write_at-zeros 1000 payload h))

-- Two bytes read as a word, wherever they stand.
pub read_le16-le16 :
    (buffer : List ℕ) (offset v : ℕ)
    → v < 2 ^ 16
    → get_or buffer offset 0 ≡ v % 2 ^ 8
    → get_or buffer (offset + 1) 0 ≡ v / 2 ^ 8 % 2 ^ 8
    → read_le16 buffer offset ≡ v
unfolding read_le16
read_le16-le16 buffer offset v h e e' =
    rw (e, e', bit_or_fields 8 (v % 2 ^ 8) (v / 2 ^ 8 % 2 ^ 8) (omega arith)) (omega arith)

pub read_le32-le32 :
    (buffer : List ℕ) (offset v : ℕ)
    → v < 2 ^ 32
    → get_or buffer offset 0 ≡ v % 2 ^ 8
    → get_or buffer (offset + 1) 0 ≡ v / 2 ^ 8 % 2 ^ 8
    → get_or buffer (offset + 2) 0 ≡ v / 2 ^ 16 % 2 ^ 8
    → get_or buffer (offset + 3) 0 ≡ v / 2 ^ 24 % 2 ^ 8
    → read_le32 buffer offset ≡ v
unfolding read_le32
read_le32-le32 buffer offset v h e0 e1 e2 e3 =
    rw
      (
        e0,
        e1,
        e2,
        e3,
        bit_or_fields 8 (v % 2 ^ 8) (v / 2 ^ 8 % 2 ^ 8) (omega arith),
        bit_or_fields 16 (v % 2 ^ 8 + v / 2 ^ 8 % 2 ^ 8 * 2 ^ 8) (v / 2 ^ 16 % 2 ^ 8) (omega arith),
        bit_or_fields 24 (v % 2 ^ 8 + v / 2 ^ 8 % 2 ^ 8 * 2 ^ 8 + v / 2 ^ 16 % 2 ^ 8 * 2 ^ 16)
            (v / 2 ^ 24 % 2 ^ 8) (omega arith),
      )
      (omega arith)
