-- ===== src/Transport/Corruption.antt =====
-- A frame with a wrong byte is refused.
use nivalo_esp.Crc.{crc32, crc_start, finish_crc32}
use nivalo_esp.Crc.Detection.{
  IsBytes, crc32-append, crc32-lt, crc32_detects, finish_crc32_injective,
}
use nivalo_esp.Transport.{
  Transport, ReceivedFrame, parse_bytes, frame_crc, header_copy, read_le16, read_le32,
}
use nivalo_esp.Common.{
  ℕ, ◌<◌, ◌≡◌, ◌≢◌, ap, sym, ◌∙◌, Bool-cases, inl, inr, true, false, arith, List, [], ◌∷◌, ◌++◌,
  drop, take,
}

-- The bytes that the checksum covers.
abbrev pub covered : List ℕ → List ℕ
covered frame = header_copy frame ++ take (read_le16 frame 10) (drop 24 frame)

frame_crc-covered :
    (frame : List ℕ)
    → frame_crc frame (read_le16 frame 10) ≡ finish_crc32 (crc32 (covered frame) crc_start)
unfolding frame_crc
frame_crc-covered frame =
    ap finish_crc32
      (sym (crc32-append (header_copy frame) (take (read_le16 frame 10) (drop 24 frame)) crc_start))

IsBytes-append_cons :
    (before after : List ℕ) (x : ℕ)
    → IsBytes before
    → IsBytes after
    → x < 256
    → IsBytes (before ++ x ∷ after)
IsBytes-append_cons [] after x hb ha h = (h, ha)
IsBytes-append_cons (b ∷ before) after x hb ha h =
    (hb.0, IsBytes-append_cons before after x hb.1 ha h)

-- What an accepted frame has stored.
accepted_checksum :
    (t : Transport) (received : ReceivedFrame) (frame : List ℕ) (offset : ℕ)
    → (parse_bytes t received frame offset).0 ≡ true
    → frame_crc frame (read_le16 frame 10) ≡ read_le32 frame 16
unfolding parse_bytes
accepted_checksum t received frame offset h = ground arith

module _ (t u : Transport) (received other : ReceivedFrame) (frame corrupted before after : List ℕ)
    (offset x y : ℕ) where
  -- Let two frames store the same checksum, and let the bytes that it covers, the header and the
  -- payload of the length in the header, be bytes that differ in exactly one place. If the one is accepted, the
  -- other is not.
  pub corruption_detected :
      read_le32 frame 16 ≡ read_le32 corrupted 16
      → covered frame ≡ before ++ x ∷ after
      → covered corrupted ≡ before ++ y ∷ after
      → IsBytes before
      → IsBytes after
      → x < 256
      → y < 256
      → x ≢ y
      → (parse_bytes t received frame offset).0 ≡ true
      → (parse_bytes u other corrupted offset).0 ≡ false
  corruption_detected stored e e' hb ha hx hy ne ok =
      elim (Bool-cases (parse_bytes u other corrupted offset).0) [
        | inr refused ↦ refused
        | inl ok' ↦
            let bytes : IsBytes (before ++ x ∷ after) =
              IsBytes-append_cons before after x hb ha hx in
            let bytes' : IsBytes (before ++ y ∷ after) =
              IsBytes-append_cons before after y hb ha hy in
            let same : finish_crc32 (crc32 (before ++ x ∷ after) crc_start)
                ≡ finish_crc32 (crc32 (before ++ y ∷ after) crc_start) =
              ap (λ c. finish_crc32 (crc32 c crc_start)) (sym e)
              ∙ sym (frame_crc-covered frame)
              ∙ accepted_checksum t received frame offset ok
              ∙ stored
              ∙ sym (accepted_checksum u other corrupted offset ok')
              ∙ frame_crc-covered corrupted
              ∙ ap (λ c. finish_crc32 (crc32 c crc_start)) e' in
            absurd (
              crc32_detects before after crc_start x y hb ha (omega arith) hx hy ne (
                finish_crc32_injective _ _
                  (crc32-lt (before ++ x ∷ after) crc_start bytes (omega arith))
                  (crc32-lt (before ++ y ∷ after) crc_start bytes' (omega arith)) same))
      ]
