-- ===== src/Transport.antt =====
-- src/NivaloLinkSpiTransport.{h,cpp}: frames of 1024 bytes exchanged with the secondary MCU.
-- The SPI bus is not modelled: the bytes that it clocks in are an argument of `exchange`. A
-- `received` pointer is never null in this program; its frame is returned.
pub mod Fields
pub mod RoundTrip
pub mod Corruption
mod Tests
use Prim.Native.Nat.{bit_and, bit_or}
use nivalo_esp.Crc.{crc32, crc_start, finish_crc32}
use nivalo_esp.ReceiveSequence.{ReceiveSequence, observe, acknowledgment}
use nivalo_esp.ReceiveSequence
use nivalo_esp.Common.{
  ℕ, zero, suc, ◌+◌, ◌*◌, ◌/◌, ◌^◌, Bool, true, false, not, ◌||◌, List, [], ◌∷◌, Option, none,
  length, get_or, take, drop, replicate, ltb, ◌==◌, if◌then◌else◌, u8, u16, Text, codes, or_empty,
}

abbrev pub frame_size : ℕ
frame_size = 1024

abbrev pub header_size : ℕ
header_size = 24

abbrev pub max_payload : ℕ
max_payload = 1000

abbrev pub link_version : ℕ
link_version = 1

-- The members of `NivaloLinkFrameType` that this file names.
abbrev pub frame_idle : ℕ
frame_idle = 0x00

abbrev pub frame_poll : ℕ
frame_poll = 0x02

-- The payload stands for `payload[0..payloadLength)`; a zero follows it.
pub record ReceivedFrame : Type 0 where
  pub valid : Bool
  pub duplicate : Bool
  pub type : ℕ
  pub seq : ℕ
  pub ack : ℕ
  pub payload_length : ℕ
  pub payload : List ℕ

pub record Transport : Type 0 where
  pub started : Bool
  pub paused : Bool
  pub next_seq : ℕ
  pub receive_sequence : ReceiveSequence
  pub last_error : Text
  pub tx_frame : List ℕ
  pub rx_frame : List ℕ

-- `memcpy(&buffer[offset], bytes, …)`; nothing is written past the end.
abbrev pub write_at : List ℕ → ℕ → List ℕ → List ℕ
write_at xs zero [] = xs
write_at [] zero (b ∷ bytes) = []
write_at (x ∷ xs) zero (b ∷ bytes) = b ∷ write_at xs zero bytes
write_at [] (suc offset) bytes = []
write_at (x ∷ xs) (suc offset) bytes = x ∷ write_at xs offset bytes

pub write_le16 : List ℕ → ℕ → ℕ → List ℕ
write_le16 buffer offset value =
    write_at buffer offset (u8 (bit_and value 0xFF) ∷ u8 (value / 2 ^ 8) ∷ [])

pub write_le32 : List ℕ → ℕ → ℕ → List ℕ
write_le32 buffer offset value = write_at buffer offset (
    u8 (bit_and value 0xFF)
    ∷ u8 (bit_and (value / 2 ^ 8) 0xFF)
    ∷ u8 (bit_and (value / 2 ^ 16) 0xFF)
    ∷ u8 (bit_and (value / 2 ^ 24) 0xFF)
    ∷ [])

pub read_le16 : List ℕ → ℕ → ℕ
read_le16 buffer offset = bit_or (get_or buffer offset 0) (get_or buffer (offset + 1) 0 * 2 ^ 8)

pub read_le32 : List ℕ → ℕ → ℕ
read_le32 buffer offset =
    bit_or
      (bit_or (bit_or (get_or buffer offset 0) (get_or buffer (offset + 1) 0 * 2 ^ 8))
        (get_or buffer (offset + 2) 0 * 2 ^ 16))
      (get_or buffer (offset + 3) 0 * 2 ^ 24)

-- The header is written field by field, then the payload, then the checksum over both, for which
-- its own field is zero.
fill_zeroed : List ℕ → ℕ → ℕ → ℕ → List ℕ → List ℕ
unfolding write_le16 write_le32
fill_zeroed zeroed type seq ack payload =
    let magic = write_at zeroed 0 (b'M' ∷ b'L' ∷ link_version ∷ type ∷ 0 ∷ header_size ∷ []) in
    let with_seq = write_le16 magic 6 seq in
    let with_ack = write_le16 with_seq 8 ack in
    let with_length = write_le16 with_ack 10 (u16 (length payload)) in
    let with_reserved = write_le16 with_length 12 0 in
    let without_crc = write_at (write_le32 with_reserved 16 0) 20 (0 ∷ 0 ∷ 0 ∷ 0 ∷ []) in
    let with_payload = write_at without_crc header_size payload in
    let crc = crc32 (take header_size with_payload) crc_start in
    let crc' = crc32 (take (length payload) (drop header_size with_payload)) crc in
    write_le32 with_payload 16 (finish_crc32 crc')

pub fill_frame : ℕ → ℕ → ℕ → List ℕ → List ℕ
unfolding fill_zeroed
fill_frame type seq ack payload = fill_zeroed (replicate frame_size 0) type seq ack payload

pub build_frame : Transport → ℕ → Option Text → Transport
build_frame t type json_payload = record t {
  tx_frame = fill_frame type t.next_seq (acknowledgment t.receive_sequence) (or_empty json_payload);
  next_seq = u16 (t.next_seq + 1);
}

-- What a parser returns: success, the received frame and the transport.
abbrev pub Parsed : Type 0
Parsed = Bool × ReceivedFrame × Transport

abbrev rejected : Transport → ReceivedFrame → Text → Parsed
rejected t received message = (false, received, record t { last_error = message })

-- `headerCopy`, with its checksum field zeroed.
pub header_copy : List ℕ → List ℕ
unfolding write_le32
header_copy frame = write_le32 (take header_size frame) 16 0

pub frame_crc : List ℕ → ℕ → ℕ
unfolding header_copy
frame_crc frame payload_length =
    finish_crc32
      (crc32 (take payload_length (drop header_size frame)) (crc32 (header_copy frame) crc_start))

-- The end of `parseFrameAt`, for a frame that has passed every test.
accept_frame : Transport → ReceivedFrame → List ℕ → ℕ → Parsed
accept_frame t received frame payload_length =
    let seq = read_le16 frame 6 in
    let (fresh, sequence) = observe t.receive_sequence seq in
    (
      true,
      record {
        valid = true;
        duplicate = not fresh;
        type = get_or frame 3 0;
        seq = seq;
        ack = read_le16 frame 8;
        payload_length = payload_length;
        payload = take payload_length (drop header_size frame);
      },
      record t { receive_sequence = sequence; last_error = [] },
    )

-- `parseFrameAt` on the bytes from the offset on. Its first guard, that a header fits at the
-- offset, always holds, since it is called at the offsets 0 and 1 only.
pub parse_bytes : Transport → ReceivedFrame → List ℕ → ℕ → Parsed
unfolding frame_crc accept_frame
parse_bytes t received frame frame_offset =
    let payload_length = read_le16 frame 10 in
    if not (get_or frame 0 0 == b'M') || not (get_or frame 1 0 == b'L')
    then rejected t received (codes "bad magic")
    else (if not (get_or frame 2 0 == link_version)
        then rejected t received (codes "unsupported version")
        else (if not (get_or frame 5 0 == header_size)
            then rejected t received (codes "bad header length")
            else (if ltb max_payload payload_length
                  || ltb frame_size (frame_offset + header_size + payload_length)
                then rejected t received (codes "bad payload length")
                else (if not (frame_crc frame payload_length == read_le32 frame 16)
                    then rejected t received (codes "bad crc")
                    else accept_frame t received frame payload_length))))

pub parse_frame_at : Transport → ReceivedFrame → ℕ → Parsed
parse_frame_at t received frame_offset =
    if ltb frame_size (frame_offset + header_size)
    then (false, received, t)
    else parse_bytes t received (drop frame_offset t.rx_frame) frame_offset

pub parse_frame : Transport → ReceivedFrame → Parsed
parse_frame t received =
    let cleared = record received { valid = false; duplicate = false; payload = [] } in
    let (ok, received', t') = parse_frame_at t cleared 0 in
    if ok
    then (true, received', t')
    else (if get_or t'.rx_frame 0 0 == 0
        then parse_frame_at t' received' 1
        else (false, received', t'))

abbrev pub empty_frame : ReceivedFrame
empty_frame = record {
  valid = false;
  duplicate = false;
  type = frame_idle;
  seq = 0;
  ack = 0;
  payload_length = 0;
  payload = [];
}

-- `wire` is what the bus clocks in.
unfoldable pub exchange : Transport → ℕ → Option Text → List ℕ → Bool × ReceivedFrame × Transport
exchange t type json_payload wire =
    if not t.started
    then (false, empty_frame, record t { last_error = codes "nivalolink spi not started" })
    else (if t.paused
        then (false, empty_frame, record t { last_error = codes "nivalolink spi paused" })
        else (if ltb max_payload (length (or_empty json_payload))
            then (
              false,
              empty_frame,
              record t { last_error = codes "nivalolink payload too large" },
            )
            else (let sent = record (build_frame t type json_payload) { rx_frame = wire } in
                let (ok, received, t') = parse_frame sent empty_frame in (true, received, t'))))

pub poll : Transport → List ℕ → Bool × ReceivedFrame × Transport
poll t wire = exchange t frame_poll none wire

-- `begin`; the pins and the bus are left out.
pub begin : Transport → Transport
begin t = record t {
  tx_frame = replicate frame_size 0;
  rx_frame = replicate frame_size 0;
  receive_sequence = ReceiveSequence.reset;
  started = true;
  paused = false;
  last_error = [];
}

pub set_paused : Transport → Bool → Transport
set_paused t paused = record t { paused = paused }
