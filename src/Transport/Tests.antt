-- ===== src/Transport/Tests.antt =====
-- The theorems at concrete inputs.
use nivalo_esp.Transport.Fields.{header}
use nivalo_esp.ReceiveSequence.{acknowledgment}
use nivalo_esp.Transport.{
  read_le16, write_le32, header_copy, Transport, exchange, parse_frame, parse_bytes, empty_frame,
  read_le32,
}
use nivalo_esp.Transport.RoundTrip.{parse_bytes-framed, framed, delivered, exchange_delivers}
use nivalo_esp.Transport.Corruption.{corruption_detected}
use nivalo_esp.Common.{
  ap, ℕ, ◌≡◌, refl, true, false, arith, List, [], ◌∷◌, Option, Text, some, codes, set,
}

abbrev idle : Transport
idle = record {
  started = true;
  paused = false;
  next_seq = 65535;
  receive_sequence = record { has_sequence = true; last_sequence = 513 };
  last_error = [];
  tx_frame = [];
  rx_frame = [];
}

abbrev hello : Option Text
hello = some (codes "{}")

abbrev receiver : Transport
receiver = record idle { rx_frame = (exchange idle 3 hello []).2.tx_frame }

exchange_delivers_example :
    parse_frame receiver empty_frame
    ≡ delivered receiver 3 65535 (acknowledgment idle.receive_sequence) (codes "{}")
exchange_delivers_example =
    exchange_delivers idle receiver 3 hello [] refl refl (omega arith)
      (omega arith, (omega arith, tt)) (omega arith) (unfold acknowledgment in omega arith)
      (omega arith) refl

abbrev good_frame : List ℕ
good_frame = framed 3 7 0 (codes "{}") []

abbrev bad_frame : List ℕ
bad_frame = set good_frame 24 0

abbrev covered_header : List ℕ
covered_header = header 3 7 0 2 0

corruption_detected_example : (parse_bytes idle empty_frame bad_frame 0).0 ≡ false
unfolding header_copy write_le32 read_le16 read_le32
corruption_detected_example =
    corruption_detected idle idle empty_frame empty_frame good_frame bad_frame covered_header
      (125 ∷ []) 0 123 0 refl refl refl (ground arith) (omega arith, tt) (omega arith) (omega arith)
      (omega arith)
      (ap (λ r. r.0)
        (parse_bytes-framed 3 7 0 (codes "{}") [] (omega arith) (omega arith) (omega arith)
          (omega arith) (omega arith, (omega arith, tt)) idle empty_frame 0 (omega arith)))
