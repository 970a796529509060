-- ===== src/Link/Repeated.antt =====
-- src/NivaloDeviceLink.cpp, src/NivaloLinkSpiTransport.cpp: a frame that the secondary MCU sends again.
use nivalo_esp.Crc.Detection.{IsBytes}
use nivalo_esp.ReceiveSequence.{acknowledgment}
use nivalo_esp.ReceiveSequence.Delivery.{observe-observe}
use nivalo_esp.Transport.{ReceivedFrame, Transport, exchange, empty_frame, parse_frame}
use nivalo_esp.Transport.RoundTrip.{exchange_delivers, delivered}
use nivalo_esp.Link.Frames.{FrameWorld, handle_nivalo_link_frame, is_ignored}
use nivalo_esp.Common.{
  ◌≡◌, ◌≤◌, ◌<◌, ◌^◌, ap, refl, true, false, not, arith, ℕ, List, Option, Text, length, or_empty,
}

is_ignored-duplicate : (f : ReceivedFrame) → f.duplicate ≡ true → is_ignored f ≡ true
unfolding is_ignored
is_ignored-duplicate f again = ground arith

module _ {Number W : Type 0} (world : FrameWorld Number W) where
  duplicate-ignored :
      (w : W) (f : ReceivedFrame) → f.duplicate ≡ true → handle_nivalo_link_frame world w f ≡ w
  unfolding handle_nivalo_link_frame
  duplicate-ignored w f again =
      let ignored = is_ignored-duplicate f again in rw (handle_nivalo_link_frame, ignored) refl

  module _ (sender receiver : Transport) (type : ℕ) (json_payload : Option Text) (wire : List ℕ)
      (started : sender.started ≡ true) (running : sender.paused ≡ false) (byte : type < 256)
      (bytes : IsBytes (or_empty json_payload)) (seq : sender.next_seq < 2 ^ 16)
      (ack : acknowledgment sender.receive_sequence < 2 ^ 16) where
    -- Let a started transport that is not paused send a frame whose fields are in their range. Then a transport that
    -- receives it twice accepts it both times, and the device changes nothing for the second one.
    pub repeated_ignored :
        (w : W)
        → length (or_empty json_payload) ≤ 1000
        → receiver.rx_frame ≡ (exchange sender type json_payload wire).2.tx_frame
        → let (accepted, first, receiver') = parse_frame receiver empty_frame in
          let (accepted', second, receiver'') = parse_frame receiver' empty_frame in
          (accepted ≡ true)
          × (accepted' ≡ true)
          × (second.seq ≡ first.seq)
          × (handle_nivalo_link_frame world w second ≡ w)
    repeated_ignored w fits sent =
        let once =
          exchange_delivers sender receiver type json_payload wire started running byte bytes seq
            ack fits sent in
        let receiver' =
          (delivered receiver type sender.next_seq (acknowledgment sender.receive_sequence)
            (or_empty json_payload)).2 in
        let twice =
          exchange_delivers sender receiver' type json_payload wire started running byte bytes seq
            ack fits sent in
        rw (once, twice)
          (
            refl,
            refl,
            refl,
            duplicate-ignored w _
                (ap not (observe-observe receiver.receive_sequence sender.next_seq)),
          )
