-- ===== src/Command/Passed.antt =====
-- src/NivaloDeviceCommand.cpp: a message of the broker with a command for the secondary MCU.
use nivalo_esp.Lifecycle.{FirmwareSigningKey}
use nivalo_esp.Firmware.{MbedTls}
use nivalo_esp.Transport.{Transport, exchange, empty_frame, parse_frame}
use nivalo_esp.ReceiveSequence.{acknowledgment}
use nivalo_esp.Transport.RoundTrip.{exchange_delivers, delivered}
use nivalo_esp.Crc.Detection.{IsBytes}
use nivalo_esp.Reports.{CommandAck, Slot, Publisher}
use nivalo_esp.Reports.Topic.{get_command_id_from_topic}
use nivalo_esp.Sdk.Registry.{SdkRegistry}
use nivalo_esp.Sdk.Dispatch.{World}
use nivalo_esp.Ota.{OtaWorld}
use nivalo_esp.Ota.Recovery.{RecoveryConfig}
use nivalo_esp.Link.Frames.{FrameWorld}
use nivalo_esp.Command.{
  frame_command, parsed, CommandDocument, CommandWorld, Device, command_name_of, payload_of,
  is_flash, receive_command, forwarded_command,
}
use nivalo_esp.Command.Callback.{forward_command, dispatch, run_command, mqtt_callback, pass_on}
use nivalo_esp.Command.Received.{receive_command-keeps}
use nivalo_esp.Command.Forward.{
  does_not_fit, IsAnswered, forward_command-IsAnswered, forward_command-transport,
}
use nivalo_esp.Common.{
  ℕ, ◌^◌, ◌<◌, ◌≡◌, refl, ap, ◌∙◌, Bool, true, false, arith, List, Option, some, all, Text,
  is_empty,
}

module _ {Number W H R C K : Type 0} (publisher : Publisher Number W)
    (world : CommandWorld Number W) (frames : FrameWorld Number W) (sdk : World H C W)
    (registry : SdkRegistry H R C) (tls : MbedTls K) (keys : List FirmwareSigningKey)
    (io : OtaWorld W) (config : RecoveryConfig) where
  -- What the application makes of a command.
  abbrev pub tried : Bool → Device Number W → Text → CommandDocument → Bool × Device Number W
  tried has_secondary_mcu d command_id doc =
      dispatch publisher world frames sdk registry has_secondary_mcu
        (receive_command publisher world d command_id (command_name_of doc)) command_id
        (command_name_of doc) (payload_of doc)

  abbrev pub on_message : Bool → Device Number W → Text → List ℕ → Option (Device Number W)
  on_message has_secondary_mcu d topic message =
      mqtt_callback publisher world frames sdk registry has_secondary_mcu tls keys io config d topic
        message

  -- A message with a command for the secondary MCU.
  module _ (d : Device Number W) (topic : Text) (message : List ℕ) (doc : CommandDocument)
      (known : world.parse message ≡ parsed doc) (no_flash : is_flash (command_name_of doc) ≡ false)
      (called : is_empty (command_name_of doc) ≡ false)
      (not_handled : (tried true d (get_command_id_from_topic topic) doc).0 ≡ false) where
    abbrev id : Text
    id = get_command_id_from_topic topic

    on_message-forward :
        on_message true d topic message
        ≡ some (
            forward_command publisher world frames
              (tried true d id doc).1
              id
              (command_name_of doc)
              doc)
    unfolding mqtt_callback run_command pass_on
    on_message-forward =
        rw (mqtt_callback, known, run_command, no_flash, called, not_handled, pass_on) refl

    tried-transport : (tried true d id doc).1.transport ≡ d.transport
    unfolding dispatch
    tried-transport = (receive_command-keeps publisher world d id (command_name_of doc)).0

    -- A command with an identifier and a name, which is not that of a firmware command and which the application does
    -- not handle, leaves one more result waiting, if a slot is free for it: that it runs, if a frame with it
    -- was sent to the secondary MCU, and otherwise that it failed, and then the frame of the transport is that
    -- of before. The result takes the first free slot, and the others stay as they are.
    pub on_message-IsAnswered :
        is_empty id ≡ false
        → all (λ (s : Slot (CommandAck Number)). s.queued) (tried true d id doc).1.reports.acks
          ≡ false
        → (after : Device Number W) × ((on_message true d topic message ≡ some after)
            × IsAnswered publisher world frames
                (tried true d id doc).1
                after
                id
                (command_name_of doc)
                doc)
    on_message-IsAnswered named free = (
      _,
      (
        on_message-forward,
        forward_command-IsAnswered publisher world frames (tried true d id doc).1 id
            (command_name_of doc) doc named free,
      ),
    )

    -- If moreover what is forwarded fits, and the transport is started and not paused, with its numbers in their
    -- range, then the device goes on, and a transport that has received the frame sent accepts it, with the type
    -- of a command, the sender's numbers and the forwarded command as its payload.
    pub passed_on :
        (receiver : Transport)
        → does_not_fit publisher world frames id (command_name_of doc) doc ≡ false
        → IsBytes (forwarded_command publisher world id (command_name_of doc) doc)
        → d.transport.started ≡ true
        → d.transport.paused ≡ false
        → d.transport.next_seq < 2 ^ 16
        → acknowledgment d.transport.receive_sequence < 2 ^ 16
        → (after : Device Number W) × ((on_message true d topic message ≡ some after)
            × (let received = record receiver { rx_frame = after.transport.tx_frame } in
                parse_frame received empty_frame
                ≡ delivered received frame_command d.transport.next_seq
                    (acknowledgment d.transport.receive_sequence)
                    (forwarded_command publisher world id (command_name_of doc) doc)))
    passed_on receiver fits bytes started running seq ack =
        let payload = some (forwarded_command publisher world id (command_name_of doc) doc) in
        let wire = world.wire (tried true d id doc).1.reports.world in
        let after =
          forward_command publisher world frames (tried true d id doc).1 id (command_name_of doc)
            doc in
        let sent =
          forward_command-transport publisher world frames (tried true d id doc).1 id
            (command_name_of doc) doc fits
          ∙ ap (λ (t : Transport). (exchange t frame_command payload wire).2) tried-transport in
        (
          after,
          (
            on_message-forward,
            exchange_delivers d.transport (record receiver { rx_frame = after.transport.tx_frame })
                frame_command payload wire started running (omega arith) bytes seq ack
                (ground arith) (ap (λ (t : Transport). t.tx_frame) sent),
          ),
        )
