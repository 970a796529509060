-- ===== src/Command/Callback.antt =====
-- src/NivaloDeviceCommand.cpp: `mqttCallback` from its parts.
use nivalo_esp.Lifecycle.{FirmwareSigningKey}
use nivalo_esp.Firmware.{MbedTls}
use nivalo_esp.PollPolicy.{note_command_exchange}
use nivalo_esp.Transport.{ReceivedFrame, max_payload, exchange}
use nivalo_esp.Reports.{Publisher}
use nivalo_esp.Reports.Topic.{get_command_id_from_topic}
use nivalo_esp.Sdk.Registry.{SdkRegistry}
use nivalo_esp.Sdk.Dispatch.{World, dispatch_sdk_command}
use nivalo_esp.Ota.{Action, restart, OtaWorld}
use nivalo_esp.Ota.Recovery.{RecoveryConfig}
use nivalo_esp.Ota.Command.{FirmwareArguments, handle_firmware_command}
use nivalo_esp.Link.Frames.{FrameWorld, handle_nivalo_link_frame}
use nivalo_esp.Common.{
  ℕ, Bool, true, false, ◌||◌, List, [], ◌∷◌, Option, none, some, length, ltb, if◌then◌else◌, Text,
  codes, is_empty,
}
use nivalo_esp.Command.{
  frame_command, CommandDocument, malformed, parsed, CommandWorld, Device, command_name_of,
  payload_of, requested_by_of, is_flash, with_world, report_event, report_ack, receive_command,
  forwarded_command,
}

abbrev is_restart : Action → Bool
is_restart restart = true
is_restart _ = false

-- Whether the handler of a firmware command, with these calls, has called `ESP.restart`.
abbrev pub restarts : List Action → Bool
restarts [] = false
restarts (a ∷ trace) = is_restart a || restarts trace

module _ {Number W : Type 0} (publisher : Publisher Number W) (world : CommandWorld Number W) where
  module _ (frames : FrameWorld Number W) where
    -- After the exchange of a frame that was sent.
    unfoldable pub command_sent : Device Number W → Text → Text → ReceivedFrame → Device Number W
    unfolding report_event report_ack
    command_sent d command_id forwarded immediate_frame =
        let noted = record d {
          manager = note_command_exchange d.manager (world.millis d.reports.world);
        } in
        let reported =
          report_ack publisher world
            (report_event publisher world noted (codes "mcu.command.forwarded") forwarded
              (codes "info"))
            command_id (codes "running") (codes "Forwarded to secondary MCU over NivaloLink") in
        if immediate_frame.valid
        then with_world reported
            (handle_nivalo_link_frame frames reported.reports.world immediate_frame)
        else reported

    unfoldable pub send_command : Device Number W → Text → Text → Device Number W
    unfolding command_sent
    send_command d command_id forwarded =
        let w = d.reports.world in
        let (sent, immediate_frame, transport) =
          exchange d.transport frame_command (some forwarded) (world.wire w) in
        let exchanged = record d { transport = transport } in
        if sent
        then command_sent (with_world exchanged (world.transfer w transport.tx_frame)) command_id
            forwarded immediate_frame
        else report_ack publisher world
            (report_event publisher world exchanged (codes "mcu.command.forward_failed")
              transport.last_error (codes "warning"))
            command_id (codes "failed") transport.last_error

    unfoldable pub forward_command :
        Device Number W → Text → Text → CommandDocument → Device Number W
    unfolding send_command forwarded_command
    forward_command d command_id command_name doc =
        let forwarded = forwarded_command publisher world command_id command_name doc in
        if (world.command_json command_id command_name (requested_by_of doc)).1
          || ltb max_payload (length forwarded)
        then report_ack publisher world
            (report_event publisher world d (codes "mcu.command.forward_failed")
              (codes "command JSON exceeds bridge capacity") (codes "warning"))
            command_id (codes "failed") (codes "Command JSON exceeds bridge capacity")
        else send_command d command_id forwarded

    -- A command that the application does not handle.
    unfoldable pub pass_on :
        Bool → Device Number W → Text → Text → CommandDocument → Device Number W
    unfolding forward_command
    pass_on has_secondary_mcu d command_id command_name doc =
        if has_secondary_mcu
        then forward_command d command_id command_name doc
        else report_ack publisher world
            (report_event publisher world d (codes "esp32.command.unsupported") command_name
              (codes "warning"))
            command_id (codes "failed") (codes "No secondary MCU bridge is enabled")

    module _ {H R C : Type 0} (sdk : World H C W) (registry : SdkRegistry H R C)
        (has_secondary_mcu : Bool) where
      unfoldable pub dispatch : Device Number W → Text → Text → Text → Bool × Device Number W
      dispatch d command_id command_name payload =
          let (handled, s) =
            dispatch_sdk_command sdk registry has_secondary_mcu
              (record { results = d.results; world = d.reports.world })
              (record {
                command_id = some command_id;
                command_name = command_name;
                arguments = payload;
              }) in
          (handled, record (with_world d s.world) { results = s.results })

      module _ {K : Type 0} (tls : MbedTls K) (keys : List FirmwareSigningKey) (io : OtaWorld W)
          (config : RecoveryConfig) where
        -- A firmware command that comes to its successful end restarts the device.
        unfoldable pub run_firmware :
            Device Number W → Text → FirmwareArguments → Option (Device Number W)
        run_firmware d command_id a =
            let s =
              handle_firmware_command tls keys has_secondary_mcu io command_id config a (record {
                world = d.reports.world;
                trace = [];
                download_closed = false;
                acceptance_pending = d.acceptance_pending;
              }) in
            if restarts s.trace
            then none
            else some (record (with_world d s.world) { acceptance_pending = s.acceptance_pending })

        unfoldable pub run_command :
            Device Number W → Text → CommandDocument → Option (Device Number W)
        unfolding run_firmware dispatch pass_on
        run_command d command_id doc =
            let name = command_name_of doc in
            let (handled, dispatched) = dispatch d command_id name (payload_of doc) in
            if is_flash name
            then run_firmware d command_id doc.arguments.firmware
            else (if is_empty name
                then some d
                else (if handled
                    then some dispatched
                    else some (pass_on has_secondary_mcu dispatched command_id name doc)))

        -- The device after a message, with `none` if the message has made it restart, which the callback does not
        -- survive.
        unfoldable pub mqtt_callback : Device Number W → Text → List ℕ → Option (Device Number W)
        unfolding run_command
        mqtt_callback d topic message = elim (world.parse message) [
          | malformed reason ↦ some (
              report_event publisher world d (codes "esp32.command.parse_error") reason
                (codes "warning"))
          | parsed doc ↦
              let command_id = get_command_id_from_topic topic in
              run_command (receive_command publisher world d command_id (command_name_of doc))
                command_id doc
        ]
