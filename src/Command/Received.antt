-- ===== src/Command/Received.antt =====
-- src/NivaloDeviceCommand.cpp: what receiving a command and running it leave as they are.
use nivalo_esp.Transport.{ReceivedFrame, exchange, max_payload}
use nivalo_esp.Link.Frames.{FrameWorld}
use nivalo_esp.Reports.{Publisher}
use nivalo_esp.Command.{
  frame_command, CommandDocument, CommandWorld, Device, requested_by_of, report_event, report_ack,
  receive_command, forwarded_command,
}
use nivalo_esp.Command.Callback.{command_sent, send_command, forward_command, pass_on}
use nivalo_esp.Common.{◌≡◌, refl, Bool, ◌||◌, some, length, ltb, Text, codes, is_empty, if_cases}

module _ {Number W : Type 0} (publisher : Publisher Number W) (world : CommandWorld Number W) where
  report_ack-keeps :
      (d : Device Number W) (command_id status message : Text)
      → ((report_ack publisher world d command_id status message).transport ≡ d.transport)
        × ((report_ack publisher world d command_id status message).results ≡ d.results)
  unfolding report_ack
  report_ack-keeps d command_id status message =
      if_cases (λ (e : Device Number W). (e.transport ≡ d.transport) × (e.results ≡ d.results))
        (is_empty command_id) _ _ (λ _. (refl, refl)) (λ _. (refl, refl))

  pub receive_command-keeps :
      (d : Device Number W) (command_id name : Text)
      → ((receive_command publisher world d command_id name).transport ≡ d.transport)
        × ((receive_command publisher world d command_id name).results ≡ d.results)
  unfolding receive_command report_event
  receive_command-keeps d command_id name =
      report_ack-keeps
        (report_event publisher world d (codes "esp32.command.received") name (codes "info"))
        command_id (codes "accepted") (codes "Command received by ESP32")

  report_event-results :
      (d : Device Number W) (name data_text severity command_id status message : Text)
      → (report_ack publisher world
          (report_event publisher world d name data_text severity)
          command_id
          status
          message).results
        ≡ d.results
  unfolding report_event
  report_event-results d name data_text severity command_id status message =
      (report_ack-keeps _ command_id status message).1

  module _ (frames : FrameWorld Number W) where
    command_sent-results :
        (d : Device Number W) (command_id forwarded : Text) (frame : ReceivedFrame)
        → (command_sent publisher world frames d command_id forwarded frame).results ≡ d.results
    unfolding command_sent
    command_sent-results d command_id forwarded frame =
        if_cases (λ (e : Device Number W). e.results ≡ d.results) frame.valid _ _
          (λ _. report_event-results _ _ _ _ command_id _ _)
          (λ _. report_event-results _ _ _ _ command_id _ _)

    send_command-results :
        (d : Device Number W) (command_id forwarded : Text)
        → (send_command publisher world frames d command_id forwarded).results ≡ d.results
    unfolding send_command
    send_command-results d command_id forwarded =
        if_cases (λ (e : Device Number W). e.results ≡ d.results)
          (exchange d.transport frame_command (some forwarded) (world.wire d.reports.world)).0 _ _
          (λ _. command_sent-results _ command_id forwarded _)
          (λ _. report_event-results _ _ _ _ command_id _ _)

    pub pass_on-results :
        (m : Bool) (d : Device Number W) (command_id name : Text) (doc : CommandDocument)
        → (pass_on publisher world frames m d command_id name doc).results ≡ d.results
    unfolding pass_on forward_command
    pass_on-results m d command_id name doc =
        let Same : Device Number W → Type 0 = λ e. e.results ≡ d.results in
        if_cases Same m _ _
          (λ _.
            if_cases Same
              ((world.command_json command_id name (requested_by_of doc)).1
                || ltb max_payload (length (forwarded_command publisher world command_id name doc)))
              _ _ (λ _. report_event-results _ _ _ _ command_id _ _)
              (λ _. send_command-results d command_id _))
          (λ _. report_event-results _ _ _ _ command_id _ _)
