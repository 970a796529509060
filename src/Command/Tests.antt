-- ===== src/Command/Tests.antt =====
-- The theorems at concrete inputs.
use nivalo_esp.Lifecycle.Example.{two_keys}
use nivalo_esp.ReceiveSequence.{acknowledgment}
use nivalo_esp.Transport.{empty_frame, parse_frame}
use nivalo_esp.Transport.RoundTrip.{delivered}
use nivalo_esp.ResultCache.{find, valid}
use nivalo_esp.ResultCache.Fifo.{find-empty}
use nivalo_esp.Reports.{
  CommandAck, Slot, queue_loop, queue_all, queue_command_ack_report, queue_event_report,
  drain_queued_reports, drain_acks, drain_ack, drain_events, drain_event,
}
use nivalo_esp.Reports.Topic.{get_command_id_from_topic}
use nivalo_esp.Sdk.Registry.{find_function}
use nivalo_esp.Sdk.Dispatch.{dispatch_sdk_command, SdkState, run_new}
use nivalo_esp.Sdk.Dispatch.Once.{dispatch_new}
use nivalo_esp.Ota.Example.{Board, board, toy_tls, recovery}
use nivalo_esp.Crc.Detection.{IsBytes}
use nivalo_esp.Command.{
  frame_command, is_flash, Device, forwarded_command, drop_brace, receive_command, report_event,
  report_ack,
}
use nivalo_esp.Command.Callback.{dispatch}
use nivalo_esp.Command.Received.{receive_command-keeps}
use nivalo_esp.Command.Forward.{IsAnswered, does_not_fit}
use nivalo_esp.Command.Passed.{tried, on_message, on_message-IsAnswered, passed_on}
use nivalo_esp.Command.Once.{sdk_command, sdk_state, with_sdk, received, take_message}
use nivalo_esp.Common.{
  ℕ, ◌≡◌, refl, ap, ◌∙◌, Bool, true, false, arith, List, [], ◌∷◌, Option, none, some, all, ltb,
  Text, codes, text_eq,
}
use nivalo_esp.Command.Example.{
  opens, computer, silent, no_frames, application, nothing_registered, one_handler, bus, device,
  command_topic,
}

id_c1 : get_command_id_from_topic command_topic ≡ codes "c1"
unfolding get_command_id_from_topic
id_c1 = refl

is_new :
    find
      (receive_command silent computer device
        (get_command_id_from_topic command_topic)
        (codes "open")).results
      (some (get_command_id_from_topic command_topic))
    ≡ none
is_new = rw id_c1 (
    ap (λ r. find r (some (codes "c1")))
      (receive_command-keeps silent computer device (codes "c1") (codes "open")).1
    ∙ find-empty (codes "c1") (unfold valid in refl))

not_handled :
    (tried silent computer no_frames application nothing_registered toy_tls two_keys board recovery
      true device
      (get_command_id_from_topic command_topic)
      opens).0
    ≡ false
unfolding run_new dispatch find_function text_eq
not_handled =
    ap (λ (p : Bool × SdkState Board). p.0)
      (dispatch_new application nothing_registered true _
        (sdk_command (get_command_id_from_topic command_topic) opens) is_new)

abbrev forwarded : Text
forwarded = forwarded_command silent computer (codes "c1") (codes "open") opens

small-IsBytes : (s : Text) → all (λ b. ltb b 256) s ≡ true → IsBytes s
small-IsBytes [] h = tt
small-IsBytes (b ∷ s) h = (ground arith, small-IsBytes s (ground arith))

forwarded-IsBytes : IsBytes forwarded
unfolding forwarded_command drop_brace
forwarded-IsBytes = small-IsBytes forwarded refl

fits : does_not_fit silent computer no_frames (codes "c1") (codes "open") opens ≡ false
unfolding forwarded_command drop_brace
fits = refl

no_flash : is_flash (codes "open") ≡ false
unfolding text_eq
no_flash = refl

-- After the two reports on its receipt were published, all slots are free.
slots_free :
    all
      (λ (s : Slot (CommandAck ℕ)). s.queued)
      (tried silent computer no_frames application nothing_registered toy_tls two_keys board
        recovery true device
        (get_command_id_from_topic command_topic)
        opens).1.reports.acks
    ≡ false
unfolding dispatch receive_command report_ack report_event queue_command_ack_report
    queue_event_report queue_loop drain_queued_reports drain_acks drain_ack drain_events drain_event
    queue_all get_command_id_from_topic
slots_free = refl

on_message-IsAnswered_example :
    (after : Device ℕ Board) × ((on_message silent computer no_frames application nothing_registered
          toy_tls two_keys board recovery true device command_topic
          (1 ∷ [])
        ≡ some after)
      × IsAnswered silent computer no_frames
          (tried silent computer no_frames application nothing_registered toy_tls two_keys board
            recovery true device
            (get_command_id_from_topic command_topic)
            opens).1
          after
          (get_command_id_from_topic command_topic)
          (codes "open")
          opens)
on_message-IsAnswered_example =
    on_message-IsAnswered silent computer no_frames application nothing_registered toy_tls two_keys
      board recovery device command_topic (1 ∷ []) opens refl no_flash refl not_handled
      (rw id_c1 refl) slots_free

passed_on_example :
    (after : Device ℕ Board) × ((on_message silent computer no_frames application nothing_registered
          toy_tls two_keys board recovery true device command_topic
          (1 ∷ [])
        ≡ some after)
      × (let received = record bus { rx_frame = after.transport.tx_frame } in
          parse_frame received empty_frame
          ≡ delivered received frame_command 7 (acknowledgment bus.receive_sequence) (
              forwarded_command silent computer
                (get_command_id_from_topic command_topic)
                (codes "open")
                opens)))
passed_on_example =
    passed_on silent computer no_frames application nothing_registered toy_tls two_keys board
      recovery device command_topic (1 ∷ []) opens refl no_flash refl not_handled bus
      (rw id_c1 fits) (rw id_c1 forwarded-IsBytes) refl refl (omega arith)
      (unfold acknowledgment in omega arith)

-- Two messages that are not JSON follow.
abbrev unread : List (Text × List ℕ)
unread = (command_topic, []) ∷ (command_topic, []) ∷ []

abbrev take_one : Device ℕ Board → Option (Device ℕ Board)
take_one d =
    take_message silent computer no_frames application one_handler toy_tls two_keys board recovery
      true d command_topic (1 ∷ [])

abbrev received_by : Device ℕ Board → Device ℕ Board
received_by d =
    received silent computer no_frames application one_handler toy_tls two_keys board recovery true
      d (get_command_id_from_topic command_topic) opens

abbrev with_result : Device ℕ Board
with_result =
    with_sdk (received_by device)
      (dispatch_sdk_command application one_handler true (sdk_state (received_by device))
        (sdk_command (get_command_id_from_topic command_topic) opens)).1

abbrev report_unread : Device ℕ Board → Device ℕ Board
report_unread d =
    report_event silent computer d (codes "esp32.command.parse_error") (codes "EmptyInput")
      (codes "warning")

abbrev later : Device ℕ Board
later = report_unread (report_unread with_result)
