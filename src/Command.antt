-- ===== src/Command.antt =====
-- src/NivaloDeviceCommand.cpp: what a device does with a message of the broker, on its reports, its
-- registry, the firmware commands and the link: here its data and its first part, and in Callback
-- `mqttCallback`. What the JSON library reads and writes, the other side of the link and the MQTT
-- client are parameters; the prints on the serial line are left out.
pub mod Callback
pub mod Received
pub mod Forward
pub mod Passed
pub mod Once
pub mod Example
mod Tests
use nivalo_esp.PollPolicy.{LinkManager}
use nivalo_esp.Transport.{Transport}
use nivalo_esp.ResultCache.{ResultCache}
use nivalo_esp.Reports.{
  Reports, Request, Publisher, queue_command_ack_report, queue_event_report, queue_all,
  drain_queued_reports,
}
use nivalo_esp.Ota.Command.{FirmwareArguments}
use nivalo_esp.Common.{
  ℕ, Bool, ◌||◌, List, [], ◌∷◌, ◌++◌, Option, none, some, ◌==◌, if◌then◌else◌, is_some, Text, codes,
  text_eq, is_empty, or_empty,
}

-- `NIVALO_LINK_FRAME_COMMAND`.
abbrev pub frame_command : ℕ
frame_command = 0x10

-- The member `arguments`, as it is used: its text, if it is one, the texts of its members, its JSON, with
-- `none` for null, and what a firmware command reads of it.
pub record Arguments : Type 0 where
  pub text : Option Text
  pub url : Option Text
  pub signed_url : Option Text
  pub download_url : Option Text
  pub json : Option Text
  pub firmware : FirmwareArguments

-- The members of a message that are texts, and its arguments. `payload_json` is the JSON of its payload.
pub record CommandDocument : Type 0 where
  pub payload_command : Option Text
  pub command : Option Text
  pub arguments : Arguments
  pub payload_requested_by : Option Text
  pub requested_by : Option Text
  pub payload_text : Option Text
  pub payload_json : Text

pub data ParsedCommand : Type 0 where
  malformed : Text → ParsedCommand
  parsed : CommandDocument → ParsedCommand

-- `command_json` is the JSON of a command with its identifier, its name and who requested it, and whether
-- it did not fit. `client_loop` runs the MQTT client: the reports that it queues are the list. The other side
-- of the link sends `wire` while it receives a frame, as `transfer`.
pub record CommandWorld (Number W : Type 0) : Type 0 where
  pub parse : List ℕ → ParsedCommand
  pub command_json : Text → Text → Option Text → Text × Bool
  pub client_loop : W → List (Request Number) × W
  pub millis : W → ℕ
  pub wire : W → List ℕ
  pub transfer : W → List ℕ → W
  pub no_progress : Number

pub record Device (Number W : Type 0) : Type 0 where
  pub reports : Reports Number W
  pub results : ResultCache
  pub manager : LinkManager
  pub transport : Transport
  pub acceptance_pending : Bool

abbrev pub first_of : Option Text → Option Text → Option Text
first_of none t = t
first_of (some s) t = some s

abbrev pub command_name_of : CommandDocument → Text
command_name_of doc = or_empty (first_of doc.payload_command doc.command)

-- `payload`, which the application's handlers take.
abbrev pub payload_of : CommandDocument → Text
payload_of doc =
    let a = doc.arguments in
    or_empty (
      first_of a.text (
        first_of a.url
          (first_of a.signed_url (first_of a.download_url (first_of a.json doc.payload_text)))))

-- `requestedBy`, if it is not empty.
abbrev pub requested_by_of : CommandDocument → Option Text
requested_by_of doc =
    let by = first_of doc.payload_requested_by doc.requested_by in
    if is_empty (or_empty by) then none else by

-- Without a brace at the end.
pub drop_brace : Text → Text
drop_brace [] = []
drop_brace (c ∷ []) = if c == b'}' then [] else c ∷ []
drop_brace (c ∷ d ∷ s) = c ∷ drop_brace (d ∷ s)

-- What a forwarded command has as its payload.
abbrev pub forwarded_payload : CommandDocument → Text
forwarded_payload doc = elim doc.arguments.json [
  | some json ↦ json
  | none ↦ (if is_some doc.payload_text then doc.payload_json else codes "{}")
]

abbrev pub is_flash : Text → Bool
is_flash name = text_eq name (codes "flash") || text_eq name (codes "firmware.flash")

abbrev pub with_world : {Number W : Type 0} → Device Number W → W → Device Number W
with_world d w = record d { reports = record d.reports { world = w } }

module _ {Number W : Type 0} (publisher : Publisher Number W) (world : CommandWorld Number W) where
  pub report_event : Device Number W → Text → Text → Text → Device Number W
  report_event d name data_text severity = record d {
    reports =
        (queue_event_report publisher d.reports
          (record { name = name; data_text = data_text; severity = severity })).1;
  }

  -- A result, for a command with an identifier.
  pub report_ack : Device Number W → Text → Text → Text → Device Number W
  report_ack d command_id status message = if is_empty command_id then d else record d {
    reports =
        (queue_command_ack_report publisher d.reports (record {
          command_id = command_id;
          status = status;
          message = message;
          progress = world.no_progress;
        })).1;
  }

  -- From the receipt of a command to its handler.
  pub receive_command : Device Number W → Text → Text → Device Number W
  unfolding report_event report_ack
  receive_command d command_id command_name =
      let received = report_event d (codes "esp32.command.received") command_name (codes "info") in
      let accepted =
        report_ack received command_id (codes "accepted") (codes "Command received by ESP32") in
      let drained = drain_queued_reports publisher accepted.reports in
      let (requests, w) = world.client_loop drained.world in
      record accepted { reports = queue_all publisher (record drained { world = w }) requests }

  -- `forwardedCommand`.
  pub forwarded_command : Text → Text → CommandDocument → Text
  unfolding drop_brace
  forwarded_command command_id command_name doc =
      drop_brace (world.command_json command_id command_name (requested_by_of doc)).0
      ++ codes ",\"payload\":"
      ++ forwarded_payload doc
      ++ codes "}"
