-- ===== src/Link/Frames.antt =====
-- src/NivaloDeviceLink.cpp: `handleNivaloLinkFrame`, what a device does with a frame of the secondary MCU.
-- What the JSON library reads of the payload, and publishing, are parameters; `Number` is `float`.
use nivalo_esp.Firmware.{decimal}
use nivalo_esp.Ota.Files.{bytes_to_hex}
use nivalo_esp.Transport.{ReceivedFrame, frame_idle, frame_poll}
use nivalo_esp.Common.{
  ℕ, Bool, not, ◌&&◌, ◌||◌, List, [], ◌∷◌, ◌++◌, Option, none, some, take, ltb, ◌==◌, if◌then◌else◌,
  Text, codes, is_empty, or_empty,
}

abbrev pub frame_hello : ℕ
frame_hello = 0x01

abbrev pub frame_command_status : ℕ
frame_command_status = 0x11

abbrev pub frame_telemetry : ℕ
frame_telemetry = 0x20

abbrev pub frame_event : ℕ
frame_event = 0x21

abbrev pub frame_definition : ℕ
frame_definition = 0x22

abbrev pub frame_definitions_begin : ℕ
frame_definitions_begin = 0x23

abbrev pub frame_definitions_end : ℕ
frame_definitions_end = 0x24

abbrev pub frame_heartbeat : ℕ
frame_heartbeat = 0x30

abbrev pub frame_error : ℕ
frame_error = 0x7f

-- The members of a payload that are texts, and the others as they are used: `value` is the text that is
-- published, with `none` for null, and `progress` has `none` for null.
pub record FrameDocument (Number : Type 0) : Type 0 where
  pub name : Option Text
  pub unit : Option Text
  pub value : Option Text
  pub event_name : Option Text
  pub event_data : Option Text
  pub raw_data : Option Text
  pub raw : Option Text
  pub severity : Option Text
  pub command_id : Option Text
  pub status : Option Text
  pub message : Option Text
  pub progress : Option Number
  pub variable_count : ℕ
  pub function_count : ℕ

pub data Parsed (Number : Type 0) : Type 0 where
  malformed : Text → Parsed Number
  parsed : FrameDocument Number → Parsed Number

-- What the handler publishes. `heartbeat` is `publishNivaloLinkHeartbeat`.
pub data Publication (Number : Type 0) : Type 0 where
  event : Text → Text → Text → Publication Number
  heartbeat : Text → Publication Number
  telemetry : Text → Text → Option Text → Publication Number
  command_ack : Text → Text → Option Text → Option Number → Publication Number

-- The definitions that were published: their size, and whether they fitted and were sent.
pub record DefinitionsResult : Type 0 where
  pub bytes : ℕ
  pub overflowed : Bool
  pub published : Bool

-- `publish_definitions` merges the definitions of the payload with the device's own and publishes them, if
-- they fit.
pub record FrameWorld (Number W : Type 0) : Type 0 where
  pub parse : Text → Parsed Number
  pub publish : W → Publication Number → W
  pub publish_definitions : W → Text → DefinitionsResult × W

-- A character array as a C string.
pub c_text : List ℕ → Text
c_text [] = []
c_text (c ∷ s) = if c == 0 then [] else c ∷ c_text s

abbrev pub or_else : Option Text → Text → Text
or_else none s = s
or_else (some t) s = t

-- `frame.payloadLength > 0U ? frame.payload : "{}"`.
pub payload_or_object : ReceivedFrame → Text
payload_or_object f = if ltb 0 f.payload_length then c_text f.payload else codes "{}"

-- Whether a frame is not for the device.
unfoldable pub is_ignored : ReceivedFrame → Bool
is_ignored f = not f.valid || f.duplicate || f.type == frame_idle || f.type == frame_poll

abbrev info : Text
info = codes "info"

abbrev warning : Text
warning = codes "warning"

-- The frames whose payload is passed on as it is, without the JSON library.
unfoldable pub plain_publication : {Number : Type 0} → ReceivedFrame → Option (Publication Number)
unfolding payload_or_object
plain_publication f =
    if f.type == frame_hello
    then some (event (codes "mcu.nivalolink.hello") (payload_or_object f) info)
    else (if f.type == frame_heartbeat
        then some (heartbeat (payload_or_object f))
        else (if f.type == frame_error
            then some (event (codes "mcu.nivalolink.error") (payload_or_object f) warning)
            else none))

-- A payload that is not JSON.
unfoldable pub parse_error : {Number : Type 0} → ReceivedFrame → Text → Publication Number
parse_error f reason =
    event (codes "esp32.nivalolink.parse_error")
      (take 95 (
        reason
        ++ codes " type=0x"
        ++ bytes_to_hex (f.type ∷ [])
        ++ codes " bytes="
        ++ decimal 10 f.payload_length))
      warning

unfoldable pub telemetry_publication :
    {Number : Type 0} → ReceivedFrame → FrameDocument Number → Publication Number
telemetry_publication f doc = elim doc.value [
  | none ↦ event (codes "mcu.telemetry.rejected") (c_text f.payload) warning
  | some value ↦
      (if is_empty (or_empty doc.name)
        then event (codes "mcu.telemetry.rejected") (c_text f.payload) warning
        else telemetry (or_empty doc.name) value
            (if is_empty (or_empty doc.unit) then none else doc.unit))
]

unfoldable pub event_publication :
    {Number : Type 0} → ReceivedFrame → FrameDocument Number → Publication Number
event_publication f doc =
    event (or_else doc.event_name (or_else doc.name (codes "mcu.event")))
      (or_else doc.event_data (or_else doc.raw_data (or_else doc.raw (c_text f.payload))))
      (or_else doc.severity info)

-- The report on published definitions.
unfoldable pub definitions_report :
    {Number : Type 0} → FrameDocument Number → DefinitionsResult → Publication Number
definitions_report doc r =
    let ok = not r.overflowed && r.published in
    event
      (if ok
        then codes "esp32.definitions.publish.ok"
        else codes "esp32.definitions.publish.failed")
      (take 159 (
        codes "variables="
        ++ decimal 10 doc.variable_count
        ++ codes " functions="
        ++ decimal 10 doc.function_count
        ++ codes " bytes="
        ++ decimal 10 r.bytes
        ++ codes " overflow="
        ++ (if r.overflowed then codes "true" else codes "false")
        ++ codes " mqtt="
        ++ (if ok then codes "published" else codes "failed")))
      (if ok then info else warning)

-- The frames whose payload is JSON, but for definitions.
unfoldable pub json_publication :
    {Number : Type 0} → ReceivedFrame → FrameDocument Number → Publication Number
unfolding payload_or_object telemetry_publication event_publication
json_publication f doc =
    if f.type == frame_telemetry
    then telemetry_publication f doc
    else (if f.type == frame_event
        then event_publication f doc
        else (if f.type == frame_definitions_begin
            then event (codes "mcu.definitions.begin") (payload_or_object f) info
            else (if f.type == frame_definitions_end
                then event (codes "mcu.definitions.end") (payload_or_object f) info
                else (if f.type == frame_command_status
                    then command_ack (or_empty doc.command_id) (or_else doc.status (codes "failed"))
                        doc.message doc.progress
                    else event
                        (take 47 (codes "mcu.nivalolink.type_0x" ++ bytes_to_hex (f.type ∷ [])))
                        (payload_or_object f) info))))

module _ {Number W : Type 0} (world : FrameWorld Number W) where
  unfoldable pub handle_json : W → ReceivedFrame → Parsed Number → W
  unfolding json_publication definitions_report parse_error
  handle_json w f (malformed reason) = world.publish w (parse_error f reason)
  handle_json w f (parsed doc) =
      if f.type == frame_definition
      then (let (result, w') = world.publish_definitions w (c_text f.payload) in
          world.publish w' (definitions_report doc result))
      else world.publish w (json_publication f doc)

  unfoldable pub handle_nivalo_link_frame : W → ReceivedFrame → W
  unfolding is_ignored plain_publication handle_json
  handle_nivalo_link_frame w f =
      if is_ignored f then w else (elim (plain_publication {Number = Number} f) [
        | some publication ↦ world.publish w publication
        | none ↦ handle_json w f (world.parse (c_text f.payload))
      ])
