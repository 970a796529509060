-- ===== src/Reports.antt =====
-- src/NivaloDeviceReports.cpp: the command results and events that wait to be published. `Number` is the
-- type `float`, and publishing them is a parameter.
pub mod Drain
pub mod Queue
pub mod Order
pub mod Topic
mod Tests
use nivalo_esp.Common.{
  ℕ, zero, suc, ◌+◌, ◌-◌, Bool, true, false, not, List, [], ◌∷◌, none, some, get_elem?, set, take,
  if◌then◌else◌, Text, is_empty,
}

abbrev pub pending_report_count : ℕ
pending_report_count = 8

-- What `copyText` leaves in a buffer of this size.
pub copy_text : ℕ → Text → Text
copy_text size source = take (size - 1) source

pub record CommandAck (Number : Type 0) : Type 0 where
  pub command_id : Text
  pub status : Text
  pub message : Text
  pub progress : Number

pub record Event : Type 0 where
  pub name : Text
  pub data_text : Text
  pub severity : Text

-- An element of the arrays, whose text stays when it is no longer queued.
pub record Slot (R : Type 0) : Type 0 where
  pub queued : Bool
  pub report : R

pub stored_ack : {Number : Type 0} → CommandAck Number → CommandAck Number
stored_ack a = record a {
  command_id = copy_text 40 a.command_id;
  status = copy_text 16 a.status;
  message = copy_text 96 a.message;
}

pub stored_event : Event → Event
stored_event e = record {
  name = copy_text 64 e.name;
  data_text = copy_text 512 e.data_text;
  severity = copy_text 16 e.severity;
}

-- The loop over the slots, which takes the first that is free.
unfoldable pub queue_loop : {R : Type 0} → List (Slot R) → R → Bool × List (Slot R)
queue_loop [] r = (false, [])
queue_loop (s ∷ slots) r =
    let (found, rest) = queue_loop slots r in
    if not s.queued then (true, record { queued = true; report = r } ∷ slots) else (found, s ∷ rest)

pub record Reports (Number W : Type 0) : Type 0 where
  pub acks : List (Slot (CommandAck Number))
  pub events : List (Slot Event)
  pub world : W

-- A report that is to be queued.
pub data Request (Number : Type 0) : Type 0 where
  ack : CommandAck Number → Request Number
  event : Event → Request Number

-- Publishing. A result also runs the MQTT client, which may receive commands: the reports that these
-- queue are the list.
pub record Publisher (Number W : Type 0) : Type 0 where
  pub publish_ack : W → CommandAck Number → List (Request Number) × W
  pub publish_event : W → Event → W

module _ {Number W : Type 0} (publisher : Publisher Number W) where
  unfoldable pub queue_command_ack_report :
      Reports Number W → CommandAck Number → Bool × Reports Number W
  queue_command_ack_report s a =
      let (found, slots) = queue_loop s.acks (stored_ack a) in
      if is_empty a.command_id then (false, s) else (found, record s { acks = slots })

  unfoldable pub queue_event_report : Reports Number W → Event → Bool × Reports Number W
  queue_event_report s e =
      let (found, slots) = queue_loop s.events (stored_event e) in
      (found, record s { events = slots })

  pub queue : Reports Number W → Request Number → Reports Number W
  queue s (ack a) = (queue_command_ack_report s a).1
  queue s (event e) = (queue_event_report s e).1

  unfoldable pub queue_all : Reports Number W → List (Request Number) → Reports Number W
  queue_all s [] = s
  queue_all s (r ∷ rs) = queue_all (queue s r) rs

  -- The slot `i`, if it is one.
  unfoldable pub drain_ack : Reports Number W → ℕ → Reports Number W
  drain_ack s i = elim (get_elem? s.acks i) [
    | none ↦ s
    | some slot ↦
        (let (requests, w) = publisher.publish_ack s.world slot.report in
          if slot.queued
          then queue_all
              (record s { acks = set s.acks i (record slot { queued = false }); world = w })
              requests
          else s)
  ]

  unfoldable pub drain_event : Reports Number W → ℕ → Reports Number W
  drain_event s i = elim (get_elem? s.events i) [
    | none ↦ s
    | some slot ↦
        (if slot.queued
          then record s {
            events = set s.events i (record slot { queued = false });
            world = publisher.publish_event s.world slot.report;
          }
          else s)
  ]

  -- The loops, with `n` slots left from `i` on.
  unfoldable pub drain_acks : ℕ → ℕ → Reports Number W → Reports Number W
  drain_acks zero i s = s
  drain_acks (suc n) i s = drain_acks n (i + 1) (drain_ack s i)

  unfoldable pub drain_events : ℕ → ℕ → Reports Number W → Reports Number W
  drain_events zero i s = s
  drain_events (suc n) i s = drain_events n (i + 1) (drain_event s i)

  unfoldable pub drain_queued_reports : Reports Number W → Reports Number W
  drain_queued_reports s = drain_events pending_report_count 0 (drain_acks pending_report_count 0 s)
