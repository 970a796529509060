-- ===== src/Reports/Tests.antt =====
-- The theorems at concrete inputs.
use nivalo_esp.Reports.{
  CommandAck, Event, Slot, Reports, ack, event, Publisher, stored_event, queue_all, drain_events,
  pending_report_count,
}
use nivalo_esp.Reports.Drain.{full, cleared, waiting, publish_events}
use nivalo_esp.Reports.Queue.{drained_in_order}
use nivalo_esp.Reports.Order.{two_waiting}
use nivalo_esp.Common.{
  ℕ, ◌≡◌, refl, Bool, true, false, List, [], ◌∷◌, map, take, replicate, if◌then◌else◌, Text, codes,
}

abbrev result_named : Text → Text → CommandAck ℕ
result_named id status = record { command_id = id; status = status; message = []; progress = 0 }

abbrev accepted : CommandAck ℕ
accepted = result_named (codes "new") (codes "accepted")

abbrev running : CommandAck ℕ
running = result_named (codes "new") (codes "running")

-- The names that were published, the last one first. The first result that is published receives a command.
abbrev publisher : Publisher ℕ (List Text)
publisher = record {
  publish_ack =
      λ w a. (if is_empty_log w then ack accepted ∷ ack running ∷ [] else [], a.status ∷ w);
  publish_event = λ w e. e.name ∷ w;
}
  where
    is_empty_log : List Text → Bool
    is_empty_log [] = true
    is_empty_log (x ∷ w) = false

abbrev event_named : Text → Event
event_named name = record { name = name; data_text = []; severity = codes "info" }

abbrev free_slots : List (Slot Event)
free_slots = replicate 8 (full (event_named []))

abbrev started : Reports ℕ (List Text)
started = record {
  acks = two_waiting accepted running accepted;
  events = map cleared free_slots;
  world = [];
}

abbrev two_events : List Event
two_events = event_named (codes "first") ∷ event_named (codes "second") ∷ []

drained_in_order_example :
    let queued =
      queue_all publisher
        (record started { events = map cleared free_slots })
        (map event two_events) in
    let drained = drain_events publisher pending_report_count 0 queued in
    (drained.world
      ≡ publish_events publisher [] (take pending_report_count (map stored_event two_events)))
    × (waiting drained.events ≡ [])
drained_in_order_example = drained_in_order publisher free_slots two_events started refl

abbrev done_result : CommandAck ℕ
done_result = result_named (codes "old") (codes "succeeded")
