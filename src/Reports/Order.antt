-- ===== src/Reports/Order.antt =====
-- src/NivaloDeviceReports.cpp: a command that arrives while the results are drained.
use nivalo_esp.Reports.{CommandAck, Slot, Reports, Publisher, stored_ack}
use nivalo_esp.Reports.Drain.{full}
use nivalo_esp.Common.{false, List, ◌∷◌, replicate}

-- A slot that is free, with old text.
abbrev pub free : {Number : Type 0} → CommandAck Number → Slot (CommandAck Number)
free old = record { queued = false; report = old }

-- Two results wait in the first of eight slots.
abbrev pub two_waiting :
    {Number : Type 0}
    → CommandAck Number
    → CommandAck Number
    → CommandAck Number
    → List (Slot (CommandAck Number))
two_waiting a b old = full a ∷ full b ∷ replicate 6 (free old)

module _ {Number W : Type 0} (publisher : Publisher Number W) where
  -- The slots after the command's results are queued.
  abbrev after_command :
      CommandAck Number
      → CommandAck Number
      → CommandAck Number
      → CommandAck Number
      → List (Slot (CommandAck Number))
  after_command b accepted running old =
      full (stored_ack accepted) ∷ full b ∷ full (stored_ack running) ∷ replicate 5 (free old)
