-- ===== src/Link/Handled.antt =====
-- src/NivaloDeviceLink.cpp: how often `handleNivaloLinkFrame` publishes.
use nivalo_esp.Transport.{ReceivedFrame}
use nivalo_esp.Link.Frames.{FrameWorld, Publication, event, heartbeat, telemetry, command_ack}
use nivalo_esp.Common.{ℕ, ◌≡◌, ◌≢◌, true, false, List, ◌∷◌, Option, none, some, Text}

-- A frame that came for the first time, with a type of its own: neither idle nor a poll.
abbrev pub IsNews : ReceivedFrame → Type 0
IsNews f = (f.valid ≡ true) × ((f.duplicate ≡ false) × ((f.type ≢ 0x00) × (f.type ≢ 0x02)))

-- What a publication is for: telemetry is published for frames with telemetry only, a result for frames with the
-- status of a command, and a heartbeat for heartbeats.
abbrev pub IsFor : {Number : Type 0} → ℕ → Publication Number → Type 0
IsFor type (event name data_text severity) = (type ≢ 0x30)
IsFor type (heartbeat payload) = (type ≡ 0x30)
IsFor type (telemetry name value unit) = (type ≡ 0x20)
IsFor type (command_ack id status message progress) = (type ≡ 0x11)

abbrev IsForAll : {Number : Type 0} → ℕ → Option (Publication Number) → Type 0
IsForAll type none = Unit
IsForAll type (some p) = IsFor type p

module _ {Number W : Type 0} (world : FrameWorld Number W) where
  module _ (log : W → List (Publication Number))
      (logs : (w : W) (p : Publication Number) → log (world.publish w p) ≡ p ∷ log w)
      (quiet : (w : W) (t : Text) → log (world.publish_definitions w t).1 ≡ log w) where
    -- One more publication was made, that is for the frame.
    abbrev pub IsPublished : ReceivedFrame → W → W → Type 0
    IsPublished f w w' = (p : Publication Number) × (IsFor f.type p × (log w' ≡ p ∷ log w))
