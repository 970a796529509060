-- ===== src/Command/Once.antt =====
-- src/NivaloDeviceCommand.cpp: a command that the broker delivers again.
use nivalo_esp.Lifecycle.{FirmwareSigningKey}
use nivalo_esp.Firmware.{MbedTls}
use nivalo_esp.ResultCache.{CompletedCommand}
use nivalo_esp.ResultCache.Kept.{IsKept}
use nivalo_esp.Reports.{Publisher}
use nivalo_esp.Reports.Topic.{get_command_id_from_topic}
use nivalo_esp.Sdk.Registry.{SdkRegistry}
use nivalo_esp.Sdk.Dispatch.{World, SdkState, Command as SdkCommand, dispatch_sdk_command}
use nivalo_esp.Ota.{OtaWorld}
use nivalo_esp.Ota.Recovery.{RecoveryConfig}
use nivalo_esp.Link.Frames.{FrameWorld}
use nivalo_esp.Command.{
  parsed, CommandDocument, CommandWorld, Device, with_world, command_name_of, payload_of, is_flash,
  receive_command,
}
use nivalo_esp.Command.Callback.{dispatch, run_command, mqtt_callback}
use nivalo_esp.Command.Passed.{on_message}
use nivalo_esp.Common.{
  ℕ, ◌≡◌, refl, Bool, true, false, List, [], ◌∷◌, Option, none, some, Text, is_empty,
}

-- A command for the registry.
abbrev pub sdk_command : Text → CommandDocument → SdkCommand
sdk_command id doc = record {
  command_id = some id;
  command_name = command_name_of doc;
  arguments = payload_of doc;
}

-- The part of a device that the registry works on.
abbrev pub sdk_state : {Number W : Type 0} → Device Number W → SdkState W
sdk_state d = record { results = d.results; world = d.reports.world }

abbrev pub with_sdk : {Number W : Type 0} → Device Number W → SdkState W → Device Number W
with_sdk d s = record (with_world d s.world) { results = s.results }

module _ {Number W H R C K : Type 0} (publisher : Publisher Number W)
    (world : CommandWorld Number W) (frames : FrameWorld Number W) (sdk : World H C W)
    (registry : SdkRegistry H R C) (tls : MbedTls K) (keys : List FirmwareSigningKey)
    (io : OtaWorld W) (config : RecoveryConfig) (m : Bool) where
  abbrev pub take_message : Device Number W → Text → List ℕ → Option (Device Number W)
  take_message d topic message =
      on_message publisher world frames sdk registry tls keys io config m d topic message

  abbrev pub received : Device Number W → Text → CommandDocument → Device Number W
  received d id doc = receive_command publisher world d id (command_name_of doc)

  -- The cache of a device still has a result, unless the device has restarted.
  abbrev StillKept : ℕ → Text → CompletedCommand → Option (Device Number W) → Type 0
  StillKept age id e none = Unit
  StillKept age id e (some d) = IsKept age id e d.results

  -- Messages of the broker, each with its topic, up to one that makes the device restart.
  abbrev pub on_messages : List (Text × List ℕ) → Device Number W → Option (Device Number W)
  on_messages [] d = some d
  on_messages ((topic, message) ∷ rest) d = elim (take_message d topic message) [
    | none ↦ none
    | some d' ↦ on_messages rest d'
  ]

  pub on_message-dispatch :
      (d : Device Number W) (topic : Text) (message : List ℕ) (doc : CommandDocument)
      → world.parse message ≡ parsed doc
      → is_flash (command_name_of doc) ≡ false
      → is_empty (command_name_of doc) ≡ false
      → let id = get_command_id_from_topic topic in
        let (handled, s) =
          dispatch_sdk_command sdk registry m
            (sdk_state (received d id doc))
            (sdk_command id doc) in
        handled ≡ true → take_message d topic message ≡ some (with_sdk (received d id doc) s)
  unfolding mqtt_callback run_command dispatch
  on_message-dispatch d topic message doc known no_flash called handled =
      rw (mqtt_callback, known, run_command, no_flash, called, handled) refl
