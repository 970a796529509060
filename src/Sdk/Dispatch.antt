-- ===== src/Sdk/Dispatch.antt =====
-- src/NivaloDeviceSdk.cpp: a command that the application runs. What a device publishes, and what
-- its handlers do, are parameters.
pub mod Once
mod Tests
use nivalo_esp.ResultCache.{ResultCache, CompletedCommand, find, remember}
use nivalo_esp.Firmware.{decimal}
use nivalo_esp.Sdk.Registry.{SdkRegistry, RegisteredFunction, find_function, is_negative}
use nivalo_esp.Common.{
  ℤ, Bool, true, false, not, ◌++◌, Option, none, some, take, if◌then◌else◌, Text, codes, text_eq,
  is_empty, or_empty,
}

-- `NIVALO_COMMAND_UNHANDLED`, `SUCCEEDED` and `FAILED`.
pub data CommandResult : Type 0 where
  unhandled : CommandResult
  succeeded : CommandResult
  failed : CommandResult

-- The world of a device: `ack` has the command's identifier, a status and a message, and `event` a
-- name, its data and a severity. `int_text` is what `%d` prints.
pub record World (H C W : Type 0) : Type 0 where
  pub ack : W → Text → Text → Text → W
  pub event : W → Text → Text → Text → W
  pub call_function : H → Text → W → ℤ × W
  pub call_command : C → Text → Text → W → CommandResult × (Text × W)
  pub publish_definitions : W → Bool × W
  pub int_text : ℤ → Text

pub record SdkState (W : Type 0) : Type 0 where
  pub results : ResultCache
  pub world : W

-- The identifier may be null.
pub record Command : Type 0 where
  pub command_id : Option Text
  pub command_name : Text
  pub arguments : Text

-- `if (…) a else b` on a result.
abbrev pub status_text : Bool → Text
status_text ok = if ok then codes "succeeded" else codes "failed"

abbrev pub severity_text : Bool → Text
severity_text ok = if ok then codes "info" else codes "warning"

module _ {H R C W : Type 0} (world : World H C W) (registry : SdkRegistry H R C) where
  -- The result of a command is remembered and acknowledged, if the command has an identifier.
  pub complete : SdkState W → Command → Bool → Text → SdkState W
  complete s c ok message = if is_empty (or_empty c.command_id) then s else record {
    results =
        (remember s.results c.command_id (some c.command_name) (some (status_text ok))
          (some message)).1;
    world = world.ack s.world (or_empty c.command_id) (status_text ok) message;
  }

  -- A command that the cache has.
  pub repeat : SdkState W → Command → CompletedCommand → SdkState W
  repeat s c cached =
      let id = or_empty c.command_id in
      if text_eq c.command_name cached.command_name
      then record s {
        world =
            world.event (world.ack s.world id cached.status cached.message)
              (codes "esp32.command.duplicate") c.command_name (codes "info");
      }
      else record s {
        world =
            world.event
              (world.ack s.world id (codes "failed")
                (codes "Command ID was already used for another command"))
              (codes "esp32.command.id_conflict") c.command_name (codes "warning");
      }

  -- `requestDefinitions`, with or without a secondary MCU.
  pub request_definitions : Bool → SdkState W → Command → Bool × SdkState W
  request_definitions has_secondary_mcu s c =
      let (published, w) = world.publish_definitions s.world in
      let s' = record s { world = w } in
      if has_secondary_mcu then (false, s') else (
        true,
        complete s' c published (
            if published
            then codes "ESP32 definitions published"
            else codes "ESP32 definitions publish failed"),
      )

  pub run_function : SdkState W → Command → RegisteredFunction H → SdkState W
  run_function s c f =
      let (result, w) = world.call_function f.handler c.arguments s.world in
      let ok = not (is_negative result) in
      let message =
        take 95
          (codes "Function " ++ c.command_name ++ codes " returned " ++ world.int_text result) in
      let s' = complete (record s { world = w }) c ok message in
      record s' {
        world =
            world.event s'.world
              (if ok then codes "esp32.function.succeeded" else codes "esp32.function.failed")
              c.command_name (severity_text ok);
      }

  -- From the result of the command handler on.
  unfoldable pub finish_command : SdkState W → Command → Bool → Text → SdkState W
  finish_command s c ok message =
      let message' =
        if is_empty message
        then (if ok then codes "Command handler completed" else codes "Command handler failed")
        else message in
      let s' = complete s c ok message' in
      record s' {
        world =
            world.event s'.world
              (if ok
                then codes "esp32.command-handler.succeeded"
                else codes "esp32.command-handler.failed")
              c.command_name (severity_text ok);
      }

  unfoldable pub run_command_handler : SdkState W → Command → C → Bool × SdkState W
  run_command_handler s c handler =
      let (result, (message, w)) = world.call_command handler c.command_name c.arguments s.world in
      let s' = record s { world = w } in
      elim result [
        | unhandled ↦ (false, s')
        | succeeded ↦ (true, finish_command s' c true message)
        | failed ↦ (true, finish_command s' c false message)
      ]

  -- A command that the cache does not have.
  unfoldable pub run_new : Bool → SdkState W → Command → Bool × SdkState W
  run_new has_secondary_mcu s c =
      if text_eq c.command_name (codes "requestDefinitions")
      then request_definitions has_secondary_mcu s c
      else (elim (find_function registry (some c.command_name)) [
        | some f ↦ (true, run_function s c f)
        | none ↦ elim registry.command_handler [
          | none ↦ (false, s)
          | some handler ↦ run_command_handler s c handler
        ]
      ])

  pub dispatch_sdk_command : Bool → SdkState W → Command → Bool × SdkState W
  dispatch_sdk_command has_secondary_mcu s c = elim (find s.results c.command_id) [
    | some cached ↦ (true, repeat s c cached)
    | none ↦ run_new has_secondary_mcu s c
  ]
