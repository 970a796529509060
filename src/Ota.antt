-- ===== src/Ota.antt =====
-- src/NivaloDeviceOta.cpp, src/NivaloOta.{h,cpp}: what a firmware command works on, and the session that
-- it opens. The HTTP client, the file system, the updater, the programmer and what a device
-- publishes are parameters. Logs, delays, the watchdog and the timeouts of the client are left out.
pub mod Files
pub mod Download
pub mod Recovery
pub mod Stm32
pub mod Command
pub mod Parts
pub mod Answers
pub mod ReadBack
pub mod Staging
pub mod Kept
pub mod Image
pub mod Programmed
pub mod Flashed
pub mod Example
mod Tests
use nivalo_esp.Common.{
  ℕ, ◌/◌, Bool, true, false, not, List, ◌∷◌, Option, none, if◌then◌else◌, Text, is_empty,
}

-- The statuses of an acknowledgment that the file sends.
pub data AckStatus : Type 0 where
  running : AckStatus
  succeeded : AckStatus
  failed : AckStatus

-- `portion d e` is 5 and d / e of 30 more.
pub data Progress : Type 0 where
  percent : ℕ → Progress
  portion : ℕ → ℕ → Progress

-- A call whose result is not used. `event` is `publishEvent`, `ack` is `publishCommandAck`, and
-- `close_file` is `flush` and `close`.
pub data Action : Type 0 where
  ack : AckStatus → Text → Option Progress → Action
  event : Text → Text → Text → Action
  client_loop : Action
  set_paused : Bool → Action
  release_pins : Action
  http_end : Action
  rainbow : Action
  remove : Text → Action
  close_file : Text → Action
  program_prepare : ℕ → ℕ → Action
  dap_begin : Action
  dap_debugger_info : Action
  dap_deselect : Action
  dap_disconnect : Action
  mqtt_reconnect : Action
  init : Action
  restart : Action

-- The code of an answer, or the text of an error.
pub data Response : Type 0 where
  code : ℕ → Response
  error : Text → Response

-- What a round of the download sees: the time, and the bytes that are read, if any are available. The
-- write is that of these bytes.
pub record Round : Type 0 where
  pub now : ℕ
  pub received : Option (List ℕ)
  pub written : Bool

-- The calls whose results are used. `http_size` has `none` for -1, `http_rounds` has the rounds while the
-- client is connected, and `file_size` has `none` where the file cannot be opened. `file_read` has the
-- path, the position and the count.
pub record OtaWorld (W : Type 0) : Type 0 where
  pub perform : W → Action → W
  pub millis : W → ℕ
  pub http_begin : W → Text → Bool × W
  pub http_get : W → Response × W
  pub http_size : W → Option ℕ
  pub http_rounds : W → List Round
  pub received : W → List Round → W
  pub spiffs_begin : W → Bool × W
  pub free_storage : W → ℕ
  pub open_write : W → Text → Bool × W
  pub file_size : W → Text → Option ℕ
  pub file_read : W → Text → ℕ → ℕ → List ℕ × W
  pub file_append : W → Text → List ℕ → Bool × W
  pub sha_starts : W → Bool × W
  pub sha_update : W → List ℕ → Bool × W
  pub sha_finish : W → Bool × W
  pub sha256 : List ℕ → List ℕ
  pub update_begin : W → ℕ → Bool × W
  pub update_write : W → Text → ℕ × W
  pub update_end : W → Bool × W
  pub update_has_error : W → Bool
  pub update_error : W → Text
  pub target_connect : W → Bool × W
  pub dap_error : W → Text
  pub select : W → Bool × W
  pub flash_size : W → ℕ
  pub dap_read_block : W → ℕ → ℕ → Option (List ℕ) × W
  pub program_flash : W → ℕ → List ℕ → Bool × W

-- What a firmware command changes. The trace has the calls of the handler whose results are not used,
-- the last one first.
pub record OtaState (W : Type 0) : Type 0 where
  pub world : W
  pub trace : List Action
  pub download_closed : Bool
  pub acceptance_pending : Bool

-- A part of the handler goes on, or the handler returns, or it restarts the device.
pub data Outcome (A : Type 0) : Type 0 where
  go : A → Outcome A
  returned : Outcome A
  restarted : Outcome A

abbrev pub Run : Type 0 → Type 0 → Type 0
Run W A = OtaState W → Outcome A × OtaState W

abbrev pub and_then :
    {W A B : Type 0} → Outcome A × OtaState W → (A → Run W B) → Outcome B × OtaState W
and_then (go a, s) f = f a s
and_then (returned, s) f = (returned, s)
and_then (restarted, s) f = (restarted, s)

infixl 5 ◌>>=◌ ◌>>◌
abbrev pub ◌>>=◌ : {W A B : Type 0} → Run W A → (A → Run W B) → Run W B
◌>>=◌ m f s = and_then (m s) f

abbrev pub ◌>>◌ : {W A B : Type 0} → Run W A → Run W B → Run W B
◌>>◌ m k s = and_then (m s) (λ _. k)

abbrev pub pure : {W A : Type 0} → A → Run W A
pure a s = (go a, s)

abbrev pub stop : {W A : Type 0} → Run W A
stop s = (returned, s)

module _ {W : Type 0} (io : OtaWorld W) where
  pub emit : Action → OtaState W → OtaState W
  emit a s = record s { world = io.perform s.world a; trace = a ∷ s.trace }

  abbrev pub call : Action → Run W (Unit {0})
  call a s = (go tt, emit a s)

  -- A call whose result is used.
  abbrev pub ask : {A : Type 0} → (W → A × W) → Run W A
  ask f s = let (a, w) = f s.world in (go a, record s { world = w })

  -- `NivaloOtaSession::closeDownload`.
  pub close_download : OtaState W → OtaState W
  unfolding emit
  close_download s =
      if s.download_closed then s else record (emit http_end s) { download_closed = true }

  -- The constructor of the session, and its destructor.
  pub open_session : OtaState W → OtaState W
  unfolding emit
  open_session s = emit release_pins (emit (set_paused true) (record s { download_closed = false }))

  pub close_session : OtaState W → OtaState W
  unfolding emit close_download
  close_session s = emit release_pins (emit (set_paused false) (close_download s))

  module _ (command_id : Text) where
    -- An acknowledgment, if the command has an identifier.
    pub acknowledge : AckStatus → Text → Option Progress → OtaState W → OtaState W
    unfolding emit
    acknowledge status message progress s =
        if is_empty command_id then s else emit (ack status message progress) s

    -- The command fails and the handler returns; `fail_with` publishes an event first.
    abbrev pub fail : {A : Type 0} → Text → Run W A
    fail reason s = (returned, acknowledge failed reason none s)

    abbrev pub fail_with : {A : Type 0} → Text → Text → Text → Run W A
    fail_with name reason severity s =
        (returned, acknowledge failed reason none (emit (event name reason severity) s))
