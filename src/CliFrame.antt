-- ===== src/CliFrame.antt =====
-- src/NivaloCliFrame.{h,cpp}: collecting one line from the serial port into a caller's buffer.
pub mod Store
pub mod Collect
pub mod Lines
pub mod Wipe
mod Tests
use nivalo_esp.Common.{
  ℕ, zero, suc, ◌+◌, Bool, true, false, not, ◌&&◌, ◌||◌, List, [], ◌∷◌, Option, none, some, length,
  set, ltb, leb, ◌==◌, if◌then◌else◌, sub32,
}

pub data FrameResult : Type 0 where
  no_frame ready dropped : FrameResult

-- Times are `uint32_t` milliseconds, and a `char` is its byte.
pub record CliFrame : Type 0 where
  pub maximum_length : ℕ
  pub timeout_ms : ℕ
  pub length : ℕ
  pub started_at : ℕ
  pub active : Bool
  pub discarding : Bool
  pub saw_carriage_return : Bool

pub new : ℕ → ℕ → CliFrame
new maximum_length timeout_ms = record {
  maximum_length = maximum_length;
  timeout_ms = timeout_ms;
  length = 0;
  started_at = 0;
  active = false;
  discarding = false;
  saw_carriage_return = false;
}

-- The buffer is memory of the caller: `none` is a null pointer.
abbrev pub Buffer : Type 0
Buffer = Option (List ℕ)

-- `if (!_active) { _active = true; _startedAt = now; }`
abbrev pub activate : CliFrame → ℕ → CliFrame
activate f now = if f.active then f else record f { active = true; started_at = now }

-- The rest of `push`, for a character other than the newline. A write out of range changes
-- nothing here.
pub store : CliFrame → ℕ → List ℕ → CliFrame × List ℕ
store f character buffer =
    if character == 13
    then (
      record f { discarding = f.saw_carriage_return || f.discarding; saw_carriage_return = true },
      buffer,
    )
    else (if f.saw_carriage_return
          || character == 0
          || f.discarding
          || leb f.maximum_length f.length
        then (record f { discarding = true }, buffer)
        else (record f { length = f.length + 1 }, set buffer f.length character))

pub push : CliFrame → ℕ → ℕ → Buffer → FrameResult × CliFrame × Buffer
unfolding store
push f character now none = (dropped, f, none)
push f character now (some buffer) =
    if character == 10
    then (if not f.discarding && ltb 0 f.length then ready else dropped, f, some buffer)
    else (let (f', buffer') = store (activate f now) character buffer in
        (no_frame, f', some buffer'))

-- The wipe of the first `n` cells.
wipe : ℕ → List ℕ → List ℕ
wipe zero buffer = buffer
wipe (suc n) [] = []
wipe (suc n) (x ∷ xs) = 0 ∷ wipe n xs

wipe_buffer : ℕ → Buffer → Buffer
unfolding wipe
wipe_buffer n none = none
wipe_buffer n (some buffer) = some (wipe n buffer)

pub reset : CliFrame → Buffer → CliFrame × Buffer
unfolding wipe_buffer
reset f buffer = (
  record f {
    length = 0;
    started_at = 0;
    active = false;
    discarding = false;
    saw_carriage_return = false;
  },
  wipe_buffer f.length buffer,
)

pub expire : CliFrame → ℕ → Buffer → FrameResult × CliFrame × Buffer
unfolding reset
expire f now buffer =
    if not f.active || ltb (sub32 now f.started_at) f.timeout_ms
    then (no_frame, f, buffer)
    else (let (f', buffer') = reset f buffer in (dropped, f', buffer'))
