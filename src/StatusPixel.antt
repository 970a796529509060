-- ===== src/StatusPixel.antt =====
-- src/NivaloStatusPixel.cpp: the brightness of the status light, and the colours of its rainbow. The
-- light itself is not modelled. Numbers are `uint8_t`.
pub mod Cycle
use nivalo_esp.Common.{ℕ, ◌+◌, ◌*◌, ◌-◌, Bool, true, false, ◌&&◌, ltb, if◌then◌else◌, u8}

pub record StatusPixel : Type 0 where
  pub brightness : ℕ
  pub max_brightness : ℕ
  pub loop_count : ℕ
  pub increasing : Bool

pub initial : StatusPixel
initial = record { brightness = 10; max_brightness = 15; loop_count = 0; increasing = true }

-- What `pulse` does when its counter is over.
step_brightness : StatusPixel → StatusPixel
step_brightness p =
    if p.increasing && ltb p.brightness p.max_brightness
    then record p { brightness = u8 (p.brightness + 1) }
    else (if p.increasing
        then record p { increasing = false; brightness = u8 (p.brightness + 255) }
        else (if ltb 1 p.brightness
            then record p { brightness = u8 (p.brightness + 255) }
            else record p { increasing = true; brightness = u8 (p.brightness + 1) }))

pub pulse : StatusPixel → StatusPixel
unfolding step_brightness
pulse p =
    let counted = record p { loop_count = u8 (p.loop_count + 1) } in
    if ltb p.loop_count 30 then counted else step_brightness (record p { loop_count = 0 })

-- The red, green and blue of `Color`, which takes `uint8_t`s.
pub wheel : ℕ → ℕ × ℕ × ℕ
wheel position =
    let p = u8 (255 + 256 - position) in
    if ltb p 85
    then (u8 (255 + 256 * 3 - p * 3), 0, u8 (p * 3))
    else (if ltb p 170
        then (let q = u8 (p + 256 - 85) in (0, u8 (q * 3), u8 (255 + 256 * 3 - q * 3)))
        else (let q = u8 (p + 256 - 170) in (u8 (q * 3), u8 (255 + 256 * 3 - q * 3), 0)))
