-- ===== src/TimePolicy/Delays.antt =====
-- The retry delay in closed form, and the clock comparisons across the wrap.
use native.Mathlib.Decide.{dec_lt}
use native.Mathlib.Nat.{pow-suc, one-le-pow}
use nivalo_esp.TimePolicy.{capped, elapsed, retry_due, delay_loop, retry_delay}
use nivalo_esp.Common.{ℕ, zero, suc, ◌+◌, ◌*◌, ◌/◌, ◌-◌, ◌^◌, ◌≤◌, ◌<◌, ◌≡◌, arith, min, leb, u32}

grows : (d t : ℕ) → 1 ≤ t → d * 2 ≤ d * (2 * t)
grows d t h = grind arith

delay_loop_closed :
    (rounds delay maximum : ℕ)
    → delay < 2 ^ 32
    → maximum < 2 ^ 32
    → delay_loop rounds delay maximum ≡ min maximum (delay * 2 ^ rounds)
unfolding delay_loop capped
delay_loop_closed zero delay maximum h k = ground arith
delay_loop_closed (suc rounds) delay maximum h k = elim (dec_lt (maximum / 2) delay) [
  | yes large ↦ ground (arith, pow-suc 2 rounds, one-le-pow rounds 2, grows delay (2 ^ rounds))
  | no small ↦
      let e : u32 (delay * 2) ≡ delay * 2 = omega arith in
      let ih : delay_loop rounds (u32 (delay * 2)) maximum ≡ min maximum (delay * 2 * 2 ^ rounds) =
        rw e (delay_loop_closed rounds (delay * 2) maximum (omega arith) k) in
      ground (arith, ih, pow-suc 2 rounds, one-le-pow rounds 2, grows delay (2 ^ rounds))
]

-- With 32-bit base and limit, the delay after `failed` attempts is the base delay doubled for each
-- failed attempt but the first, and at most the limit; the doubling never wraps.
pub retry_delay_closed :
    (failed base maximum : ℕ)
    → base < 2 ^ 32
    → maximum < 2 ^ 32
    → retry_delay failed base maximum ≡ min maximum (base * 2 ^ (failed - 1))
unfolding retry_delay
retry_delay_closed failed base maximum h k = delay_loop_closed (failed - 1) base maximum h k

-- A retry set `delay` ms ahead at `now` is due `waited` ms later exactly if the delay is over, and
-- an interval begun at `now` has elapsed then exactly if it is no longer than `waited`; the clock
-- may wrap in between. Both spans are below 2^31 ms.
due_after :
    (now delay waited : ℕ)
    → now < 2 ^ 32
    → delay < 2 ^ 31
    → waited < 2 ^ 31
    → (retry_due (u32 (now + waited)) (u32 (now + delay)) ≡ leb delay waited)
      × (elapsed (u32 (now + waited)) now delay ≡ leb delay waited)
unfolding retry_due elapsed
due_after now delay waited h k l = (ground arith, ground arith)
