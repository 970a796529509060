-- ===== src/CliFrame/Wipe.antt =====
-- Resetting a frame, and dropping one that takes too long.
use nivalo_esp.CliFrame.{CliFrame, no_frame, dropped, new, wipe, expire}
use nivalo_esp.Common.{
  ℕ, zero, suc, ◌+◌, ◌^◌, ◌≤◌, ◌<◌, ◌≡◌, refl, ap, true, arith, List, [], ◌∷◌, ◌++◌, some, length,
  drop, replicate, ltb, if◌then◌else◌, u32,
}

wipe-replicate : (n : ℕ) (xs : List ℕ) → n ≤ length xs → wipe n xs ≡ replicate n 0 ++ drop n xs
unfolding wipe
wipe-replicate zero xs h = refl
wipe-replicate (suc n) [] h = absurd (omega arith)
wipe-replicate (suc n) (x ∷ xs) h = ap (◌∷◌ 0) (wipe-replicate n xs (omega arith))

-- A frame begun at `started_at` and expired `elapsed` ms later, also past the wrap of the clock, is
-- kept with its buffer while that is less than the timeout; from then on it is dropped, every cell
-- that it had filled is zero, the other cells are as they were, and the frame is a new one.
pub expire_after :
    (f : CliFrame) (elapsed : ℕ) (buffer : List ℕ)
    → f.active ≡ true
    → f.started_at < 2 ^ 32
    → elapsed < 2 ^ 32
    → f.length ≤ length buffer
    → expire f (u32 (f.started_at + elapsed)) (some buffer) ≡ (
        if ltb elapsed f.timeout_ms then (no_frame, f, some buffer) else (
          dropped,
          new f.maximum_length f.timeout_ms,
          some (replicate f.length 0 ++ drop f.length buffer),
        ))
unfolding expire new
expire_after f elapsed buffer a h k l = ground (arith, wipe-replicate f.length buffer)
