-- ===== src/Reconnect/Backoff.antt =====
-- How long a failed connection waits, across the wrap of the millisecond clock.
use native.Mathlib.Nat.{pow-suc, one-le-pow}
use native.Mathlib.Decide.{dec_le}
use nivalo_esp.Common.{
  refl, true, ℕ, ◌+◌, ◌*◌, ◌/◌, ◌%◌, ◌^◌, ◌≤◌, ◌<◌, ◌≡◌, arith, List, [], ◌∷◌, min, u32, length,
  leb,
}
use nivalo_esp.Reconnect.{ReconnectPolicy, reset, is_attempt_due, on_failure}

-- The state after a run of failures, each with the time and the random word that it saw.
abbrev pub failures : ReconnectPolicy → List (ℕ × ℕ) → ReconnectPolicy
failures p [] = p
failures p ((now, entropy) ∷ rest) = failures (on_failure p now entropy) rest

pub record IsValid (p : ReconnectPolicy) : Type 0 where
  pub at_least : 1000 ≤ p.backoff_ms
  pub at_most : p.backoff_ms ≤ 60000

pub reset-IsValid : IsValid reset
unfolding reset
reset-IsValid = record { at_least = omega arith; at_most = omega arith }

pub reset_due : (now : ℕ) → is_attempt_due reset now ≡ true
unfolding reset is_attempt_due
reset_due now = refl

pub on_failure-IsValid :
    {p : ReconnectPolicy} (now entropy : ℕ) → IsValid p → IsValid (on_failure p now entropy)
unfolding on_failure
on_failure-IsValid now entropy v = ground arith

backoff-on_failure :
    (p : ReconnectPolicy) (now entropy : ℕ)
    → IsValid p
    → (on_failure p now entropy).backoff_ms ≡ min 60000 (2 * p.backoff_ms)
unfolding on_failure
backoff-on_failure p now entropy v = ground arith

doubled_min :
    (b x t : ℕ) → x ≡ min 60000 (2 * b) → 1 ≤ t → min 60000 (x * t) ≡ min 60000 (b * (2 * t))
doubled_min b x t e h = elim (dec_le (2 * b) 60000) [
  | yes small ↦ let e' : x ≡ 2 * b = omega arith in rw e' (omega arith)
  | no large ↦
      let e' : x ≡ 60000 = omega arith in
      let one : b * 2 ≤ b * (2 * t) = grind arith in rw e' (omega arith)
]

backoff-failures :
    (p : ReconnectPolicy) (es : List (ℕ × ℕ))
    → IsValid p
    → (failures p es).backoff_ms ≡ min 60000 (p.backoff_ms * 2 ^ length es)
backoff-failures p [] v = omega arith
backoff-failures p ((now, entropy) ∷ rest) v = ground (
  arith,
  backoff-failures (on_failure p now entropy) rest (on_failure-IsValid now entropy v),
  backoff-on_failure p now entropy v,
  doubled_min p.backoff_ms (on_failure p now entropy).backoff_ms (2 ^ length rest),
  pow-suc 2 (length rest),
  one-le-pow (length rest) 2,
)

-- After `n` failures in a row from `reset` the backoff is 1000 ms doubled `n` times, but at most
-- 60000 ms.
pub backoff_doubles :
    (es : List (ℕ × ℕ)) → (failures reset es).backoff_ms ≡ min 60000 (1000 * 2 ^ length es)
unfolding reset
backoff_doubles es = backoff-failures reset es (omega arith)

-- The wait that a failure with this random word leads to.
abbrev pub wait_ms : ReconnectPolicy → ℕ → ℕ
wait_ms p entropy = p.backoff_ms + entropy % (p.backoff_ms / 4 + 1)

-- From a policy whose backoff is within its limits, a failure at `now` leads to a wait between the
-- backoff and a quarter more; at any time less than 2^31 ms after the failure, also past the wrap
-- of the clock, an attempt is due exactly if that wait is over.
pub wait_after_failure :
    (p : ReconnectPolicy) (now entropy elapsed : ℕ)
    → IsValid p
    → now < 2 ^ 32
    → elapsed < 2 ^ 31
    → (p.backoff_ms ≤ wait_ms p entropy)
      × (wait_ms p entropy ≤ p.backoff_ms + p.backoff_ms / 4)
      × (is_attempt_due (on_failure p now entropy) (u32 (now + elapsed))
          ≡ leb (wait_ms p entropy) elapsed)
unfolding is_attempt_due on_failure
wait_after_failure p now entropy elapsed v h k = (ground arith, ground arith, ground arith)
