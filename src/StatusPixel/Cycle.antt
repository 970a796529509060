-- ===== src/StatusPixel/Cycle.antt =====
-- How the brightness and the colours run.
use nivalo_esp.StatusPixel.{StatusPixel, step_brightness, pulse, wheel}
use nivalo_esp.Common.{ℕ, zero, suc, ◌+◌, ◌≤◌, ◌<◌, ◌≡◌, ◌⊎◌, refl, sym, ap, subst, ◌∙◌, arith}

abbrev pub pulses : ℕ → StatusPixel → StatusPixel
pulses zero p = p
pulses (suc n) p = pulse (pulses n p)

-- The brightness is neither 0 nor above its limit, and the counter has not run over.
pub record IsValid (p : StatusPixel) : Type 0 where
  pub lit : 1 ≤ p.brightness
  pub limited : p.brightness ≤ 15
  pub limit : p.max_brightness ≡ 15
  pub counting : p.loop_count ≤ 30

pub pulse-IsValid : (p : StatusPixel) → IsValid p → IsValid (pulse p)
unfolding pulse step_brightness
pulse-IsValid p v = ground arith

abbrev counted : StatusPixel → ℕ → StatusPixel
counted p n = record p { loop_count = n }

pulse-counted : (p : StatusPixel) (n : ℕ) → n < 30 → pulse (counted p n) ≡ counted p (suc n)
unfolding pulse
pulse-counted p n h = ground arith

pulses-counted : (n : ℕ) (p : StatusPixel) → p.loop_count ≡ 0 → n ≤ 30 → pulses n p ≡ counted p n
pulses-counted zero p e h = λ i. record {
  brightness = p.brightness;
  max_brightness = p.max_brightness;
  loop_count = e i;
  increasing = p.increasing;
}
pulses-counted (suc n) p e h =
    ap pulse (pulses-counted n p e (omega arith)) ∙ pulse-counted p n (omega arith)

-- The pulse that ends a count.
abbrev Stepped : StatusPixel → StatusPixel → Type 0
Stepped p p' =
    IsValid p'
    × (p'.loop_count ≡ 0)
    × ((p'.brightness ≡ p.brightness + 1) ⊎ (p.brightness ≡ p'.brightness + 1))

pulse-Stepped : (p : StatusPixel) → IsValid p → p.loop_count ≡ 30 → Stepped p (pulse p)
unfolding pulse step_brightness
pulse-Stepped p v e = ground arith

-- In a valid state in which a count begins, 31 pulses change the brightness by exactly one, and
-- the state is again valid and a count begins.
pulse_cycle :
    (p : StatusPixel)
    → IsValid p
    → p.loop_count ≡ 0
    → let p' = pulses 31 p in
      IsValid p'
      × (p'.loop_count ≡ 0)
      × ((p'.brightness ≡ p.brightness + 1) ⊎ (p.brightness ≡ p'.brightness + 1))
pulse_cycle p v e =
    subst (Stepped p) (sym (ap pulse (pulses-counted 30 p e (omega arith))))
      (pulse-Stepped (counted p 30) (ground arith) refl)

-- At every position of the wheel the three colours are bytes that add up to 255.
wheel_sum :
    (position : ℕ)
    → position < 256
    → let (red, green, blue) = wheel position in
      (red + green + blue ≡ 255) × (red < 256) × (green < 256) × (blue < 256)
unfolding wheel
wheel_sum position h = ground arith
