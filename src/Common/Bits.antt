-- ===== src/Common/Bits.antt =====
-- The laws of `|`, `&` and `^` on words that the code's shifts and masks need. The library defines
-- each operation by a recursion on binary digits with fuel; here the fuel is dropped.
use Prim.Native.Nat.{
  ℕ, zero, suc, ◌+◌, ◌-◌, ◌*◌, ◌/◌, ◌%◌, ◌^◌, ◌≤◌, ◌<◌, min, max, bit_and, bit_or, bit_xor, digits,
  bitwise, differ, bit_and-bitwise, bit_or-bitwise, bit_xor-bitwise,
}
use mathlib.Core.Path.{◌≡◌, refl, sym, ap, ◌∙◌}
use native.Mathlib.Omega.{arith}
use native.Mathlib.Nat.{pow-suc, one-le-pow, le_refl}

-- `digits` with enough fuel does not depend on it.
fuel_irrelevant :
    (z : ℕ → ℕ) (op : ℕ → ℕ → ℕ) (k l x y : ℕ)
    → x ≤ k
    → x ≤ l
    → digits z op k x y ≡ digits z op l x y
fuel_irrelevant z op zero zero x y h h' = refl
fuel_irrelevant z op zero (suc l) zero y h h' = refl
fuel_irrelevant z op zero (suc l) (suc x) y h h' = absurd (omega arith)
fuel_irrelevant z op (suc k) zero zero y h h' = refl
fuel_irrelevant z op (suc k) zero (suc x) y h h' = absurd (omega arith)
fuel_irrelevant z op (suc k) (suc l) zero y h h' = refl
fuel_irrelevant z op (suc k) (suc l) (suc x) y h h' =
    rw (fuel_irrelevant z op k l (suc x / 2) (y / 2) (omega arith) (omega arith))

halves :
    (z : ℕ → ℕ) (op : ℕ → ℕ → ℕ) (x y : ℕ)
    → bitwise z op (suc x) y ≡ bitwise z op (suc x / 2) (y / 2) * 2 + op (suc x % 2) (y % 2)
halves z op x y =
    omega (arith, fuel_irrelevant z op x (suc x / 2) (suc x / 2) (y / 2) (omega arith) (le_refl _))

pub bit_or_step : (x y : ℕ) → bit_or x y ≡ bit_or (x / 2) (y / 2) * 2 + max (x % 2) (y % 2)
bit_or_step zero y = simp bit_or-bitwise (omega arith)
bit_or_step (suc x) y = simp bit_or-bitwise (halves (λ b. b) max x y)

pub bit_and_step : (x y : ℕ) → bit_and x y ≡ bit_and (x / 2) (y / 2) * 2 + min (x % 2) (y % 2)
bit_and_step zero y = simp bit_and-bitwise (omega arith)
bit_and_step (suc x) y = simp bit_and-bitwise (halves (λ b. 0) min x y)

differ_digits : (x y : ℕ) → x < 2 → y < 2 → differ x y ≡ (x + y) % 2
differ_digits zero y h k = omega arith
differ_digits (suc zero) zero h k = refl
differ_digits (suc zero) (suc zero) h k = refl
differ_digits (suc zero) (suc (suc y)) h k = absurd (omega arith)
differ_digits (suc (suc x)) y h k = absurd (omega arith)

-- The lowest digit of `x ^ y` is the sum of the two, without the carry.
pub bit_xor_step : (x y : ℕ) → bit_xor x y ≡ bit_xor (x / 2) (y / 2) * 2 + (x + y) % 2
bit_xor_step zero y = simp bit_xor-bitwise (omega arith)
bit_xor_step (suc x) y = simp bit_xor-bitwise (
    omega (
      arith,
      halves (λ b. b) differ x y,
      differ_digits (suc x % 2) (y % 2) (omega arith) (omega arith),
    ))

bit_and-zero_width : (k x : ℕ) → x < 2 ^ k → bit_and x 0 ≡ 0
bit_and-zero_width zero zero h = refl
bit_and-zero_width zero (suc x) h = absurd (omega arith)
bit_and-zero_width (suc k) x h = omega (
  arith,
  bit_and_step x 0,
  pow-suc 2 k,
  bit_and-zero_width k (x / 2) (omega (arith, pow-suc 2 k)),
)

lt-two-pow : (x : ℕ) → x < 2 ^ x
lt-two-pow zero = omega arith
lt-two-pow (suc x) = omega (arith, lt-two-pow x, pow-suc 2 x)

pub bit_and-zero : (x : ℕ) → bit_and x 0 ≡ 0
bit_and-zero x = bit_and-zero_width x x (lt-two-pow x)

twice-mul : (q k : ℕ) → q * 2 ^ suc k ≡ 2 * (q * 2 ^ k)
twice-mul q k = omega (arith, ap (λ (t : ℕ). q * t) (pow-suc 2 k))

bit_and_low : (k q r : ℕ) → r < 2 ^ k → bit_and (q * 2 ^ k + r) (2 ^ k - 1) ≡ r
bit_and_low zero q r h = omega (arith, bit_and-zero (q * 2 ^ 0 + r))
bit_and_low (suc k) q r h =
    let half : (q * 2 ^ suc k + r) / 2 ≡ q * 2 ^ k + r / 2 = omega (arith, twice-mul q k) in
    let mask : (2 ^ suc k - 1) / 2 ≡ 2 ^ k - 1 = omega (arith, pow-suc 2 k, one-le-pow k 2) in
    ground (
      arith,
      half,
      mask,
      bit_and_step (q * 2 ^ suc k + r) (2 ^ suc k - 1),
      twice-mul q k,
      pow-suc 2 k,
      one-le-pow k 2,
      bit_and_low k q (r / 2),
    )

-- `&` with a mask of `k` low ones is the remainder by 2 ^ k.
pub bit_and_mask : (k x : ℕ) → bit_and x (2 ^ k - 1) ≡ x % 2 ^ k
bit_and_mask k x = ground (arith, one-le-pow k 2, bit_and_low k (x / 2 ^ k) (x % 2 ^ k))

-- `|` of a low field of `k` digits and a field above it is their sum.
pub bit_or_fields : (k low high : ℕ) → low < 2 ^ k → bit_or low (high * 2 ^ k) ≡ low + high * 2 ^ k
bit_or_fields zero zero high h = simp bit_or-bitwise (omega arith)
bit_or_fields zero (suc low) high h = absurd (omega arith)
bit_or_fields (suc k) low high h =
    let half : high * 2 ^ suc k / 2 ≡ high * 2 ^ k = omega (arith, twice-mul high k) in
    ground (
      arith,
      half,
      bit_or_step low (high * 2 ^ suc k),
      twice-mul high k,
      pow-suc 2 k,
      bit_or_fields k (low / 2) high,
    )

pub bit_xor-lt : (k x y : ℕ) → x < 2 ^ k → y < 2 ^ k → bit_xor x y < 2 ^ k
bit_xor-lt zero zero zero h h' = omega arith
bit_xor-lt zero zero (suc y) h h' = absurd (omega arith)
bit_xor-lt zero (suc x) y h h' = absurd (omega arith)
bit_xor-lt (suc k) x y h h' =
    ground (arith, bit_xor_step x y, pow-suc 2 k, bit_xor-lt k (x / 2) (y / 2))

pub bit_xor_comm : (k x y : ℕ) → x < 2 ^ k → y < 2 ^ k → bit_xor x y ≡ bit_xor y x
bit_xor_comm zero zero zero h h' = refl
bit_xor_comm zero zero (suc y) h h' = absurd (omega arith)
bit_xor_comm zero (suc x) y h h' = absurd (omega arith)
bit_xor_comm (suc k) x y h h' =
    ground (arith, bit_xor_step x y, bit_xor_step y x, pow-suc 2 k, bit_xor_comm k (x / 2) (y / 2))

-- `^` by the same word twice changes nothing.
pub bit_xor_cancel : (k x y : ℕ) → x < 2 ^ k → y < 2 ^ k → bit_xor (bit_xor x y) y ≡ x
bit_xor_cancel zero zero zero h h' = refl
bit_xor_cancel zero zero (suc y) h h' = absurd (omega arith)
bit_xor_cancel zero (suc x) y h h' = absurd (omega arith)
bit_xor_cancel (suc k) x y h h' =
    let half : bit_xor x y / 2 ≡ bit_xor (x / 2) (y / 2) = omega (arith, bit_xor_step x y) in
    ground (
      arith,
      half,
      bit_xor_step x y,
      bit_xor_step (bit_xor x y) y,
      pow-suc 2 k,
      bit_xor_cancel k (x / 2) (y / 2),
    )

-- A digit above the first word is kept.
pub bit_xor_top : (k x q : ℕ) → x < 2 ^ k → q < 2 ^ k → bit_xor x (2 ^ k + q) ≡ 2 ^ k + bit_xor x q
bit_xor_top zero zero zero h h' = refl
bit_xor_top zero zero (suc q) h h' = absurd (omega arith)
bit_xor_top zero (suc x) q h h' = absurd (omega arith)
bit_xor_top (suc k) x q h h' =
    let half : (2 ^ suc k + q) / 2 ≡ 2 ^ k + q / 2 = omega (arith, pow-suc 2 k) in
    ground (
      arith,
      half,
      bit_xor_step x q,
      bit_xor_step x (2 ^ suc k + q),
      pow-suc 2 k,
      bit_xor_top k (x / 2) (q / 2),
    )

pub bit_xor_injective :
    (k x y z : ℕ) → x < 2 ^ k → y < 2 ^ k → z < 2 ^ k → bit_xor x z ≡ bit_xor y z → x ≡ y
bit_xor_injective k x y z hx hy hz e =
    sym (bit_xor_cancel k x z hx hz) ∙ ap (λ t. bit_xor t z) e ∙ bit_xor_cancel k y z hy hz

pub zero-bit_xor : (y : ℕ) → bit_xor 0 y ≡ y
zero-bit_xor y = bit_xor-bitwise 0 y

pub bit_xor-zero : (k x : ℕ) → x < 2 ^ k → bit_xor x 0 ≡ x
bit_xor-zero k x h = bit_xor_comm k x 0 h (omega (arith, one-le-pow k 2)) ∙ zero-bit_xor x
