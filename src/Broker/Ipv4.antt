-- ===== src/Broker/Ipv4.antt =====
-- Reading an address in dotted notation is the inverse of writing it.
use native.Mathlib.Decide.{dec_lt}
use nivalo_esp.Broker.{Ipv4State, ipv4_step, ipv4_loop, parse_ipv4_address}
use nivalo_esp.Common.{
  ℕ, ◌+◌, ◌*◌, ◌/◌, ◌%◌, ◌≤◌, ◌<◌, ◌≡◌, refl, ap, ◌∙◌, arith, List, [], ◌∷◌, ◌++◌, Option, none,
  some, length, ltb, if◌then◌else◌, Text,
}

-- A number below 1000 in decimal notation.
abbrev pub decimal : ℕ → Text
decimal n =
    if ltb n 10
    then (b'0' + n) ∷ []
    else (if ltb n 100
        then (b'0' + n / 10) ∷ (b'0' + n % 10) ∷ []
        else (b'0' + n / 100) ∷ (b'0' + n / 10 % 10) ∷ (b'0' + n % 10) ∷ [])

abbrev pub dotted : ℕ → ℕ → ℕ → ℕ → Text
dotted a b c d = decimal a ++ b'.' ∷ (decimal b ++ b'.' ∷ (decimal c ++ b'.' ∷ (decimal d ++ [])))

abbrev state : List ℕ → ℕ → ℕ → Ipv4State
state octets value digit_count = record {
  octets = octets;
  value = value;
  digit_count = digit_count;
}

-- The digits of an octet and the state behind them.
pub record IsRead (octets : List ℕ) (n : ℕ) : Type 0 where
  count : ℕ
  some_digits : 1 ≤ count
  read :
      (rest : Text)
      → ipv4_loop (state octets 0 0) (decimal n ++ rest) ≡ ipv4_loop (state octets n count) rest

module _ (octets : List ℕ) where
  step-digit :
      (value k d : ℕ)
      → d < 10
      → value * 10 + d ≤ 255
      → k < 3
      → ipv4_step (state octets value k) (b'0' + d) ≡ some (state octets (value * 10 + d) (k + 1))
  unfolding ipv4_step
  step-digit value k d h l m = ground arith

  loop-digit :
      (value k d : ℕ) (rest : Text)
      → d < 10
      → value * 10 + d ≤ 255
      → k < 3
      → ipv4_loop (state octets value k) ((b'0' + d) ∷ rest)
        ≡ ipv4_loop (state octets (value * 10 + d) (k + 1)) rest
  unfolding ipv4_loop
  loop-digit value k d rest h l m =
      ap (λ o. elim o as (λ _. Option (List ℕ)) [ none ↦ none | some s' ↦ ipv4_loop s' rest ])
        (step-digit value k d h l m)

  loop-dot :
      (value k : ℕ) (rest : Text)
      → 1 ≤ k
      → length octets < 4
      → ipv4_loop (state octets value k) (b'.' ∷ rest)
        ≡ ipv4_loop (state (octets ++ value ∷ []) 0 0) rest
  unfolding ipv4_loop
  loop-dot value k rest h l =
      let step : ipv4_step (state octets value k) b'.' ≡ some (state (octets ++ value ∷ []) 0 0) =
        unfold ipv4_step in ground arith in
      ap (λ o. elim o as (λ _. Option (List ℕ)) [ none ↦ none | some s' ↦ ipv4_loop s' rest ]) step

  one_digit : (n : ℕ) → n < 10 → decimal n ≡ (b'0' + n) ∷ []
  one_digit n h = ground arith

  two_digits : (n : ℕ) → 10 ≤ n → n < 100 → decimal n ≡ (b'0' + n / 10) ∷ (b'0' + n % 10) ∷ []
  two_digits n h l = ground arith

  three_digits :
      (n : ℕ) → 100 ≤ n → decimal n ≡ (b'0' + n / 100) ∷ (b'0' + n / 10 % 10) ∷ (b'0' + n % 10) ∷ []
  three_digits n h = ground arith

  loop-value :
      (v w k : ℕ) (rest : Text)
      → v ≡ w
      → ipv4_loop (state octets v k) rest ≡ ipv4_loop (state octets w k) rest
  loop-value v w k rest e = ap (λ x. ipv4_loop (state octets x k) rest) e

  loop-first :
      (d : ℕ) (rest : Text)
      → d < 10
      → ipv4_loop (state octets 0 0) ((b'0' + d) ∷ rest) ≡ ipv4_loop (state octets d 1) rest
  loop-first d rest h =
      loop-digit 0 0 d rest h (omega arith) (omega arith)
      ∙ loop-value (0 * 10 + d) d 1 rest (omega arith)

  IsRead-decimal : (n : ℕ) → n < 256 → IsRead octets n
  IsRead-decimal n h = elim (dec_lt n 10) [
    | yes one ↦ record {
      count = 1;
      some_digits = omega arith;
      read = λ rest. rw (one_digit n one) (loop-first n rest one);
    }
    | no more ↦ elim (dec_lt n 100) [
      | yes two ↦ record {
        count = 2;
        some_digits = omega arith;
        read = λ rest. rw (two_digits n (omega arith) two) (
            loop-first (n / 10) _ (omega arith)
            ∙ loop-digit (n / 10) 1 (n % 10) rest (omega arith) (omega arith) (omega arith)
            ∙ loop-value _ n 2 rest (omega arith));
      }
      | no three ↦ record {
        count = 3;
        some_digits = omega arith;
        read = λ rest. rw (three_digits n (omega arith)) (
            loop-first (n / 100) _ (omega arith)
            ∙ loop-digit (n / 100) 1 (n / 10 % 10) _ (omega arith) (omega arith) (omega arith)
            ∙ loop-digit (n / 100 * 10 + n / 10 % 10) 2 (n % 10) rest (omega arith) (omega arith)
                (omega arith)
            ∙ loop-value _ n 3 rest (omega arith));
      }
    ]
  ]

  loop-octet :
      (n : ℕ) (rest : Text)
      → n < 256
      → length octets < 4
      → ipv4_loop (state octets 0 0) (decimal n ++ b'.' ∷ rest)
        ≡ ipv4_loop (state (octets ++ n ∷ []) 0 0) rest
  loop-octet n rest h l =
      let r = IsRead-decimal n h in r.read (b'.' ∷ rest) ∙ loop-dot n r.count rest r.some_digits l

  loop-last :
      (n : ℕ)
      → n < 256
      → length octets ≡ 3
      → ipv4_loop (state octets 0 0) (decimal n ++ []) ≡ some (octets ++ n ∷ [])
  loop-last n h l =
      let r = IsRead-decimal n h in
      let positive = r.some_digits in
      let ends : ipv4_loop (state octets n r.count) [] ≡ some (octets ++ n ∷ []) =
        unfold ipv4_loop in ground arith in
      r.read [] ∙ ends

-- The four octets of an address in dotted notation are read back.
pub parse-dotted :
    (a b c d : ℕ)
    → a < 256
    → b < 256
    → c < 256
    → d < 256
    → parse_ipv4_address (dotted a b c d) ≡ some (a ∷ b ∷ c ∷ d ∷ [])
unfolding parse_ipv4_address
parse-dotted a b c d h k l m =
    loop-octet [] a _ h (omega arith)
    ∙ loop-octet (a ∷ []) b _ k (omega arith)
    ∙ loop-octet (a ∷ b ∷ []) c _ l (omega arith)
    ∙ loop-last (a ∷ b ∷ c ∷ []) d m refl
