-- ===== src/Broker/Local.antt =====
-- Which addresses and names are local.
use nivalo_esp.Broker.{
  ipv4_loop, before, to_lower, to_lower_case, strip_dots, ends_with, normalize, is_digit,
  is_private, has_dot, is_local_ipv6_address, is_local_broker_host, parse_ipv4_address,
}
use nivalo_esp.Broker.Ipv4.{decimal, dotted, parse-dotted}
use nivalo_esp.Common.{
  ℕ, zero, suc, ◌+◌, ◌*◌, ◌/◌, ◌-◌, ◌^◌, ◌≤◌, ◌<◌, ◌≡◌, ◌⊎◌, ◌↔◌, inl, inr, refl, sym, ap, ap₂, ◌∙◌,
  Bool, true, false, ◌&&◌, ◌||◌, arith, List, [], ◌∷◌, ◌++◌, none, some, length, get_or, drop, all,
  leb, ◌==◌, if◌then◌else◌, Bool-cases, Text, codes, text_eq, text_eq_iff, is_empty,
}

-- The characters of an address in dotted notation.
abbrev is_address_char : ℕ → Bool
is_address_char c = is_digit c || c == b'.'

abbrev IsAddress : Text → Type 0
IsAddress s = all is_address_char s ≡ true

all-drop : (p : ℕ → Bool) (n : ℕ) (s : Text) → all p s ≡ true → all p (drop n s) ≡ true
all-drop p zero s h = h
all-drop p (suc n) [] h = h
all-drop p (suc n) (c ∷ s) h = all-drop p n s (ground arith)

text_eq-apart : (p : ℕ → Bool) (s t : Text) → all p s ≡ true → all p t ≡ false → text_eq s t ≡ false
text_eq-apart p s t h k = elim (Bool-cases (text_eq s t)) [
  | inl e ↦ absurd (cc (h, k, (text_eq_iff s t).0 e))
  | inr e ↦ e
]

ends_with-apart :
    (p : ℕ → Bool) (s t : Text) → all p s ≡ true → all p t ≡ false → ends_with s t ≡ false
unfolding ends_with
ends_with-apart p s t h k = ground (
  arith,
  text_eq-apart p (drop (length s - length t) s) t (all-drop p (length s - length t) s h) k,
)

lower-IsAddress : (s : Text) → IsAddress s → to_lower_case s ≡ s
lower-IsAddress [] h = refl
lower-IsAddress (c ∷ s) h =
    let same : to_lower c ≡ c = ground arith in ap₂ (◌∷◌) same (lower-IsAddress s (ground arith))

strip_dots-cons :
    (c : ℕ) (s : Text) → strip_dots s ≡ s → is_empty s ≡ false → strip_dots (c ∷ s) ≡ c ∷ s
strip_dots-cons c s e h = ap (λ r. if c == b'.' && is_empty r then [] else c ∷ r) e ∙ ground arith

is_empty-append : (s t : Text) → is_empty t ≡ false → is_empty (s ++ t) ≡ false
is_empty-append [] t h = h
is_empty-append (c ∷ s) t h = refl

strip_dots-append :
    (s t : Text) → strip_dots t ≡ t → is_empty t ≡ false → strip_dots (s ++ t) ≡ s ++ t
strip_dots-append [] t e h = e
strip_dots-append (c ∷ s) t e h =
    strip_dots-cons c (s ++ t) (strip_dots-append s t e h) (is_empty-append s t h)

strip_dots-group :
    (n : ℕ) (rest : Text)
    → strip_dots rest ≡ rest
    → is_empty rest ≡ false
    → strip_dots (decimal n ++ b'.' ∷ rest) ≡ decimal n ++ b'.' ∷ rest
strip_dots-group n rest e h =
    strip_dots-append (decimal n) (b'.' ∷ rest) (strip_dots-cons b'.' rest e h) refl

decimal_some : (n : ℕ) → is_empty (decimal n ++ []) ≡ false
decimal_some n = ground arith

strip_dots-decimal : (n : ℕ) → strip_dots (decimal n ++ []) ≡ decimal n ++ []
strip_dots-decimal n = ground arith

IsAddress-decimal : (n : ℕ) (rest : Text) → n < 256 → IsAddress rest → IsAddress (decimal n ++ rest)
IsAddress-decimal n rest h k = ground arith

before-none : (s : Text) → IsAddress s → before b':' s ≡ none
before-none [] h = refl
before-none (c ∷ s) h = ground (arith, before-none s)

address-not_ipv6 : (s : Text) → IsAddress s → is_local_ipv6_address s ≡ false
unfolding is_local_ipv6_address
address-not_ipv6 s h =
    ground (arith, text_eq-apart is_address_char s (codes "::1") h refl, before-none s h)

address_local :
    (s : Text) (octets : List ℕ)
    → IsAddress s
    → is_empty s ≡ false
    → strip_dots s ≡ s
    → parse_ipv4_address s ≡ some octets
    → is_local_broker_host s ≡ is_private (get_or octets 0 0) (get_or octets 1 0)
unfolding is_local_broker_host
address_local s octets h nonempty stripped parsed =
    let same : normalize s ≡ s = ap strip_dots (lower-IsAddress s h) ∙ stripped in
    let no_name : text_eq s (codes "localhost") ≡ false =
      text_eq-apart is_address_char s (codes "localhost") h refl in
    let no_local : ends_with s (codes ".local") ≡ false =
      ends_with-apart is_address_char s (codes ".local") h refl in
    let no_lan : ends_with s (codes ".lan") ≡ false =
      ends_with-apart is_address_char s (codes ".lan") h refl in
    let no_home : ends_with s (codes ".home.arpa") ≡ false =
      ends_with-apart is_address_char s (codes ".home.arpa") h refl in
    let no_ipv6 : is_local_ipv6_address s ≡ false = address-not_ipv6 s h in
    rw (nonempty, same, no_name, no_local, no_lan, no_home, no_ipv6, parsed) refl

-- An address as a number of 32 bits.
abbrev pub address : ℕ → ℕ → ℕ → ℕ → ℕ
address a b c d = ((a * 256 + b) * 256 + c) * 256 + d

-- An address is in the network of another one if they have the first bits in common.
abbrev IsIn : ℕ → ℕ → ℕ → Type 0
IsIn n network bits = n / 2 ^ (32 - bits) ≡ network / 2 ^ (32 - bits)

-- The private networks, loopback and the link-local network.
abbrev pub IsLocalNetwork : ℕ → Type 0
IsLocalNetwork n =
    IsIn n (address 10 0 0 0) 8
    ⊎ (IsIn n (address 127 0 0 0) 8
        ⊎ (IsIn n (address 172 16 0 0) 12
            ⊎ (IsIn n (address 192 168 0 0) 16 ⊎ IsIn n (address 169 254 0 0) 16)))

module _ (a b c d : ℕ) (small_a : a < 256) (small_b : b < 256) (small_c : c < 256)
    (small_d : d < 256) where
  dotted-IsAddress : IsAddress (dotted a b c d)
  dotted-IsAddress = IsAddress-decimal a _ small_a (
      IsAddress-decimal b _ small_b
        (IsAddress-decimal c _ small_c (IsAddress-decimal d [] small_d refl)))

  dotted-stripped : strip_dots (dotted a b c d) ≡ dotted a b c d
  dotted-stripped =
      let last : is_empty (decimal d ++ []) ≡ false = decimal_some d in
      strip_dots-group a _
        (strip_dots-group b _ (strip_dots-group c _ (strip_dots-decimal d) last)
          (is_empty-append (decimal c) _ refl))
        (is_empty-append (decimal b) _ refl)

  dotted-private : is_local_broker_host (dotted a b c d) ≡ is_private a b
  dotted-private =
      address_local (dotted a b c d) (a ∷ b ∷ c ∷ d ∷ []) dotted-IsAddress
        (is_empty-append (decimal a) _ refl) dotted-stripped
        (parse-dotted a b c d small_a small_b small_c small_d)

  networks-private : IsLocalNetwork (address a b c d) → is_private a b ≡ true
  networks-private (inl e) = let q : a ≡ 10 = omega arith in ground arith
  networks-private (inr (inl e)) = let q : a ≡ 127 = omega arith in ground arith
  networks-private (inr (inr (inl e))) =
      let q : a ≡ 172 = omega arith in
      let low : 16 ≤ b = omega arith in let high : b ≤ 31 = omega arith in ground arith
  networks-private (inr (inr (inr (inl e)))) =
      let q : a ≡ 192 = omega arith in let r : b ≡ 168 = omega arith in ground arith
  networks-private (inr (inr (inr (inr e)))) =
      let q : a ≡ 169 = omega arith in let r : b ≡ 254 = omega arith in ground arith

  private-networks : is_private a b ≡ true → IsLocalNetwork (address a b c d)
  private-networks h = elim (Bool-cases (a == 10)) [
    | inl ten ↦ inl (let q : a ≡ 10 = ground arith in omega arith)
    | inr not_ten ↦ elim (Bool-cases (a == 127)) [
      | inl loopback ↦ inr (inl (let q : a ≡ 127 = ground arith in omega arith))
      | inr other ↦ elim (Bool-cases (a == 172 && leb 16 b && leb b 31)) [
        | inl twelve ↦ inr (
            inr (
              inl (
                let q : a ≡ 172 = ground arith in
                let low : 16 ≤ b = ground arith in
                let high : b ≤ 31 = ground arith in omega arith)))
        | inr outside ↦ elim (Bool-cases (a == 192 && b == 168)) [
          | inl sixteen ↦ inr (
              inr (
                inr (
                  inl (
                    let q : a ≡ 192 = ground arith in
                    let r : b ≡ 168 = ground arith in omega arith))))
          | inr left ↦ inr (
              inr (
                inr (
                  inr (
                    let q : a ≡ 169 = ground arith in
                    let r : b ≡ 254 = ground arith in omega arith))))
        ]
      ]
    ]
  ]

  -- An address in dotted notation counts as local exactly if, as a number of 32 bits, it is in one of the
  -- networks 10/8, 127/8, 172.16/12, 192.168/16 and 169.254/16.
  pub local-dotted :
      (is_local_broker_host (dotted a b c d) ≡ true) ↔ IsLocalNetwork (address a b c d)
  local-dotted =
      (λ h. private-networks (sym dotted-private ∙ h), λ h. dotted-private ∙ networks-private h)

to_lower-dot : (s : Text) → has_dot s ≡ false → has_dot (to_lower_case s) ≡ false
to_lower-dot [] h = refl
to_lower-dot (c ∷ s) h = ground (arith, to_lower-dot s)

strip_dots_id : (s : Text) → has_dot s ≡ false → strip_dots s ≡ s
strip_dots_id [] h = refl
strip_dots_id (c ∷ s) h = ground (arith, strip_dots_id s)

undotted-none :
    (value digits : ℕ) (s : Text)
    → has_dot s ≡ false
    → ipv4_loop (record { octets = []; value = value; digit_count = digits }) s ≡ none
unfolding ipv4_loop
undotted-none value digits [] h = ground arith
undotted-none value digits (c ∷ s) h =
    ground (arith, undotted-none (value * 10 + (c - b'0')) (digits + 1) s)

-- A host that is not empty and has no full stop counts as local.
pub undotted_local :
    (host : Text) → is_empty host ≡ false → has_dot host ≡ false → is_local_broker_host host ≡ true
unfolding is_local_broker_host
undotted_local host h k =
    let lower = to_lower-dot host k in
    let same : normalize host ≡ to_lower_case host = strip_dots_id (to_lower_case host) lower in
    let no_dot : has_dot (normalize host) ≡ false = rw same lower in
    let parsed : parse_ipv4_address (normalize host) ≡ none =
      unfold parse_ipv4_address in undotted-none 0 0 (normalize host) no_dot in
    rw (h, parsed, no_dot) (ground arith)
