-- ===== src/Broker.antt =====
-- src/NivaloDeviceLifecycle.cpp: which hosts count as local brokers, to which MQTT may be plaintext.
-- The pointers are not null where the functions are called.
pub mod Ipv4
pub mod Local
mod Tests
use nivalo_esp.Common.{
  ℕ, ◌+◌, ◌*◌, ◌/◌, ◌-◌, Bool, true, false, not, ◌&&◌, ◌||◌, List, [], ◌∷◌, ◌++◌, map, Option, none,
  some, length, get_or, drop, all, ltb, leb, ◌==◌, if◌then◌else◌, Text, codes, text_eq, is_empty,
}

-- `String::toLowerCase`, `tolower` of the C locale.
abbrev pub to_lower : ℕ → ℕ
to_lower c = if leb b'A' c && leb c b'Z' then c + 32 else c

abbrev pub to_lower_case : Text → Text
to_lower_case = map to_lower

-- `while (normalized.endsWith(".")) normalized.remove(normalized.length() - 1U)`.
abbrev pub strip_dots : Text → Text
strip_dots [] = []
strip_dots (c ∷ rest) =
    let stripped = strip_dots rest in if c == b'.' && is_empty stripped then [] else c ∷ stripped

unfoldable pub ends_with : Text → Text → Bool
ends_with value suffix =
    leb (length suffix) (length value) && text_eq (drop (length value - length suffix) value) suffix

abbrev pub normalize : Text → Text
normalize host = strip_dots (to_lower_case host)

unfoldable pub is_production_mqtt_host : Text → Bool
is_production_mqtt_host host =
    let normalized = normalize host in
    text_eq normalized (codes "mqtt.nivalo.io") || ends_with normalized (codes ".mqtt.nivalo.io")

-- The octets written, and the value and the number of the digits read since.
pub record Ipv4State : Type 0 where
  pub octets : List ℕ
  pub value : ℕ
  pub digit_count : ℕ

abbrev pub is_digit : ℕ → Bool
is_digit c = leb b'0' c && leb c b'9'

-- One character that is not the terminator; `none` is `return false`.
pub ipv4_step : Ipv4State → ℕ → Option Ipv4State
ipv4_step s c =
    if is_digit c
    then (let value = s.value * 10 + (c - b'0') in
        if ltb 255 value || ltb 3 (s.digit_count + 1)
        then none
        else some (record s { value = value; digit_count = s.digit_count + 1 }))
    else (if c == b'.' && ltb 0 s.digit_count && ltb (length s.octets) 4
        then some (record { octets = s.octets ++ s.value ∷ []; value = 0; digit_count = 0 })
        else none)

pub ipv4_loop : Ipv4State → Text → Option (List ℕ)
unfolding ipv4_step
ipv4_loop s [] =
    if ltb 0 s.digit_count && ltb (length s.octets) 4 && length s.octets + 1 == 4
    then some (s.octets ++ s.value ∷ [])
    else none
ipv4_loop s (c ∷ rest) = elim (ipv4_step s c) [ none ↦ none | some s' ↦ ipv4_loop s' rest ]

pub parse_ipv4_address : Text → Option (List ℕ)
unfolding ipv4_loop
parse_ipv4_address host = ipv4_loop (record { octets = []; value = 0; digit_count = 0 }) host

pub is_hex_digit : ℕ → Bool
is_hex_digit value =
    (leb b'0' value && leb value b'9')
    || (leb b'a' value && leb value b'f')
    || (leb b'A' value && leb value b'F')

-- `strchr(host, c)`: what stands before the first `c`, if there is one.
abbrev pub before : ℕ → Text → Option Text
before c [] = none
before c (x ∷ xs) =
    let later = before c xs in
    if x == c then some [] else (elim later [ none ↦ none | some t ↦ some (x ∷ t) ])

abbrev hex_value : ℕ → ℕ
hex_value c = if leb c b'9' then c - b'0' else (if leb b'a' c then c - b'a' + 10 else c - b'A' + 10)

-- `strtoul(text, NULL, 16)` of at most four characters that are hexadecimal digits or full stops:
-- it stops at a full stop.
hex_prefix : ℕ → Text → ℕ
unfolding is_hex_digit
hex_prefix value [] = value
hex_prefix value (c ∷ rest) =
    let longer = hex_prefix (value * 16 + hex_value c) rest in
    if is_hex_digit c then longer else value

-- With a mask of leading bits of a value below 2 ^ 16, `value & 0xFE00` and `value & 0xFFC0` are the
-- value less what is below the mask.
pub is_local_ipv6_address : Text → Bool
unfolding is_hex_digit hex_prefix
is_local_ipv6_address host = if text_eq host (codes "::1") then true else (elim (before b':' host) [
  | none ↦ false
  | some first ↦
      if length first == 0 || ltb 4 (length first)
      then false
      else (if not (all (λ c. is_hex_digit c || c == b':' || c == b'.') host)
          then false
          else (let first_hextet = hex_prefix 0 first in
              first_hextet / 0x200 == 0xFC00 / 0x200 || first_hextet / 0x40 == 0xFE80 / 0x40))
])

abbrev pub is_private : ℕ → ℕ → Bool
is_private a b =
    a == 10
    || a == 127
    || (a == 172 && leb 16 b && leb b 31)
    || (a == 192 && b == 168)
    || (a == 169 && b == 254)

-- `normalized.indexOf('.') >= 0`.
abbrev pub has_dot : Text → Bool
has_dot [] = false
has_dot (c ∷ rest) = c == b'.' || has_dot rest

unfoldable pub is_local_broker_host : Text → Bool
is_local_broker_host host =
    if is_empty host
    then false
    else (let normalized = normalize host in
        if text_eq normalized (codes "localhost")
          || ends_with normalized (codes ".local")
          || ends_with normalized (codes ".lan")
          || ends_with normalized (codes ".home.arpa")
          || is_local_ipv6_address normalized
        then true
        else (elim (parse_ipv4_address normalized) [
          | some octets ↦ is_private (get_or octets 0 0) (get_or octets 1 0)
          | none ↦ not (has_dot normalized)
        ]))
