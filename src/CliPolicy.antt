-- ===== src/CliPolicy.antt =====
-- src/NivaloCliProvisioningPolicy.cpp: the values that provisioning accepts. A value is a pointer,
-- which may be null, and a length: here the bytes it spans, where `none` is the null pointer.
pub mod Host
pub mod Codes
mod Tests
use nivalo_esp.Common.{
  ℕ, ◌+◌, ◌-◌, Bool, true, false, not, ◌&&◌, ◌||◌, List, [], ◌∷◌, Option, none, some, length, take,
  drop, all, ltb, leb, ◌==◌, if◌then◌else◌, Text, codes, text_eq, or_empty,
}

abbrev pub Value : Type 0
Value = Option (List ℕ)

-- `low <= value && value <= high`.
abbrev pub between : ℕ → ℕ → ℕ → Bool
between low high value = leb low value && leb value high

unfoldable pub is_hex : ℕ → Bool
is_hex value = between b'0' b'9' value || between b'a' b'f' value || between b'A' b'F' value

is_control : ℕ → Bool
is_control character = ltb character 0x20 || character == 0x7f

unfoldable pub contains_control : Value → Bool
unfolding is_control
contains_control none = true
contains_control (some value) = not (all (λ c. not (is_control c)) value)

unfoldable pub is_request_id : Value → Bool
unfolding is_hex
is_request_id none = false
is_request_id (some value) = length value == 32 && all is_hex value

-- The loop from `index` on.
uuid_loop : ℕ → List ℕ → Bool
unfolding is_hex
uuid_loop index [] = true
uuid_loop index (c ∷ rest) =
    let more = uuid_loop (index + 1) rest in
    if index == 8 || index == 13 || index == 18 || index == 23
    then (if not (c == b'-') then false else more)
    else (if not (is_hex c) then false else more)

pub is_canonical_uuid : Value → Bool
unfolding uuid_loop
is_canonical_uuid none = false
is_canonical_uuid (some value) = if not (length value == 36) then false else uuid_loop 0 value

-- The length that goes with a pointer; where the pointer is null, the tests below refuse anyway.
abbrev size : Value → ℕ
size value = length (or_empty value)

unfoldable pub is_wifi_ssid : Value → Bool
is_wifi_ssid value = leb 1 (size value) && leb (size value) 32 && not (contains_control value)

unfoldable pub is_wifi_password : Value → Bool
is_wifi_password value =
    (size value == 0 || (leb 8 (size value) && leb (size value) 63)) && not (contains_control value)

-- `strncmp(value, prefix, strlen(prefix)) == 0`, for a value that is at least as long.
abbrev starts_with : Text → List ℕ → Bool
starts_with prefix value = text_eq prefix (take (length prefix) value)

unfoldable pub is_hardware_id : Value → Bool
is_hardware_id none = false
is_hardware_id (some value) =
    length value == 18
    && starts_with (codes "esp32-") value
    && all (λ c. between b'0' b'9' c || between b'a' b'f' c) (drop 6 value)

abbrev contains : Text → ℕ → Bool
contains [] c = false
contains (x ∷ xs) c = c == x || contains xs c

-- `strchr(text, c) != NULL`: the terminator counts as part of the string.
abbrev pub has_char : Text → ℕ → Bool
has_char text c = contains text c || c == 0

abbrev pub claim_alphabet : Text
claim_alphabet = codes "23456789ABCDEFGHJKLMNPQRSTUVWXYZ"

unfoldable pub is_claim_code : Value → Bool
is_claim_code none = false
is_claim_code (some value) = length value == 8 && all (has_char claim_alphabet) value

abbrev pub is_alpha_numeric : ℕ → Bool
is_alpha_numeric c = between b'a' b'z' c || between b'A' b'Z' c || between b'0' b'9' c

-- One round of the loop in `isMqttHost`, from `labelLength` and `value[index - 1]`; `none` is
-- `return false`.
host_step : ℕ → ℕ → ℕ → Option ℕ
host_step label_length previous c =
    if c == b'.'
    then (if label_length == 0 || previous == b'-' then none else some 0)
    else (if (not (is_alpha_numeric c) && not (c == b'-'))
          || leb 63 label_length
          || (label_length == 0 && c == b'-')
        then none
        else some (label_length + 1))

-- The loop and what follows it. `previous` is not read before the first character.
host_loop : ℕ → ℕ → List ℕ → Bool
unfolding host_step
host_loop label_length previous [] = ltb 0 label_length && not (previous == b'-')
host_loop label_length previous (c ∷ rest) = elim (host_step label_length previous c) [
  | none ↦ false
  | some n ↦ host_loop n c rest
]

pub is_mqtt_host : Value → Bool
unfolding host_loop
is_mqtt_host value =
    if ltb (size value) 1 || ltb 253 (size value) || contains_control value
    then false
    else host_loop 0 0 (or_empty value)

pub is_mqtt_identity : Value → Bool
is_mqtt_identity value = leb 1 (size value) && leb (size value) 128 && not (contains_control value)

pub is_mqtt_password : Value → Bool
is_mqtt_password value = leb 16 (size value) && leb (size value) 512 && not (contains_control value)

pub is_tls_port : ℕ → Bool
is_tls_port port = port == 8883 || port == 8884
