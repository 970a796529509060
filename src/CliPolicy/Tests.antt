-- ===== src/CliPolicy/Tests.antt =====
-- The theorems at concrete inputs.
use nivalo_esp.CliPolicy.{is_mqtt_host, is_claim_code, is_hex, uuid_loop, is_canonical_uuid}
use nivalo_esp.CliPolicy.Host.{labels, is_label, is_mqtt_host-labels}
use nivalo_esp.CliPolicy.Codes.{claim_code_nul}
use nivalo_esp.Common.{◌≡◌, refl, true, false, ◌&&◌, leb, length, all, some, codes, set}

is_mqtt_host-labels_example : is_mqtt_host (some (codes "mqtt-1.example.com")) ≡ (
    leb (length (codes "mqtt-1.example.com")) 253
    && is_label (labels (codes "mqtt-1.example.com")).0
    && all is_label (labels (codes "mqtt-1.example.com")).1)
is_mqtt_host-labels_example = is_mqtt_host-labels (codes "mqtt-1.example.com")

claim_code_nul_example : is_claim_code (some (set (codes "ABCD2345") 3 0)) ≡ true
unfolding is_claim_code
claim_code_nul_example = claim_code_nul (codes "ABCD2345") 3 refl

canonical_uuid : is_canonical_uuid (some (codes "00112233-4455-6677-8899-aabbccddeeff")) ≡ true
unfolding is_canonical_uuid uuid_loop is_hex
canonical_uuid = refl

uuid_without_hyphen :
    is_canonical_uuid (some (codes "00112233-4455-6677-8899aaabbccddeeff")) ≡ false
unfolding is_canonical_uuid uuid_loop is_hex
uuid_without_hyphen = refl
