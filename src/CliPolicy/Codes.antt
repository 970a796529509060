-- ===== src/CliPolicy/Codes.antt =====
-- Which claim codes are accepted.
use nivalo_esp.CliPolicy.{length, is_request_id, is_claim_code, has_char, claim_alphabet}
use nivalo_esp.Common.{ℕ, zero, suc, ◌≡◌, true, arith, List, [], ◌∷◌, some, all, set, length-set}

all-set_nul :
    (text : List ℕ) (i : ℕ) (value : List ℕ)
    → all (has_char text) value ≡ true
    → all (has_char text) (set value i 0) ≡ true
all-set_nul text i [] h = h
all-set_nul text zero (c ∷ value) h = ground arith
all-set_nul text (suc i) (c ∷ value) h = ground (arith, all-set_nul text i value)

-- A claim code stays accepted when any of its characters is replaced by NUL.
pub claim_code_nul :
    (value : List ℕ) (i : ℕ)
    → is_claim_code (some value) ≡ true
    → is_claim_code (some (set value i 0)) ≡ true
unfolding is_claim_code
claim_code_nul value i h = ground (arith, all-set_nul claim_alphabet i value, length-set value i 0)

pub length-claim_code : (value : List ℕ) → is_claim_code (some value) ≡ true → length value ≡ 8
unfolding is_claim_code
length-claim_code value h = ground arith

pub length-request_id : (value : List ℕ) → is_request_id (some value) ≡ true → length value ≡ 32
unfolding is_request_id
length-request_id value h = ground arith
