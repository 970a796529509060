-- ===== src/Firmware/Signature.antt =====
-- When a signature is accepted.
use nivalo_esp.Lifecycle.{valid_keys, has_key_id, FirmwareSigningKey}
use nivalo_esp.Firmware.{
  verify_firmware_signature, find_key, MbedTls, verified, verify_hash, verify_with_key,
}
use nivalo_esp.Common.{
  le→ltb_false, ℕ, zero, suc, ◌≤◌, ◌≡◌, ◌↔◌, inl, inr, refl, ap, true, false, ◌&&◌, ◌||◌, arith,
  List, [], ◌∷◌, ◌++◌, Option, none, some, length, get_elem?, ltb, is_some, Bool-cases,
  Option-cases, Text, codes, text_eq, text_eq_iff, is_empty, or_empty,
}

module _ {K : Type 0} (tls : MbedTls K) where
  -- What is signed under a public key: the key is an ECDSA key on P-256, and the signature is one of the
  -- manifest's digest.
  pub record IsSignedBy (pem : Text) (signature : List ℕ) (manifest : Text) : Type 0 where
    pub public_key : K
    pub parsed : tls.parse_public_key pem ≡ some public_key
    pub ecdsa : tls.can_do_ecdsa public_key ≡ true
    pub p256 : tls.curve public_key ≡ some tls.secp256r1
    pub hash : List ℕ
    pub hashed : tls.sha256 manifest ≡ some hash
    pub accepted : tls.verify public_key hash signature ≡ true

  -- A signature in Base64 under a key of the list with this identifier.
  pub record IsSigned (keys : List FirmwareSigningKey) (key_id signature_base64 manifest : Text)
      : Type 0 where
    pub index : ℕ
    pub key : FirmwareSigningKey
    pub listed : get_elem? keys index ≡ some key
    pub named : key.key_id ≡ some key_id
    pub pem : Text
    pub public : key.public_key_pem ≡ some pem
    pub signature : List ℕ
    pub decoded : tls.base64_decode signature_base64 ≡ some signature
    pub long : 8 ≤ length signature
    pub signed : IsSignedBy pem signature manifest

  verify_with_key-IsSignedBy :
      (pem : Text) (signature : List ℕ) (manifest : Text)
      → verify_with_key tls pem signature manifest ≡ verified
      → IsSignedBy pem signature manifest
  unfolding verify_with_key verify_hash
  verify_with_key-IsSignedBy pem signature manifest h =
      elim (Option-cases (tls.parse_public_key pem)) [
        | inl e ↦ absurd (ground arith)
        | inr (k, e) ↦ elim (Option-cases (tls.curve k)) [
          | inl c ↦ absurd (ground arith)
          | inr (id, c) ↦ elim (Option-cases (tls.sha256 manifest)) [
            | inl s ↦ absurd (ground arith)
            | inr (hash, s) ↦ record {
              public_key = k;
              parsed = e;
              ecdsa = ground arith;
              p256 = ground arith;
              hash = hash;
              hashed = s;
              accepted = ground arith;
            }
          ]
        ]
      ]

  IsSignedBy-verify_with_key :
      (pem : Text) (signature : List ℕ) (manifest : Text)
      → IsSignedBy pem signature manifest
      → verify_with_key tls pem signature manifest ≡ verified
  unfolding verify_with_key verify_hash
  IsSignedBy-verify_with_key pem signature manifest s =
      ground (arith, s.parsed, s.ecdsa, s.p256, s.hashed, s.accepted)

named : (o : Option Text) {t : Text} → is_some o ≡ true → or_empty o ≡ t → o ≡ some t
named none h e = absurd (ground arith)
named (some s) h e = ap some e

find_key-listed :
    (key_id : Text) (keys : List FirmwareSigningKey) (pem : Text)
    → find_key key_id keys ≡ some pem
    → (index : ℕ) × ((key : FirmwareSigningKey) × ((get_elem? keys index ≡ some key)
          × ((key.key_id ≡ some key_id) × (key.public_key_pem ≡ some pem))))
unfolding find_key
find_key-listed key_id [] pem h = absurd (ground arith)
find_key-listed key_id (key ∷ rest) pem h =
    elim (Bool-cases
      (is_some key.key_id && is_some key.public_key_pem && text_eq (or_empty key.key_id) key_id)) [
        | inl e ↦ (
          zero,
          (
            key,
            (
              refl,
              (
                named key.key_id (ground arith)
                    ((text_eq_iff (or_empty key.key_id) key_id).0 (ground arith)),
                ground arith,
              ),
            ),
          ),
        )
        | inr e ↦
            let (index, (k, found)) = find_key-listed key_id rest pem (ground arith) in
            (suc index, (k, found))
      ]

has_key_id-append :
    (key_id : Text) (keys : List FirmwareSigningKey) (key : FirmwareSigningKey)
    → has_key_id key_id (keys ++ key ∷ [])
      ≡ (has_key_id key_id keys || text_eq (or_empty key.key_id) key_id)
unfolding has_key_id
has_key_id-append key_id [] key = ground arith
has_key_id-append key_id (k ∷ keys) key = ground (arith, has_key_id-append key_id keys key)

-- A key of a valid list has an identifier that no key before has.
valid_keys-new :
    (prior keys : List FirmwareSigningKey) (index : ℕ) (key : FirmwareSigningKey)
    → valid_keys prior keys ≡ true
    → get_elem? keys index ≡ some key
    → has_key_id (or_empty key.key_id) prior ≡ false
unfolding valid_keys
valid_keys-new prior [] index key v h = absurd (ground arith)
valid_keys-new prior (k ∷ keys) zero key v h = ground arith
valid_keys-new prior (k ∷ keys) (suc index) key v h = ground (
  arith,
  valid_keys-new (prior ++ k ∷ []) keys index key (ground arith) h,
  has_key_id-append (or_empty key.key_id) prior k,
)

find_key-valid :
    (prior keys : List FirmwareSigningKey) (index : ℕ) (key : FirmwareSigningKey)
    (key_id pem : Text)
    → valid_keys prior keys ≡ true
    → get_elem? keys index ≡ some key
    → key.key_id ≡ some key_id
    → key.public_key_pem ≡ some pem
    → find_key key_id keys ≡ some pem
unfolding find_key valid_keys
find_key-valid prior [] index key key_id pem v h n p = absurd (ground arith)
find_key-valid prior (k ∷ keys) zero key key_id pem v h n p =
    ground (arith, text_eq_iff (or_empty k.key_id) key_id)
find_key-valid prior (k ∷ keys) (suc index) key key_id pem v h n p =
    let apart : text_eq (or_empty k.key_id) (or_empty key.key_id) ≡ false = ground (
      arith,
      valid_keys-new (prior ++ k ∷ []) keys index key (ground arith) h,
      has_key_id-append (or_empty key.key_id) prior k,
    ) in
    let later = find_key-valid (prior ++ k ∷ []) keys index key key_id pem (ground arith) h n p in
    ground arith

module _ {K : Type 0} (tls : MbedTls K) where
  IsSigned-of_verified :
      (keys : List FirmwareSigningKey) (algorithm key_id signature_base64 : Option Text)
      (manifest : Text)
      → verify_firmware_signature tls keys algorithm key_id signature_base64 manifest ≡ verified
      → IsSigned tls keys (or_empty key_id) (or_empty signature_base64) manifest
  unfolding verify_firmware_signature
  IsSigned-of_verified keys algorithm key_id signature_base64 manifest h =
      elim (Option-cases (find_key (or_empty key_id) keys)) [
        | inl e ↦ absurd (ground arith)
        | inr (pem, e) ↦ elim (Option-cases (tls.base64_decode (or_empty signature_base64))) [
          | inl d ↦ absurd (ground arith)
          | inr (signature, d) ↦
              let (index, (key, (listed, (named, public)))) =
                find_key-listed (or_empty key_id) keys pem e in
              record {
                index = index;
                key = key;
                listed = listed;
                named = named;
                pem = pem;
                public = public;
                signature = signature;
                decoded = d;
                long = ground arith;
                signed = verify_with_key-IsSignedBy tls pem signature manifest (ground arith);
              }
        ]
      ]

  verified-of_IsSigned :
      (keys : List FirmwareSigningKey) (algorithm key_id signature_base64 : Option Text)
      (manifest : Text)
      → valid_keys [] keys ≡ true
      → text_eq (or_empty algorithm) (codes "ecdsa-p256-sha256") ≡ true
      → is_empty (or_empty key_id) ≡ false
      → is_empty (or_empty signature_base64) ≡ false
      → IsSigned tls keys (or_empty key_id) (or_empty signature_base64) manifest
      → verify_firmware_signature tls keys algorithm key_id signature_base64 manifest ≡ verified
  unfolding verify_firmware_signature
  verified-of_IsSigned keys algorithm key_id signature_base64 manifest v a k g s =
      let found =
        find_key-valid [] keys s.index s.key (or_empty key_id) s.pem v s.listed s.named s.public in
      let ok = IsSignedBy-verify_with_key tls s.pem s.signature manifest s.signed in
      let decoded = s.decoded in
      let long : ltb (length s.signature) 8 ≡ false = le→ltb_false _ _ s.long in
      rw (a, k, g, found, decoded, long) ok

  -- With the signing keys of an accepted configuration, a firmware manifest is verified exactly if the
  -- algorithm is ECDSA on P-256 with SHA-256, an identifier and a signature are given, and the
  -- signature is one under a key of the list with this identifier.
  pub verified_iff :
      (keys : List FirmwareSigningKey) (algorithm key_id signature_base64 : Option Text)
      (manifest : Text)
      → valid_keys [] keys ≡ true
      → (verify_firmware_signature tls keys algorithm key_id signature_base64 manifest ≡ verified)
        ↔ ((or_empty algorithm ≡ codes "ecdsa-p256-sha256")
            × ((is_empty (or_empty key_id) ≡ false)
                × ((is_empty (or_empty signature_base64) ≡ false)
                    × IsSigned tls keys (or_empty key_id) (or_empty signature_base64) manifest)))
  unfolding verify_firmware_signature
  verified_iff keys algorithm key_id signature_base64 manifest v = (
    λ h. (
      (text_eq_iff (or_empty algorithm) (codes "ecdsa-p256-sha256")).0 (ground arith),
      (
        ground arith,
        (ground arith, IsSigned-of_verified keys algorithm key_id signature_base64 manifest h),
      ),
    ),
    λ (a, (k, (g, s))).
        verified-of_IsSigned keys algorithm key_id signature_base64 manifest v
          ((text_eq_iff (or_empty algorithm) (codes "ecdsa-p256-sha256")).1 a) k g s,
  )
