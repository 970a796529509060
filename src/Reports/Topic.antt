-- ===== src/Reports/Topic.antt =====
-- src/NivaloDeviceReports.cpp: the identifier of the command in a topic.
use nivalo_esp.Common.{
  ℕ, suc, ◌+◌, ◌≡◌, refl, ap, ◌∙◌, Bool, true, false, not, arith, [], ◌∷◌, ◌++◌, Option, none, some,
  length, drop, all, leb, ◌==◌, if◌then◌else◌, Text, ==_refl, length-append,
}

abbrev pub slash : ℕ
slash = 0x2f

-- `lastIndexOf`.
abbrev pub last_index_of : Text → ℕ → Option ℕ
last_index_of [] c = none
last_index_of (x ∷ s) c = elim (last_index_of s c) [
  | some i ↦ some (suc i)
  | none ↦ (if x == c then some 0 else none)
]

unfoldable pub get_command_id_from_topic : Text → Text
get_command_id_from_topic topic = elim (last_index_of topic slash) [
  | none ↦ []
  | some index ↦ (if leb (length topic) (index + 1) then [] else drop (index + 1) topic)
]

last_index_of-none :
    (s : Text) (c : ℕ) → all (λ x. not (x == c)) s ≡ true → last_index_of s c ≡ none
last_index_of-none [] c h = refl
last_index_of-none (x ∷ s) c h =
    let other : (x == c) ≡ false = ground arith in
    let rest : all (λ y. not (y == c)) s ≡ true = ground arith in
    rw (last_index_of-none s c rest, other) refl

last_index_of-append :
    (front s : Text) (c : ℕ)
    → all (λ x. not (x == c)) s ≡ true
    → last_index_of (front ++ (c ∷ s)) c ≡ some (length front)
last_index_of-append [] s c h = rw (last_index_of-none s c h, ==_refl c) refl
last_index_of-append (x ∷ front) s c h = rw (last_index_of-append front s c h) refl

drop-after : (front s : Text) (c : ℕ) → drop (suc (length front)) (front ++ (c ∷ s)) ≡ s
drop-after [] s c = refl
drop-after (x ∷ front) s c = drop-after front s c

if-same : (b : Bool) (s : Text) → (if b then s else s) ≡ s
if-same true s = refl
if-same false s = refl

id-part :
    (front id : Text)
    → (if leb (length (front ++ (slash ∷ id))) (length front + 1) then [] else id) ≡ id
id-part front [] = if-same (leb (length (front ++ (slash ∷ []))) (length front + 1)) []
id-part front (x ∷ id) =
    let size = length-append front (slash ∷ x ∷ id) in
    let more : leb (length (front ++ (slash ∷ x ∷ id))) (length front + 1) ≡ false = ground arith in
    rw more refl

-- The identifier of a topic that ends in a slash and an identifier without slashes, which may be
-- empty, is that identifier, and a topic without slashes has the empty one.
id_after_slash :
    (front id : Text)
    → all (λ x. not (x == slash)) id ≡ true
    → (get_command_id_from_topic (front ++ (slash ∷ id)) ≡ id) × (get_command_id_from_topic id ≡ [])
unfolding get_command_id_from_topic
id_after_slash front id h =
    let next : length front + 1 ≡ suc (length front) = omega arith in
    let after : drop (length front + 1) (front ++ (slash ∷ id)) ≡ id =
      ap (λ n. drop n (front ++ (slash ∷ id))) next ∙ drop-after front id slash in
    (
      rw (get_command_id_from_topic, last_index_of-append front id slash h, after)
          (id-part front id),
      rw (get_command_id_from_topic, last_index_of-none id slash h) refl,
    )
