-- ===== src/CliFrame/Collect.antt =====
-- What collecting the characters of a line leaves behind, one character at a time.
use nivalo_esp.CliFrame.Store.{
  push-store, store_discarding, take-set, store_kept, store_return, store_spoilt, store_returned,
  store_refused,
}
use nivalo_esp.CliFrame.{CliFrame, Buffer, activate, store, push}
use mathlib.Core.List.{append-nil, append_assoc}
use native.Mathlib.Decide.{ℕ_discrete, dec_lt}
use nivalo_esp.Common.{length-set}
use nivalo_esp.Common.{
  ℕ, suc, ◌+◌, ◌-◌, ◌≤◌, ◌<◌, ◌≡◌, ◌≢◌, ◌⊎◌, inl, inr, refl, sym, ap, subst, ◌∙◌, Bool, true, false,
  not, ◌&&◌, ◌||◌, arith, List, [], ◌∷◌, ◌++◌, map, Option, none, some, length, set, take, all, All,
  ltb, leb, ◌==◌, if◌then◌else◌, Text, is_empty,
}

-- The characters of a line before its newline, each with the time at which it came.
abbrev pub Input : Type 0
Input = List (ℕ × ℕ)

abbrev pub characters : Input → Text
characters = map λ c. c.0

abbrev pub feed : CliFrame → Input → Buffer → CliFrame × Buffer
feed f [] buffer = (f, buffer)
feed f ((c, now) ∷ rest) buffer = let (r, f', buffer') = push f c now buffer in feed f' rest buffer'

-- A line without one carriage return at its end.
abbrev pub strip_cr : Text → Text
strip_cr [] = []
strip_cr (c ∷ []) = if c == 13 then [] else c ∷ []
strip_cr (c ∷ d ∷ rest) = c ∷ strip_cr (d ∷ rest)

-- Neither a carriage return nor NUL.
abbrev pub is_clean : ℕ → Bool
is_clean c = not (c == 13) && not (c == 0)

-- What the framing should make of a line.
abbrev pub line_of : ℕ → Text → Option Text
line_of maximum line =
    let content = strip_cr line in
    if ltb 0 (length content) && leb (length content) maximum && all is_clean content
    then some content
    else none

abbrev pub prepend : ℕ → Option Text → Option Text
prepend c none = none
prepend c (some rest) = some (c ∷ rest)

-- The same with `room` cells left, as the framing goes: none is a line to discard.
unfoldable pub collect : ℕ → Text → Option Text
collect room [] = some []
collect room (c ∷ rest) =
    let more = collect (room - 1) rest in
    if c == 13
    then (if is_empty rest then some [] else none)
    else (if c == 0 || room == 0 then none else prepend c more)

collect-refused :
    (room c : ℕ) (rest : Text) → c ≢ 13 → (c ≡ 0) ⊎ (room ≡ 0) → collect room (c ∷ rest) ≡ none
unfolding collect
collect-refused room c rest h k = ground arith

collect-kept :
    (room c : ℕ) (rest : Text)
    → c ≢ 13
    → c ≢ 0
    → room ≢ 0
    → collect room (c ∷ rest) ≡ prepend c (collect (room - 1) rest)
unfolding collect
collect-kept room c rest h k l = ground arith

-- What feeding a line leaves behind.
abbrev pub Collected : CliFrame → List ℕ → CliFrame × Buffer → Option Text → Type 0
Collected f buffer s none = s.0.discarding ≡ true
Collected f buffer s (some content) =
    (s.0.discarding ≡ false)
    × (s.0.length ≡ f.length + length content)
    × (b : List ℕ) × (s.1 ≡ some b)
    × (take s.0.length b ≡ take f.length buffer ++ content)

feed-store :
    (f : CliFrame) (c now : ℕ) (rest : Input) (buffer : List ℕ)
    → c ≢ 10
    → feed f ((c, now) ∷ rest) (some buffer)
      ≡ feed (store (activate f now) c buffer).0 rest (some (store (activate f now) c buffer).1)
feed-store f c now rest buffer h = rw (push-store f c now buffer h, feed)

feed_discarding :
    (input : Input) (f : CliFrame) (buffer : List ℕ)
    → All (λ c. c ≢ 10) (characters input)
    → f.discarding ≡ true
    → (feed f input (some buffer)).0.discarding ≡ true
feed_discarding [] f buffer h d = d
feed_discarding ((c, now) ∷ rest) f buffer h d =
    rw (feed-store f c now rest buffer h.0)
      (feed_discarding rest _ _ h.1 (store_discarding f c now buffer d))

feed_spoilt :
    (rest : Input) (f : CliFrame) (c now : ℕ) (buffer : List ℕ)
    → All (λ c. c ≢ 10) (characters ((c, now) ∷ rest))
    → f.saw_carriage_return ≡ true
    → (feed f ((c, now) ∷ rest) (some buffer)).0.discarding ≡ true
feed_spoilt rest f c now buffer h s =
    rw (feed-store f c now rest buffer h.0)
      (feed_discarding rest _ _ h.1 (store_spoilt f c now buffer s))

feed_return :
    (rest : Input) (f : CliFrame) (c now : ℕ) (buffer : List ℕ)
    → c ≡ 13
    → All (λ c. c ≢ 10) (characters ((c, now) ∷ rest))
    → f.discarding ≡ false
    → f.saw_carriage_return ≡ false
    → Collected f buffer
        (feed f ((c, now) ∷ rest) (some buffer))
        (collect (f.maximum_length - f.length) (characters ((c, now) ∷ rest)))
unfolding collect
feed_return [] f c now buffer e h d s =
    let last : collect (f.maximum_length - f.length) (c ∷ []) ≡ some [] = ground arith in
    let after = record (activate f now) { discarding = false; saw_carriage_return = true } in
    let step : feed f ((c, now) ∷ []) (some buffer) ≡ (after, some buffer) =
      feed-store f c now [] buffer h.0
      ∙ ap (λ r. (r.0, some r.1)) (store_return f c now buffer e d s) in
    let same : after.length ≡ f.length = ground arith in
    subst (λ r. Collected f buffer r (collect (f.maximum_length - f.length) (c ∷ []))) (sym step)
      (rw last (refl, omega arith, buffer, refl, rw (same, append-nil)))
feed_return ((c', now') ∷ rest) f c now buffer e h d s =
    let spoilt : collect (f.maximum_length - f.length) (c ∷ characters ((c', now') ∷ rest)) ≡ none =
      ground arith in
    rw (spoilt, feed-store f c now ((c', now') ∷ rest) buffer h.0)
      (feed_spoilt rest _ c' now' _ h.1 (store_returned f c now buffer e))

feed_refused :
    (rest : Input) (f : CliFrame) (c now : ℕ) (buffer : List ℕ)
    → c ≢ 13
    → (c ≡ 0) ⊎ (f.maximum_length ≤ f.length)
    → All (λ c. c ≢ 10) (characters ((c, now) ∷ rest))
    → Collected f buffer
        (feed f ((c, now) ∷ rest) (some buffer))
        (collect (f.maximum_length - f.length) (characters ((c, now) ∷ rest)))
feed_refused rest f c now buffer ne why h =
    rw
      (
        collect-refused (f.maximum_length - f.length) c (characters rest) ne (ground arith),
        feed-store f c now rest buffer h.0,
      )
      (feed_discarding rest _ _ h.1 (store_refused f c now buffer ne why))

-- What the rest leaves behind, seen from before the first character.
Collected-cons :
    (f g : CliFrame) (c : ℕ) (buffer : List ℕ) (s : CliFrame × Buffer) (r : Option Text)
    → g.length ≡ f.length + 1
    → f.length < length buffer
    → Collected g (set buffer f.length c) s r
    → Collected f buffer s (prepend c r)
Collected-cons f g c buffer s none e h k = k
Collected-cons f g c buffer s (some content) e h k =
    let e' : g.length ≡ suc f.length = omega arith in
    (k.0, omega arith, k.2, k.3, k.4 ∙ rw (e', take-set buffer f.length c h, append_assoc))

feed_kept :
    (rest : Input) (f : CliFrame) (c now : ℕ) (buffer : List ℕ)
    → c ≢ 13
    → c ≢ 0
    → f.discarding ≡ false
    → f.saw_carriage_return ≡ false
    → f.length < f.maximum_length
    → f.length < length buffer
    → All (λ c. c ≢ 10) (characters ((c, now) ∷ rest))
    → (let g = record (activate f now) { length = f.length + 1 } in
        Collected g
          (set buffer f.length c)
          (feed g rest (some (set buffer f.length c)))
          (collect (g.maximum_length - g.length) (characters rest)))
    → Collected f buffer
        (feed f ((c, now) ∷ rest) (some buffer))
        (collect (f.maximum_length - f.length) (characters ((c, now) ∷ rest)))
feed_kept rest f c now buffer ne ne' d s fits inside h ih =
    let g = record (activate f now) { length = f.length + 1 } in
    let same : g.maximum_length - g.length ≡ f.maximum_length - f.length - 1 = ground arith in
    rw
      (
        collect-kept (f.maximum_length - f.length) c (characters rest) ne ne' (omega arith),
        feed-store f c now rest buffer h.0,
        store_kept f c now buffer d s ne ne' fits,
        ← same,
      )
      (Collected-cons f g c buffer (feed g rest (some (set buffer f.length c))) _ refl inside ih)

pub feed-Collected :
    (input : Input) (f : CliFrame) (buffer : List ℕ)
    → All (λ c. c ≢ 10) (characters input)
    → f.discarding ≡ false
    → f.saw_carriage_return ≡ false
    → f.length ≤ f.maximum_length
    → f.maximum_length ≤ length buffer
    → Collected f buffer
        (feed f input (some buffer))
        (collect (f.maximum_length - f.length) (characters input))
unfolding collect
feed-Collected [] f buffer h d s l m = (d, omega arith, buffer, refl, sym (append-nil _))
feed-Collected ((c, now) ∷ rest) f buffer h d s l m = elim (ℕ_discrete c 13) [
  | yes e ↦ feed_return rest f c now buffer e h d s
  | no ne ↦ elim (dec_lt f.length f.maximum_length) [
    | no full ↦ feed_refused rest f c now buffer ne (inr (omega arith)) h
    | yes fits ↦ elim (ℕ_discrete c 0) [
      | yes e ↦ feed_refused rest f c now buffer ne (inl e) h
      | no ne' ↦ feed_kept rest f c now buffer ne ne' d s fits (omega arith) h (
          feed-Collected rest (record (activate f now) { length = f.length + 1 })
            (set buffer f.length c) h.1 (ground arith) (ground arith) (ground arith)
            (ground (arith, length-set buffer f.length c)))
    ]
  ]
]
