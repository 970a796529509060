-- ===== src/Telemetry/Queue.antt =====
-- The ring is a queue that gives up its oldest entry when it is full.
use native.Mathlib.Decide.{dec_lt}
use nivalo_esp.Telemetry.{keep, drop_oldest, TelemetryBuffer}
use nivalo_esp.Common.{
  ◌==◌, refl, ltb, drop, ◌-◌, sym, length-set, get_or-set_self, if◌then◌else◌, ◌∙◌, get_or-set_ne,
}
use nivalo_esp.Common.{
  ℕ, zero, suc, ◌+◌, ◌%◌, ◌-◌, ◌≤◌, ◌<◌, ◌≡◌, ◌≢◌, refl, sym, ap, ap₂, subst, arith, List, [], ◌∷◌,
  ◌++◌, length, get_or, set, Text,
}

-- The next `n` entries of a ring of eight from `head` on.
abbrev pub ring : ℕ → ℕ → List Text → List Text
ring zero head entries = []
ring (suc n) head entries = get_or entries head [] ∷ ring n ((head + 1) % 8) entries

-- The oldest first.
abbrev pub queue : TelemetryBuffer → List Text
queue b = ring b.count b.head b.entries

pub record IsValid (b : TelemetryBuffer) : Type 0 where
  pub size : length b.entries ≡ 8
  pub inside : b.head < 8
  pub fits : b.count ≤ b.capacity
  pub bounded : b.capacity ≤ 8

length-ring : (n head : ℕ) (entries : List Text) → length (ring n head entries) ≡ n
length-ring zero head entries = refl
length-ring (suc n) head entries = ap suc (length-ring n ((head + 1) % 8) entries)

-- A write behind the entries.
ring-set :
    (n k head : ℕ) (entries : List Text) (output : Text)
    → head < 8
    → n ≤ k
    → k < 8
    → ring n head (set entries ((head + k) % 8) output) ≡ ring n head entries
ring-set zero k head entries output h l m = refl
ring-set (suc n) k head entries output h l m =
    let apart : (head + k) % 8 ≢ head = λ e. omega arith in
    let next : ((head + 1) % 8 + (k - 1)) % 8 ≡ (head + k) % 8 = omega arith in
    let rest : ring n ((head + 1) % 8) (set entries ((head + k) % 8) output)
        ≡ ring n ((head + 1) % 8) entries =
      subst (λ t. ring n ((head + 1) % 8) (set entries t output) ≡ ring n ((head + 1) % 8) entries)
        next
        (ring-set n (k - 1) ((head + 1) % 8) entries output (omega arith) (omega arith)
          (omega arith)) in
    ap₂ (◌∷◌) (get_or-set_ne entries output [] apart) rest

ring-snoc :
    (n head : ℕ) (entries : List Text)
    → head < 8
    → ring (suc n) head entries ≡ ring n head entries ++ get_or entries ((head + n) % 8) [] ∷ []
ring-snoc zero head entries h = let here : (head + 0) % 8 ≡ head = omega arith in rw here refl
ring-snoc (suc n) head entries h =
    let next : ((head + 1) % 8 + n) % 8 ≡ (head + suc n) % 8 = omega arith in
    ap (◌∷◌ (get_or entries head [])) (
      subst
        (λ t.
          ring (suc n) ((head + 1) % 8) entries
          ≡ ring n ((head + 1) % 8) entries ++ get_or entries t [] ∷ [])
        next (ring-snoc n ((head + 1) % 8) entries (omega arith)))

-- Clearing the head does not touch the entries behind it.
ring-clear :
    (n k head : ℕ) (entries : List Text)
    → head < 8
    → 1 ≤ k
    → k + n ≤ 8
    → ring n ((head + k) % 8) (set entries head []) ≡ ring n ((head + k) % 8) entries
ring-clear zero k head entries h l m = refl
ring-clear (suc n) k head entries h l m =
    let apart : head ≢ (head + k) % 8 = λ e. omega arith in
    let next : ((head + k) % 8 + 1) % 8 ≡ (head + (k + 1)) % 8 = omega arith in
    ap₂ (◌∷◌) (get_or-set_ne entries [] [] apart) (
      subst (λ t. ring n t (set entries head []) ≡ ring n t entries) (sym next)
        (ring-clear n (k + 1) head entries h (omega arith) (omega arith)))

module _ (b : TelemetryBuffer) (v : IsValid b) where
  queue-append :
      (output : Text)
      → b.count < 8
      → queue (record b {
        entries = set b.entries ((b.head + b.count) % 8) output;
        count = b.count + 1;
      })
        ≡ queue b ++ output ∷ []
  queue-append output h =
      let tail = (b.head + b.count) % 8 in
      let one_more : b.count + 1 ≡ suc b.count = omega arith in
      ap (λ n. ring n b.head (set b.entries tail output)) one_more
      ∙ ring-snoc b.count b.head (set b.entries tail output) v.inside
      ∙ ap₂ (λ q o. q ++ o ∷ [])
          (ring-set b.count b.count b.head b.entries output v.inside (omega arith) h)
          (get_or-set_self b.entries tail output [] (omega (arith, v.size)))

  pub queue-count :
      (n : ℕ)
      → b.count ≡ suc n
      → queue b ≡ get_or b.entries b.head [] ∷ ring n ((b.head + 1) % 8) b.entries
  queue-count n e = ap (λ c. ring c b.head b.entries) e

  pub queue-drop_oldest :
      (n : ℕ) → b.count ≡ suc n → queue (drop_oldest b) ≡ ring n ((b.head + 1) % 8) b.entries
  unfolding drop_oldest
  queue-drop_oldest n e =
      let less : b.count - 1 ≡ n = omega arith in
      ap (λ c. ring c ((b.head + 1) % 8) (set b.entries b.head [])) less
      ∙ ring-clear n 1 b.head b.entries v.inside (omega arith) (omega (arith, v.fits, v.bounded))

  pub drop_oldest-IsValid : 1 ≤ b.count → IsValid (drop_oldest b)
  unfolding drop_oldest
  drop_oldest-IsValid h = record {
    size = omega (arith, length-set b.entries b.head [], v.size);
    inside = omega arith;
    fits = omega (arith, v.fits);
    bounded = v.bounded;
  }

abbrev added : TelemetryBuffer → Text → TelemetryBuffer
added b output = record b {
  entries = set b.entries ((b.head + b.count) % 8) output;
  count = b.count + 1;
}

added-IsValid :
    (b : TelemetryBuffer) (output : Text)
    → IsValid b
    → b.count < b.capacity
    → IsValid (added b output)
added-IsValid b output v h = record {
  size = omega (arith, length-set b.entries ((b.head + b.count) % 8) output, v.size);
  inside = v.inside;
  fits = omega arith;
  bounded = v.bounded;
}

module _ (b : TelemetryBuffer) (output : Text) where
  keep_nothing : b.capacity ≡ 0 → keep b output ≡ b
  unfolding keep
  keep_nothing e = ground arith

  keep_full : 0 < b.capacity → b.count ≡ b.capacity → keep b output ≡ added (drop_oldest b) output
  unfolding keep
  keep_full h e = ground arith

  keep_room : 0 < b.capacity → b.count < b.capacity → keep b output ≡ added b output
  unfolding keep
  keep_room h k = ground arith

pub drop_oldest-count :
    (b : TelemetryBuffer)
    → ((drop_oldest b).count ≡ b.count - 1) × ((drop_oldest b).capacity ≡ b.capacity)
unfolding drop_oldest
drop_oldest-count b = (refl, refl)

-- The queue after a payload that was not sent: without a capacity it is not kept, and the oldest
-- goes when the queue is full.
abbrev pub keep_newest : ℕ → List Text → Text → List Text
keep_newest capacity q output =
    if ltb 0 capacity then (if length q == capacity then drop 1 q else q) ++ output ∷ [] else q

module _ (capacity : ℕ) (q : List Text) (output : Text) where
  kept_none : capacity ≡ 0 → keep_newest capacity q output ≡ q
  kept_none e = ground arith

  kept_room : 0 < capacity → length q < capacity → keep_newest capacity q output ≡ q ++ output ∷ []
  kept_room h k = ground arith

  kept_full :
      0 < capacity → length q ≡ capacity → keep_newest capacity q output ≡ drop 1 q ++ output ∷ []
  kept_full h e = ground arith

-- Keeping a payload in a valid buffer leaves it valid, and appends the payload to its queue; a full
-- queue first loses its oldest payload, and one without capacity stays empty.
pub queue-keep :
    (b : TelemetryBuffer) (output : Text)
    → IsValid b
    → IsValid (keep b output) × (queue (keep b output) ≡ keep_newest b.capacity (queue b) output)
queue-keep b output v = elim (dec_lt 0 b.capacity) [
  | no none_kept ↦
      let e : b.capacity ≡ 0 = omega arith in
      subst (λ r. IsValid r × (queue r ≡ keep_newest b.capacity (queue b) output))
        (sym (keep_nothing b output e)) (v, sym (kept_none b.capacity (queue b) output e))
  | yes some_kept ↦ elim (dec_lt b.count b.capacity) [
    | yes room ↦
        subst (λ r. IsValid r × (queue r ≡ keep_newest b.capacity (queue b) output))
          (sym (keep_room b output some_kept room))
          (
            added-IsValid b output v room,
            queue-append b v output (omega (arith, v.bounded))
                ∙ sym (
                    kept_room b.capacity (queue b) output some_kept
                      (omega (arith, length-ring b.count b.head b.entries))),
          )
    | no full ↦
        let e : b.count ≡ b.capacity = omega (arith, v.fits) in
        let n : b.count ≡ suc (b.count - 1) = omega arith in
        let (count, capacity) = drop_oldest-count b in
        let v' = drop_oldest-IsValid b v (omega arith) in
        subst (λ r. IsValid r × (queue r ≡ keep_newest b.capacity (queue b) output))
          (sym (keep_full b output some_kept e))
          (
            added-IsValid (drop_oldest b) output v' (omega arith),
            queue-append (drop_oldest b) v' output (omega (arith, v.bounded))
                ∙ ap (λ q. q ++ output ∷ [])
                    (queue-drop_oldest b v (b.count - 1) n
                      ∙ sym (ap (drop 1) (queue-count b v (b.count - 1) n)))
                ∙ sym (
                    kept_full b.capacity (queue b) output some_kept
                      (length-ring b.count b.head b.entries ∙ e)),
          )
  ]
]
