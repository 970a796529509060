-- ===== src/ResultCache/Recent.antt =====
-- The entries of the cache in the order in which they were remembered.
use nivalo_esp.ResultCache.{
  ResultCache, CompletedCommand, valid, find_in, find, completed, remember, id_capacity,
  name_capacity, status_capacity,
}
use mathlib.Core.List.{append-nil, append_assoc, reverse, reverse-cons, reverse-append}
use nivalo_esp.Common.{
  take-append-drop, take-length_append, drop-length_append, length-append, ℕ, zero, suc, ◌+◌, ◌%◌,
  ◌<◌, ◌≡◌, inl, inr, refl, sym, ap, ap₂, subst, ◌∙◌, Bool, true, false, ◌&&◌, arith, List, [], ◌∷◌,
  ◌++◌, Option, none, some, length, set, take, drop, if◌then◌else◌, is_some, Bool-cases,
  Option-cases, Text, text_eq, text_eq_iff, or_empty,
}

-- A call of `remember`.
pub record Call : Type 0 where
  pub command_id : Option Text
  pub command_name : Option Text
  pub status : Option Text
  pub message : Option Text

abbrev pub is_valid_call : Call → Bool
is_valid_call k =
    valid k.command_id id_capacity
    && valid k.command_name name_capacity
    && valid k.status status_capacity
    && is_some k.message

abbrev pub completed_by : Call → CompletedCommand
completed_by k =
    completed (or_empty k.command_id) (or_empty k.command_name) (or_empty k.status)
      (or_empty k.message)

-- The specification: eight places, the newest first. A command that is new takes the first, and
-- the last is lost.
abbrev pub remember_newest :
    List (Option CompletedCommand) → Call → Bool × List (Option CompletedCommand)
remember_newest recent k =
    if is_valid_call k
    then (
      true,
      if is_some (find_in (or_empty k.command_id) recent)
          then recent
          else some (completed_by k) ∷ take 7 recent,
    )
    else (false, recent)

-- The newest first: the entries before `next`, then those from it on, each from the last.
abbrev pub recent : ResultCache → List (Option CompletedCommand)
recent c = reverse (take c.next c.entries) ++ reverse (drop c.next c.entries)

-- No two entries have one identifier.
abbrev pub Distinct : List (Option CompletedCommand) → Type 0
Distinct [] = Unit
Distinct (none ∷ rest) = Distinct rest
Distinct (some e ∷ rest) = (find_in e.command_id rest ≡ none) × Distinct rest

abbrev or_else : Option CompletedCommand → Option CompletedCommand → Option CompletedCommand
or_else none o = o
or_else (some e) o = some e

find_in-append :
    (id : Text) (xs ys : List (Option CompletedCommand))
    → find_in id (xs ++ ys) ≡ or_else (find_in id xs) (find_in id ys)
unfolding find_in
find_in-append id [] ys = refl
find_in-append id (none ∷ xs) ys = find_in-append id xs ys
find_in-append id (some e ∷ xs) ys = ground (arith, find_in-append id xs ys)

-- The identifier that an entry is found by is its own.
find_in-id :
    (id : Text) (xs : List (Option CompletedCommand)) (e : CompletedCommand)
    → find_in id xs ≡ some e
    → e.command_id ≡ id
unfolding find_in
find_in-id id [] e h = ground arith
find_in-id id (none ∷ xs) e h = find_in-id id xs e h
find_in-id id (some d ∷ xs) e h = ground (arith, find_in-id id xs e, text_eq_iff d.command_id id)

or_else-none : (o : Option CompletedCommand) → or_else o none ≡ o
or_else-none none = refl
or_else-none (some e) = refl

find_in_last :
    (id : Text) (e : CompletedCommand) (xs : List (Option CompletedCommand))
    → find_in e.command_id xs ≡ none
    → or_else (find_in id xs) (find_in id (some e ∷ [])) ≡ find_in id (some e ∷ xs)
find_in_last id e xs h = elim (Bool-cases (text_eq e.command_id id)) [
  | inl same ↦
      let e' : find_in id xs ≡ none =
        subst (λ t. find_in t xs ≡ none) ((text_eq_iff e.command_id id).0 same) h in
      unfold find_in in rw (e', same) refl
  | inr other ↦ unfold find_in in rw other (or_else-none (find_in id xs))
]

find_in-reverse :
    (id : Text) (xs : List (Option CompletedCommand))
    → Distinct xs
    → find_in id (reverse xs) ≡ find_in id xs
unfolding find_in
find_in-reverse id [] d = refl
find_in-reverse id (none ∷ xs) d =
    ap (find_in id) (reverse-cons none xs)
    ∙ find_in-append id (reverse xs) (none ∷ [])
    ∙ ap (λ o. or_else o none) (find_in-reverse id xs d)
    ∙ or_else-none (find_in id xs)
find_in-reverse id (some e ∷ xs) d =
    ap (find_in id) (reverse-cons (some e) xs)
    ∙ find_in-append id (reverse xs) (some e ∷ [])
    ∙ ap (λ o. or_else o (find_in id (some e ∷ []))) (find_in-reverse id xs d.1)
    ∙ find_in_last id e xs d.0

find_in-left :
    (id : Text) (xs ys : List (Option CompletedCommand))
    → find_in id (xs ++ ys) ≡ none
    → find_in id xs ≡ none
find_in-left id xs ys h =
    let e = find_in-append id xs ys in
    elim (Option-cases (find_in id xs)) [
      | inl missing ↦ missing
      | inr (f, found) ↦ absurd (ground arith)
    ]

Distinct-left : (xs ys : List (Option CompletedCommand)) → Distinct (xs ++ ys) → Distinct xs
Distinct-left [] ys d = tt
Distinct-left (none ∷ xs) ys d = Distinct-left xs ys d
Distinct-left (some e ∷ xs) ys d = (find_in-left e.command_id xs ys d.0, Distinct-left xs ys d.1)

Distinct-right : (xs ys : List (Option CompletedCommand)) → Distinct (xs ++ ys) → Distinct ys
Distinct-right [] ys d = d
Distinct-right (none ∷ xs) ys d = Distinct-right xs ys d
Distinct-right (some e ∷ xs) ys d = Distinct-right xs ys d.1

-- Where no two entries have one identifier, the order does not matter.
pub find_in-recent :
    (c : ResultCache) (id : Text)
    → Distinct c.entries
    → find_in id (recent c) ≡ find_in id c.entries
find_in-recent c id d =
    let before = take c.next c.entries in
    let after = drop c.next c.entries in
    let whole : before ++ after ≡ c.entries = take-append-drop c.next c.entries in
    let d' : Distinct (before ++ after) = subst Distinct (sym whole) d in
    find_in-append id (reverse before) (reverse after)
    ∙ ap₂ or_else (find_in-reverse id before (Distinct-left before after d'))
        (find_in-reverse id after (Distinct-right before after d'))
    ∙ sym (find_in-append id before after)
    ∙ ap (find_in id) whole

text_eq-sym : (a b : Text) → text_eq a b ≡ false → text_eq b a ≡ false
text_eq-sym a b h = elim (Bool-cases (text_eq b a)) [
  | inl e ↦ absurd (ground (arith, (text_eq_iff a b).1 (sym ((text_eq_iff b a).0 e))))
  | inr e ↦ e
]

find_in-replace :
    (id : Text) (xs ys : List (Option CompletedCommand)) (old : Option CompletedCommand)
    (e : CompletedCommand)
    → find_in id (xs ++ old ∷ ys) ≡ none
    → text_eq e.command_id id ≡ false
    → find_in id (xs ++ some e ∷ ys) ≡ none
unfolding find_in
find_in-replace id [] ys none e h ne = ground arith
find_in-replace id [] ys (some o) e h ne = ground arith
find_in-replace id (none ∷ xs) ys old e h ne = find_in-replace id xs ys old e h ne
find_in-replace id (some f ∷ xs) ys old e h ne = ground (arith, find_in-replace id xs ys old e)

pub Distinct-replace :
    (xs ys : List (Option CompletedCommand)) (old : Option CompletedCommand) (e : CompletedCommand)
    → find_in e.command_id (xs ++ old ∷ ys) ≡ none
    → Distinct (xs ++ old ∷ ys)
    → Distinct (xs ++ some e ∷ ys)
unfolding find_in
Distinct-replace [] ys none e h d = (h, d)
Distinct-replace [] ys (some o) e h d = (ground arith, d.1)
Distinct-replace (none ∷ xs) ys old e h d = Distinct-replace xs ys old e h d
Distinct-replace (some f ∷ xs) ys old e h d =
    let other : text_eq f.command_id e.command_id ≡ false = ground arith in
    let rest : find_in e.command_id (xs ++ old ∷ ys) ≡ none = ground arith in
    (
      find_in-replace f.command_id xs ys old e d.0 (text_eq-sym f.command_id e.command_id other),
      Distinct-replace xs ys old e rest d.1,
    )

set-append :
    (xs ys : List (Option CompletedCommand)) (old new : Option CompletedCommand)
    → set (xs ++ old ∷ ys) (length xs) new ≡ xs ++ new ∷ ys
set-append [] ys old new = refl
set-append (x ∷ xs) ys old new = ap (◌∷◌ x) (set-append xs ys old new)

pub drop_inside :
    (n : ℕ) (xs : List (Option CompletedCommand))
    → n < length xs
    → (x : Option CompletedCommand) × (rest : List (Option CompletedCommand)) × (drop n xs
        ≡ x ∷ rest)
drop_inside n [] h = absurd (omega arith)
drop_inside zero (x ∷ xs) h = (x, xs, refl)
drop_inside (suc n) (x ∷ xs) h = drop_inside n xs (omega arith)

length-reverse : (xs : List (Option CompletedCommand)) → length (reverse xs) ≡ length xs
length-reverse [] = refl
length-reverse (x ∷ xs) =
    ap length (reverse-cons x xs)
    ∙ omega (arith, length-append (reverse xs) (x ∷ []), length-reverse xs)

-- The entries around the one that is replaced.
module _ (xs ys : List (Option CompletedCommand)) where
  abbrev pub at : Option CompletedCommand → ResultCache
  at e = record { entries = xs ++ e ∷ ys; next = length xs }

  recent-at : (e : Option CompletedCommand) → recent (at e) ≡ (reverse xs ++ reverse ys) ++ e ∷ []
  recent-at e =
      rw (take-length_append xs (e ∷ ys), drop-length_append xs (e ∷ ys), reverse-cons e ys)
        (sym (append_assoc (reverse xs) (reverse ys) (e ∷ [])))

  pub take-recent :
      (e : Option CompletedCommand)
      → length xs + length ys ≡ 7
      → take 7 (recent (at e)) ≡ reverse xs ++ reverse ys
  take-recent e h =
      let seven : length (reverse xs ++ reverse ys) ≡ 7 =
        omega
          (arith, length-append (reverse xs) (reverse ys), length-reverse xs, length-reverse ys) in
      ap (take 7) (recent-at e)
      ∙ subst (λ n. take n ((reverse xs ++ reverse ys) ++ e ∷ []) ≡ reverse xs ++ reverse ys) seven
          (take-length_append (reverse xs ++ reverse ys) (e ∷ []))

  pub remember-at :
      (k : Call) (old : Option CompletedCommand)
      → is_valid_call k ≡ true
      → find_in (or_empty k.command_id) (xs ++ old ∷ ys) ≡ none
      → remember (at old) k.command_id k.command_name k.status k.message
        ≡ (true, record { entries = xs ++ some (completed_by k) ∷ ys; next = (length xs + 1) % 8 })
  unfolding remember find
  remember-at k old ok new = rw (new, set-append xs ys old (some (completed_by k))) (ground arith)

pub recent_advanced :
    (xs ys : List (Option CompletedCommand)) (e : Option CompletedCommand)
    → length xs + length ys ≡ 7
    → recent (record { entries = xs ++ e ∷ ys; next = (length xs + 1) % 8 })
      ≡ e ∷ reverse xs ++ reverse ys
recent_advanced xs [] e h =
    let wrapped : (length xs + 1) % 8 ≡ 0 = omega arith in
    rw wrapped (reverse-append xs (e ∷ []) ∙ sym (append-nil (e ∷ reverse xs)))
recent_advanced xs (y ∷ ys) e h =
    let n : (length xs + 1) % 8 ≡ length (xs ++ e ∷ []) =
      omega (arith, length-append xs (e ∷ [])) in
    rw
      (
        n,
        ← append_assoc xs (e ∷ []) (y ∷ ys),
        take-length_append (xs ++ e ∷ []) (y ∷ ys),
        drop-length_append (xs ++ e ∷ []) (y ∷ ys),
        reverse-append xs (e ∷ []),
      )
      refl
