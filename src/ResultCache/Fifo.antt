-- ===== src/ResultCache/Fifo.antt =====
-- The cache is a queue of the eight commands remembered last.
use nivalo_esp.ResultCache.{
  copy, ResultCache, CompletedCommand, empty, valid, find_in, find, completed, remember,
  id_capacity,
}
use nivalo_esp.ResultCache.Recent.{
  Call, is_valid_call, completed_by, remember_newest, recent, Distinct, find_in-recent,
  Distinct-replace, drop_inside, recent_advanced, take-recent, remember-at, at,
}
use nivalo_esp.Common.{
  take-append-drop, length-append, length-take, take_all, ◌+◌, ◌%◌, ◌≤◌, ◌<◌, ◌≡◌, inl, inr, refl,
  sym, ap, ap₂, subst, ◌∙◌, true, false, arith, List, [], ◌∷◌, ◌++◌, Option, none, some, length,
  take, replicate, Bool-cases, Option-cases, Text, or_empty,
}

pub record IsValid (c : ResultCache) : Type 0 where
  pub inside : c.next < 8
  pub size : length c.entries ≡ 8
  pub distinct : Distinct c.entries

pub completed_by-id :
    (k : Call) → is_valid_call k ≡ true → (completed_by k).command_id ≡ or_empty k.command_id
unfolding completed copy valid
completed_by-id k h = elim (Option-cases k.command_id) [
  | inl missing ↦ absurd (ground arith)
  | inr (id, e) ↦
      let short : length id ≤ 39 = unfold valid in ground arith in rw e (take_all 39 id short)
]

-- The cache after a call that is new to it.
abbrev Stored : ResultCache → Call → Type 0
Stored c k =
    let (stored, c') = remember c k.command_id k.command_name k.status k.message in
    (stored ≡ true) × IsValid c' × (recent c' ≡ some (completed_by k) ∷ take 7 (recent c))

Stored-at :
    (xs ys : List (Option CompletedCommand)) (old : Option CompletedCommand) (k : Call)
    → length xs + length ys ≡ 7
    → Distinct (xs ++ old ∷ ys)
    → is_valid_call k ≡ true
    → find_in (or_empty k.command_id) (xs ++ old ∷ ys) ≡ none
    → Stored (at xs ys old) k
Stored-at xs ys old k seven d ok new =
    let e = some (completed_by k) in
    let unknown : find_in (completed_by k).command_id (xs ++ old ∷ ys) ≡ none =
      subst (λ id. find_in id (xs ++ old ∷ ys) ≡ none) (sym (completed_by-id k ok)) new in
    let valid' : IsValid (record { entries = xs ++ e ∷ ys; next = (length xs + 1) % 8 }) = record {
      inside = omega arith;
      size = omega (arith, length-append xs (e ∷ ys));
      distinct = Distinct-replace xs ys old (completed_by k) unknown d;
    } in
    subst (λ r. (r.0 ≡ true) × IsValid r.1 × (recent r.1 ≡ e ∷ take 7 (recent (at xs ys old))))
      (sym (remember-at xs ys k old ok new))
      (refl, valid', recent_advanced xs ys e seven ∙ ap (◌∷◌ e) (sym (take-recent xs ys old seven)))

remember-Stored :
    (c : ResultCache) (k : Call)
    → IsValid c
    → is_valid_call k ≡ true
    → find_in (or_empty k.command_id) c.entries ≡ none
    → Stored c k
remember-Stored c k v ok new =
    let xs = take c.next c.entries in
    let (old, ys, e) = drop_inside c.next c.entries (omega (arith, v.inside, v.size)) in
    let whole : xs ++ old ∷ ys ≡ c.entries =
      ap (λ r. xs ++ r) (sym e) ∙ take-append-drop c.next c.entries in
    let n : length xs ≡ c.next = omega (arith, length-take c.next c.entries, v.inside, v.size) in
    let seven : length xs + length ys ≡ 7 =
      omega (arith, length-append xs (old ∷ ys), ap length whole, v.size) in
    subst (λ c. Stored c k) (λ i. record { entries = whole i; next = n i })
      (Stored-at xs ys old k seven (subst Distinct (sym whole) v.distinct) ok
        (subst (λ es. find_in (or_empty k.command_id) es ≡ none) (sym whole) new))

remember_invalid :
    (c : ResultCache) (k : Call)
    → is_valid_call k ≡ false
    → remember c k.command_id k.command_name k.status k.message ≡ (false, c)
unfolding remember
remember_invalid c k bad = ground arith

remember_known :
    (c : ResultCache) (k : Call) (e : CompletedCommand)
    → is_valid_call k ≡ true
    → find_in (or_empty k.command_id) c.entries ≡ some e
    → remember c k.command_id k.command_name k.status k.message ≡ (true, c)
unfolding remember find
remember_known c k e ok known = ground arith

module _ (r : List (Option CompletedCommand)) (k : Call) where
  newest_invalid : is_valid_call k ≡ false → remember_newest r k ≡ (false, r)
  newest_invalid bad = ground arith

  newest_known :
      (e : CompletedCommand)
      → is_valid_call k ≡ true
      → find_in (or_empty k.command_id) r ≡ some e
      → remember_newest r k ≡ (true, r)
  newest_known e ok known = ground arith

  newest_new :
      is_valid_call k ≡ true
      → find_in (or_empty k.command_id) r ≡ none
      → remember_newest r k ≡ (true, some (completed_by k) ∷ take 7 r)
  newest_new ok new = ground arith

-- One call: the cache stays valid, and its entries in order change as the queue does.
pub remember-newest :
    (c : ResultCache) (k : Call)
    → IsValid c
    → let (stored, c') = remember c k.command_id k.command_name k.status k.message in
      IsValid c' × ((stored, recent c') ≡ remember_newest (recent c) k)
remember-newest c k v = elim (Bool-cases (is_valid_call k)) [
  | inr bad ↦
      subst (λ r. IsValid r.1 × ((r.0, recent r.1) ≡ remember_newest (recent c) k))
        (sym (remember_invalid c k bad)) (v, sym (newest_invalid (recent c) k bad))
  | inl ok ↦ elim (Option-cases (find_in (or_empty k.command_id) c.entries)) [
    | inr (e, known) ↦
        subst (λ r. IsValid r.1 × ((r.0, recent r.1) ≡ remember_newest (recent c) k))
          (sym (remember_known c k e ok known))
          (
            v,
            sym (
                newest_known (recent c) k e ok
                  (find_in-recent c (or_empty k.command_id) v.distinct ∙ known)),
          )
    | inl new ↦
        let (stored, v', e) = remember-Stored c k v ok new in
        (
          v',
          ap₂ (λ b r. (b, r)) stored e
              ∙ sym (
                  newest_new (recent c) k ok
                    (find_in-recent c (or_empty k.command_id) v.distinct ∙ new)),
        )
  ]
]

-- A run of calls.
abbrev pub remember_all : List Call → ResultCache → ResultCache
remember_all [] c = c
remember_all (k ∷ ks) c =
    remember_all ks (remember c k.command_id k.command_name k.status k.message).1

abbrev pub newest_all : List Call → List (Option CompletedCommand) → List (Option CompletedCommand)
newest_all [] recent = recent
newest_all (k ∷ ks) recent = newest_all ks (remember_newest recent k).1

remember_all-newest_all :
    (ks : List Call) (c : ResultCache)
    → IsValid c
    → IsValid (remember_all ks c) × (recent (remember_all ks c) ≡ newest_all ks (recent c))
remember_all-newest_all [] c v = (v, refl)
remember_all-newest_all (k ∷ ks) c v =
    let (v', e) = remember-newest c k v in
    let (v'', e') =
      remember_all-newest_all ks (remember c k.command_id k.command_name k.status k.message).1 v' in
    (v'', e' ∙ ap (λ r. newest_all ks r.1) e)

pub find_valid :
    (c : ResultCache) (id : Text)
    → valid (some id) id_capacity ≡ true
    → find c (some id) ≡ find_in id c.entries
unfolding find
find_valid c id ok = rw ok refl

pub empty-IsValid : IsValid empty
unfolding empty
empty-IsValid = record { inside = omega arith; size = refl; distinct = tt }

pub find-empty : (id : Text) → valid (some id) id_capacity ≡ true → find empty (some id) ≡ none
unfolding empty find_in
find-empty id ok = find_valid empty id ok

-- After any calls of `remember` on an empty cache, `find` gives for a valid identifier what the
-- queue of eight places, which keeps the first result of a command and loses the oldest command
-- when it is full, has for it; and each further call succeeds exactly if the queue takes it.
pub find-remember_all :
    (ks : List Call) (id : Text) (k : Call)
    → valid (some id) id_capacity ≡ true
    → let c = remember_all ks empty in
      let queue = newest_all ks (replicate 8 none) in
      (find c (some id) ≡ find_in id queue)
      × ((remember c k.command_id k.command_name k.status k.message).0
          ≡ (remember_newest queue k).0)
find-remember_all ks id k ok =
    let first : recent empty ≡ replicate 8 none = unfold empty in refl in
    let (v, e) = remember_all-newest_all ks empty empty-IsValid in
    let e' : recent (remember_all ks empty) ≡ newest_all ks (replicate 8 none) =
      e ∙ ap (newest_all ks) first in
    let c = remember_all ks empty in
    (
      find_valid c id ok ∙ sym (find_in-recent c id v.distinct) ∙ ap (find_in id) e',
      ap (λ r. r.0) (remember-newest c k v).1 ∙ ap (λ q. (remember_newest q k).0) e',
    )
