-- ===== src/ResultCache/Kept.antt =====
-- A result stays in the cache while at most seven other commands are remembered.
use nivalo_esp.ResultCache.{
  ResultCache, CompletedCommand, valid, find, find_in, remember, id_capacity,
}
use nivalo_esp.ResultCache.Recent.{
  Call, is_valid_call, completed_by, remember_newest, recent, find_in-recent,
}
use nivalo_esp.ResultCache.Fifo.{IsValid, remember-newest, completed_by-id, find_valid}
use nivalo_esp.Common.{
  ℕ, zero, suc, ◌≤◌, ◌≡◌, inl, inr, refl, sym, ap, subst, ◌∙◌, Bool, true, arith, List, [], ◌∷◌,
  Option, none, some, take, Bool-cases, Option-cases, Text, text_eq, text_eq_iff, or_empty,
  if_cases,
}

-- One of the `age` newest results of the cache is found under this identifier.
pub record IsKept (age : ℕ) (id : Text) (e : CompletedCommand) (c : ResultCache) : Type 0 where
  pub valid : IsValid c
  pub found : find_in id (take age (recent c)) ≡ some e

find_in-take :
    (id : Text) (n : ℕ) (r : List (Option CompletedCommand)) (e : CompletedCommand)
    → find_in id (take n r) ≡ some e
    → find_in id (take (suc n) r) ≡ some e
unfolding find_in
find_in-take id zero r e h = absurd (ground arith)
find_in-take id (suc n) [] e h = absurd (ground arith)
find_in-take id (suc n) (none ∷ r) e h = find_in-take id n r e h
find_in-take id (suc n) (some d ∷ r) e h = ground (arith, find_in-take id n r e)

find_in-take_all :
    (id : Text) (n : ℕ) (r : List (Option CompletedCommand)) (e : CompletedCommand)
    → find_in id (take n r) ≡ some e
    → find_in id r ≡ some e
unfolding find_in
find_in-take_all id zero r e h = absurd (ground arith)
find_in-take_all id (suc n) [] e h = absurd (ground arith)
find_in-take_all id (suc n) (none ∷ r) e h = find_in-take_all id n r e h
find_in-take_all id (suc n) (some d ∷ r) e h = ground (arith, find_in-take_all id n r e)

take-take : {A : Type 0} (n m : ℕ) (xs : List A) → n ≤ m → take n (take m xs) ≡ take n xs
take-take zero m xs h = refl
take-take (suc n) zero xs h = absurd (omega arith)
take-take (suc n) (suc m) [] h = refl
take-take (suc n) (suc m) (x ∷ xs) h = ap (◌∷◌ x) (take-take n m xs (omega arith))

find_in-skip :
    (id : Text) (d e : CompletedCommand) (r : List (Option CompletedCommand)) (k : Call) (n : ℕ)
    → d.command_id ≡ or_empty k.command_id
    → find_in (or_empty k.command_id) r ≡ none
    → find_in id (take n r) ≡ some e
    → find_in id (some d ∷ take n r) ≡ some e
unfolding find_in
find_in-skip id d e r k n same new h =
    if_cases (λ o. o ≡ some e) (text_eq d.command_id id) (some d) (find_in id (take n r))
      (λ t. absurd (
        ground (
          arith,
          find_in-take_all id n r e h,
          subst (λ i. find_in i r ≡ none) (sym same ∙ (text_eq_iff d.command_id id).0 t) new,
        )))
      (λ f. h)

newest-kept :
    (id : Text) (n : ℕ) (r : List (Option CompletedCommand)) (e : CompletedCommand) (k : Call)
    → n ≤ 7
    → find_in id (take n r) ≡ some e
    → find_in id (take (suc n) (remember_newest r k).1) ≡ some e
newest-kept id n r e k l h = elim (Bool-cases (is_valid_call k)) [
  | inr bad ↦ rw bad (find_in-take id n r e h)
  | inl ok ↦ elim (Option-cases (find_in (or_empty k.command_id) r)) [
    | inr (d, known) ↦ rw (ok, known) (find_in-take id n r e h)
    | inl new ↦
        rw (ok, new, take-take n 7 r l)
          (find_in-skip id (completed_by k) e r k n (completed_by-id k ok) new h)
  ]
]

pub IsKept-remember :
    (age : ℕ) (id : Text) (e : CompletedCommand) (c : ResultCache) (k : Call)
    → age ≤ 7
    → IsKept age id e c
    → IsKept (suc age) id e (remember c k.command_id k.command_name k.status k.message).1
IsKept-remember age id e c k l kept =
    let (v, r) = remember-newest c k kept.valid in
    record {
      valid = v;
      found =
          ap (λ (p : Bool × List (Option CompletedCommand)). find_in id (take (suc age) p.1)) r
          ∙ newest-kept id age (recent c) e k l kept.found;
    }

pub IsKept-suc :
    (age : ℕ) (id : Text) (e : CompletedCommand) (c : ResultCache)
    → IsKept age id e c
    → IsKept (suc age) id e c
IsKept-suc age id e c kept = record {
  valid = kept.valid;
  found = find_in-take id age (recent c) e kept.found;
}

-- A new command that is remembered is the newest.
pub IsKept-first :
    (c : ResultCache) (k : Call)
    → IsValid c
    → is_valid_call k ≡ true
    → find_in (or_empty k.command_id) c.entries ≡ none
    → IsKept 1
        (or_empty k.command_id)
        (completed_by k)
        (remember c k.command_id k.command_name k.status k.message).1
IsKept-first c k v ok new =
    let (v', r) = remember-newest c k v in
    let new' : find_in (or_empty k.command_id) (recent c) ≡ none =
      find_in-recent c (or_empty k.command_id) v.distinct ∙ new in
    let same : text_eq (completed_by k).command_id (or_empty k.command_id) ≡ true =
      (text_eq_iff (completed_by k).command_id (or_empty k.command_id)).1 (completed_by-id k ok) in
    let newest : find_in (or_empty k.command_id) (take 1 (remember_newest (recent c) k).1)
        ≡ some (completed_by k) =
      rw (ok, new') (unfold find_in in rw same refl) in
    record {
      valid = v';
      found =
          ap
            (λ (p : Bool × List (Option CompletedCommand)).
              find_in (or_empty k.command_id) (take 1 p.1))
            r
          ∙ newest;
    }

pub find-IsKept :
    (age : ℕ) (id : Text) (e : CompletedCommand) (c : ResultCache)
    → valid (some id) id_capacity ≡ true
    → IsKept age id e c
    → find c (some id) ≡ some e
find-IsKept age id e c ok kept =
    find_valid c id ok
    ∙ sym (find_in-recent c id kept.valid.distinct)
    ∙ find_in-take_all id age (recent c) e kept.found
