-- ===== src/Store/Commit.antt =====
-- What committing leaves, from an active slot to the other one.
use nivalo_esp.Credentials.{
  is_valid_credentials, RuntimeCredentials, Json, serialize_credentials, parse_credentials,
}
use nivalo_esp.Store.{
  put_checked, commit, no_credentials, Preferences, ProvisioningStore, load, slot_a, slot_b,
  active_key,
}
use nivalo_esp.Store.Flash.{IsFlash}
use nivalo_esp.Common.{
  ℕ, get_or, arith, ◌&&◌, ◌==◌, text_eq_iff, sym, ◌≢◌, inl, inr, Bool-cases, subst, not, ◌≡◌, ◌⊎◌,
  refl, ap, ◌∙◌, Bool, true, false, [], length, ltb, if◌then◌else◌, Text, codes, text_eq,
}

and-right : (a b : Bool) → (a && b) ≡ true → b ≡ true
and-right a b h = ground arith

module _ {S : Type 0} (prefs : Preferences S) (flash : IsFlash prefs) (json : Json)
    (protected : Bool) where
  abbrev pub at : S → ProvisioningStore S
  at p = record { protected = protected; opened = true; preferences = p }

  abbrev pub slot : Text → Text
  slot active = if text_eq active (codes "B") then slot_b else slot_a

  slot-head : (active : Text) → get_or (slot active) 0 0 ≡ b's'
  slot-head active = ground arith

  pub active-slot : (active : Text) → active_key ≢ slot active
  active-slot active e =
      let same : ◌≡◌ {A = ℕ} b'a' b's' = ap (λ t. get_or t 0 0) e ∙ slot-head active in
      absurd (omega arith)

  -- What `load` makes of a slot.
  load_text : Text → RuntimeCredentials → Bool × RuntimeCredentials
  load_text value previous =
      if ltb 0 (length value) then parse_credentials json value previous else (false, previous)

  load-at :
      (p : S) (previous : RuntimeCredentials)
      → load prefs json (at p) previous
        ≡ load_text
            (prefs.get_string p (slot (prefs.get_string p active_key (codes "A"))) [])
            previous
  unfolding load load_text
  load-at p previous = refl

  -- A change of neither the active key nor the active slot is not seen.
  load-same :
      (p q : S) (current : Text) (previous : RuntimeCredentials)
      → prefs.get_string p active_key (codes "A") ≡ current
      → prefs.get_string q active_key (codes "A") ≡ current
      → prefs.get_string q (slot current) [] ≡ prefs.get_string p (slot current) []
      → load prefs json (at q) previous ≡ load prefs json (at p) previous
  load-same p q current previous e e' h =
      load-at q previous
      ∙ ap (λ a. load_text (prefs.get_string q (slot a) []) previous) e'
      ∙ ap (λ v. load_text v previous) h
      ∙ sym (ap (λ a. load_text (prefs.get_string p (slot a) []) previous) e)
      ∙ sym (load-at p previous)

  -- What `commit` leaves, with its result.
  abbrev pub Outcome : S → RuntimeCredentials → Bool × ProvisioningStore S → Type 0
  Outcome p c r =
      ((r.0 ≡ false)
        × ((previous : RuntimeCredentials)
            → load prefs json r.1 previous ≡ load prefs json (at p) previous))
      ⊎ ((previous : RuntimeCredentials) → load prefs json r.1 previous ≡ (true, c))

  module _ (p : S) (c : RuntimeCredentials) (current next : Text)
      (active : prefs.get_string p active_key (codes "A") ≡ current) where
    abbrev encoded : Text
    encoded = serialize_credentials json c

    abbrev stored : S
    stored = (prefs.put_string p (slot next) encoded).1

    abbrev switched : S
    switched = (prefs.put_string stored active_key next).1

    stored-same :
        slot next ≢ active_key
        → slot next ≢ slot current
        → (previous : RuntimeCredentials)
        → load prefs json (at stored) previous ≡ load prefs json (at p) previous
    stored-same ne ne' previous =
        load-same p stored current previous active
          (flash.put_other p (slot next) active_key encoded (codes "A") ne ∙ active)
          (flash.put_other p (slot next) (slot current) encoded [] ne')

    switched-new :
        active_key ≢ slot next
        → ltb 0 (length encoded) ≡ true
        → ((previous : RuntimeCredentials) → parse_credentials json encoded previous ≡ (true, c))
        → prefs.get_string stored (slot next) [] ≡ encoded
        → prefs.get_string switched active_key (codes "A") ≡ next
        → (previous : RuntimeCredentials) → load prefs json (at switched) previous ≡ (true, c)
    unfolding load_text
    switched-new ne nonempty parses kept e previous =
        load-at switched previous
        ∙ ap (λ a. load_text (prefs.get_string switched (slot a) []) previous) e
        ∙ ap (λ v. load_text v previous)
            (flash.put_other stored active_key (slot next) next [] ne ∙ kept)
        ∙ ap (λ b. if b then parse_credentials json encoded previous else (false, previous))
            nonempty
        ∙ parses previous

    abbrev first_check : Bool
    first_check =
        (prefs.put_string p (slot next) encoded).0 == length encoded
        && text_eq (prefs.get_string stored (slot next) []) encoded

    abbrev second_check : Bool
    second_check =
        (prefs.put_string stored active_key next).0 == length next
        && text_eq (prefs.get_string switched active_key []) next

    abbrev last_check : Bool
    last_check =
        (load prefs json (at switched) no_credentials).0
        && text_eq (serialize_credentials json (load prefs json (at switched) no_credentials).1)
            encoded

    abbrev ended : Bool → Bool → Bool → Bool × ProvisioningStore S
    ended b1 b2 b3 =
        if not b1
        then (false, at stored)
        else (if not b2 then (false, at switched) else (b3, at switched))

    commit-at :
        is_valid_credentials c ≡ true
        → (if text_eq current (codes "A") then codes "B" else codes "A") ≡ next
        → commit prefs json (at p) c ≡ ended first_check second_check last_check
    unfolding commit put_checked
    commit-at ok e = rw (ok, active, e) refl

    ended_new :
        (b2 b3 : Bool)
        → ((previous : RuntimeCredentials) → load prefs json (at switched) previous ≡ (true, c))
        → Outcome p c (ended true b2 b3)
    ended_new true b3 h = inr h
    ended_new false b3 h = inr h

    ended_old :
        (b2 b3 : Bool)
        → b2 ≡ false
        → ((previous : RuntimeCredentials)
            → load prefs json (at switched) previous ≡ load prefs json (at p) previous)
        → Outcome p c (ended true b2 b3)
    ended_old true b3 e h = absurd (ground arith)
    ended_old false b3 e h = inl (refl, h)

    unswitched :
        ((default : Text)
          → prefs.get_string switched active_key default
            ≡ prefs.get_string stored active_key default)
        → slot next ≢ active_key
        → prefs.get_string p active_key [] ≢ next
        → second_check ≡ false
    unswitched old ne fresh = elim (Bool-cases second_check) [
      | inr no_match ↦ no_match
      | inl matches ↦ absurd (
          fresh (
            sym (old [] ∙ flash.put_other p (slot next) active_key encoded [] ne)
            ∙ (text_eq_iff _ _).0 (and-right _ _ matches)))
    ]

    pub commit-Outcome :
        is_valid_credentials c ≡ true
        → (if text_eq current (codes "A") then codes "B" else codes "A") ≡ next
        → slot next ≢ active_key
        → slot next ≢ slot current
        → prefs.get_string p active_key [] ≢ next
        → ltb 0 (length encoded) ≡ true
        → ((previous : RuntimeCredentials) → parse_credentials json encoded previous ≡ (true, c))
        → Outcome p c (commit prefs json (at p) c)
    commit-Outcome ok e ne ne' fresh nonempty parses =
        subst (Outcome p c) (sym (commit-at ok e)) (elim (Bool-cases first_check) [
          | inr bad ↦
              subst (λ b. Outcome p c (ended b second_check last_check)) (sym bad)
                (inl (refl, stored-same ne ne'))
          | inl good ↦
              let kept : prefs.get_string stored (slot next) [] ≡ encoded =
                (text_eq_iff _ _).0 (and-right _ _ good) in
              subst (λ b. Outcome p c (ended b second_check last_check)) (sym good)
                (elim (flash.put_atomic stored active_key next) [
                  | inl new ↦
                      ended_new second_check last_check
                        (switched-new (λ q. ne (sym q)) nonempty parses kept (new (codes "A")))
                  | inr old ↦
                      ended_old second_check last_check (unswitched old ne fresh) (λ previous.
                        load-same stored switched current previous
                          (flash.put_other p (slot next) active_key encoded (codes "A") ne ∙ active)
                          (old (codes "A")
                            ∙ flash.put_other p (slot next) active_key encoded (codes "A") ne
                            ∙ active)
                          (flash.put_other stored active_key (slot current) next []
                            (active-slot current))
                        ∙ stored-same ne ne' previous)
                ])
        ])
