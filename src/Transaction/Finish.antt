-- ===== src/Transaction/Finish.antt =====
-- Replacing the credentials as a whole leaves the old ones or the new ones.
use nivalo_esp.Credentials.{
  RuntimeCredentials, Json, is_valid_credentials, serialize_credentials, credentials_document,
}
use nivalo_esp.Credentials.Encoding.{RoundTrips}
use nivalo_esp.Store.{
  Preferences, ProvisioningStore, load, commit, stage_cli, active_key, no_credentials,
}
use nivalo_esp.Store.Flash.{IsFlash}
use nivalo_esp.Store.Atomic.{commit_atomic}
use nivalo_esp.Store.Quiet.{
  load-clear_pending, load-clear_cli_staged, load-stage_cli, stage_cli-active,
}
use nivalo_esp.Transaction.{and_then, resume, start, store_operations, finish_cli_provisioning}
use nivalo_esp.Common.{
  ◌≡◌, ◌⊎◌, inl, inr, refl, sym, subst, ◌∙◌, Bool, true, false, arith, length, ltb, if◌then◌else◌,
  codes,
}

-- The active key is one of its two letters.
abbrev pub IsActive : {S : Type 0} → Preferences S → ProvisioningStore S → Type 0
IsActive prefs s =
    (prefs.get_string s.preferences active_key (codes "A") ≡ codes "A")
    ⊎ (prefs.get_string s.preferences active_key (codes "A") ≡ codes "B")

module _ {S : Type 0} (prefs : Preferences S) (flash : IsFlash prefs) (json : Json)
    (c : RuntimeCredentials) where
  abbrev State : Type 0
  State = ProvisioningStore S × RuntimeCredentials

  abbrev New : State → Type 0
  New st = (previous : RuntimeCredentials) → load prefs json st.0 previous ≡ (true, c)

  abbrev Same : ProvisioningStore S → State → Type 0
  Same s st =
      (previous : RuntimeCredentials) → load prefs json st.0 previous ≡ load prefs json s previous

  -- Failure with the old credentials, or the new ones.
  abbrev Replaced : ProvisioningStore S → Bool × State → Type 0
  Replaced s r = ((r.0 ≡ false) × Same s r.1) ⊎ New r.1

  abbrev Keeps : (State → Bool × State) → Type 0
  Keeps f = (st : State) → New st → New (f st).1

  New-branch :
      (b : Bool) (g : State → Bool × State) (st : State)
      → Keeps g
      → New st
      → New (if b then g st else (false, st)).1
  New-branch true g st k h = k st h
  New-branch false g st k h = h

  and_then-Keeps : (f g : State → Bool × State) → Keeps f → Keeps g → Keeps (and_then f g)
  unfolding and_then
  and_then-Keeps f g hf hg st h = New-branch (f st).0 g (f st).1 hg (hf st h)

  Replaced-branch :
      (s : ProvisioningStore S) (b : Bool) (g : State → Bool × State) (st : State)
      → Keeps g
      → ((b ≡ false) × Same s st) ⊎ New st
      → Replaced s (if b then g st else (false, st))
  Replaced-branch s true g st k (inl (e, same)) = absurd (ground arith)
  Replaced-branch s true g st k (inr new) = inr (k st new)
  Replaced-branch s false g st k (inl (e, same)) = inl (refl, same)
  Replaced-branch s false g st k (inr new) = inr new

  Same-branch :
      (s : ProvisioningStore S) (b : Bool) (g : State → Bool × State) (st : State)
      → Same s st
      → Replaced st.0 (g st)
      → Replaced s (if b then g st else (false, st))
  Same-branch s true g st same (inl (e, same')) =
      inl (e, λ previous. same' previous ∙ same previous)
  Same-branch s true g st same (inr new) = inr new
  Same-branch s false g st same r = inl (refl, same)

  -- The steps after the commit.
  abbrev tail : State → Bool × State
  tail =
      let operations = store_operations prefs json c in
      and_then operations.supersede_pending_claim
        (and_then operations.verify_active operations.clear_stage)

  tail-Keeps : Keeps tail
  unfolding store_operations
  tail-Keeps =
      and_then-Keeps _ _
        (λ st h previous. load-clear_pending prefs flash json st.0 previous ∙ h previous)
        (and_then-Keeps _ _ (λ st h. h)
          (λ st h previous. load-clear_cli_staged prefs flash json st.0 previous ∙ h previous))

  module _ (ok : is_valid_credentials c ≡ true) (fits : RoundTrips json (credentials_document c))
      (nonempty : ltb 0 (length (serialize_credentials json c)) ≡ true) where
    resume-Replaced :
        (s : ProvisioningStore S) (committed : RuntimeCredentials)
        → s.opened ≡ true
        → IsActive prefs s
        → Replaced s (resume (store_operations prefs json c) (s, committed))
    unfolding resume store_operations
    resume-Replaced s committed opened active =
        Replaced-branch s (commit prefs json s c).0 tail ((commit prefs json s c).1, committed)
          tail-Keeps (commit_atomic prefs json s c flash opened ok active fits nonempty)

    start-Replaced :
        (s : ProvisioningStore S) (committed : RuntimeCredentials)
        → s.opened ≡ true
        → IsActive prefs s
        → Replaced s (start (store_operations prefs json c) (s, committed))
    unfolding start store_operations
    start-Replaced s committed opened active =
        let (opened', active') = stage_cli-active prefs flash json s c in
        Same-branch s (stage_cli prefs json s c).0 (resume (store_operations prefs json c))
          ((stage_cli prefs json s c).1, committed) (load-stage_cli prefs flash json s c)
          (resume-Replaced (stage_cli prefs json s c).1 committed (opened' ∙ opened)
            (subst (λ t. (t ≡ codes "A") ⊎ (t ≡ codes "B")) (sym active') active))

-- Finishing a provisioning with valid credentials, whose document fits the library's buffer, on an
-- opened store whose active key is one of its two letters, with staging or without: it reports
-- failure and what is loaded is as before, or the new credentials are loaded. This holds whichever
-- of the puts fail or are cut off.
pub finish_atomic :
    {S : Type 0} (prefs : Preferences S) (json : Json) (s : ProvisioningStore S)
    (credentials c : RuntimeCredentials) (stage_first : Bool)
    → IsFlash prefs
    → s.opened ≡ true
    → is_valid_credentials c ≡ true
    → IsActive prefs s
    → RoundTrips json (credentials_document c)
    → ltb 0 (length (serialize_credentials json c)) ≡ true
    → let (completed, (s', credentials')) =
        finish_cli_provisioning prefs json (s, credentials) c stage_first in
      ((completed ≡ false)
        × ((previous : RuntimeCredentials)
            → load prefs json s' previous ≡ load prefs json s previous))
      ⊎ ((previous : RuntimeCredentials) → load prefs json s' previous ≡ (true, c))
unfolding finish_cli_provisioning
finish_atomic prefs json s credentials c true flash opened ok active fits nonempty =
    rw ok (start-Replaced prefs flash json c ok fits nonempty s no_credentials opened active)
finish_atomic prefs json s credentials c false flash opened ok active fits nonempty =
    rw ok (resume-Replaced prefs flash json c ok fits nonempty s no_credentials opened active)
