-- ===== src/Store/Atomic.antt =====
-- Replacing the credentials leaves the old ones or the new ones.
use nivalo_esp.Store.Commit.{at, Outcome, active-slot, commit-Outcome}
use nivalo_esp.Credentials.{
  credentials_document, is_valid_credentials, RuntimeCredentials, Json, serialize_credentials,
}
use nivalo_esp.Store.{commit, Preferences, ProvisioningStore, load, active_key}
use nivalo_esp.Credentials.Encoding.{RoundTrips, parse-valid}
use nivalo_esp.Store.Flash.{IsFlash}
use nivalo_esp.Common.{
  arith, sym, ◌≢◌, inl, inr, subst, ◌≡◌, ◌⊎◌, refl, Bool, true, false, [], length, ltb, Text, codes,
  text_eq,
}

module _ {S : Type 0} (prefs : Preferences S) (flash : IsFlash prefs) (json : Json)
    (protected : Bool) where
  -- The other slot's letter is not what the active key has.
  unswitched-key :
      (p : S) (current next : Text)
      → prefs.get_string p active_key (codes "A") ≡ current
      → ((current ≡ codes "A") × (next ≡ codes "B")) ⊎ ((current ≡ codes "B") × (next ≡ codes "A"))
      → prefs.get_string p active_key [] ≢ next
  unswitched-key p current next e h e' = elim (flash.get_default p active_key) [
    | inl none_there ↦ ground (arith, none_there [])
    | inr (v, there) ↦ ground (arith, there [], there (codes "A"))
  ]

  commit-at-Outcome :
      (p : S) (c : RuntimeCredentials)
      → is_valid_credentials c ≡ true
      → (prefs.get_string p active_key (codes "A") ≡ codes "A")
        ⊎ (prefs.get_string p active_key (codes "A") ≡ codes "B")
      → RoundTrips json (credentials_document c)
      → ltb 0 (length (serialize_credentials json c)) ≡ true
      → Outcome prefs flash json protected p c
          (commit prefs json (at prefs flash json protected p) c)
  unfolding text_eq
  commit-at-Outcome p c ok (inl a) fits nonempty =
      commit-Outcome prefs flash json protected p c (codes "A") (codes "B") a ok refl
        (λ e. active-slot prefs flash json protected (codes "B") (sym e)) (ground arith)
        (unswitched-key p _ _ a (inl (refl, refl))) nonempty
        (λ previous. parse-valid json c previous fits ok)
  commit-at-Outcome p c ok (inr b) fits nonempty =
      commit-Outcome prefs flash json protected p c (codes "B") (codes "A") b ok refl
        (λ e. active-slot prefs flash json protected (codes "A") (sym e)) (ground arith)
        (unswitched-key p _ _ b (inr (refl, refl))) nonempty
        (λ previous. parse-valid json c previous fits ok)

-- Committing valid credentials, whose document fits the library's buffer, to an opened store whose
-- active key is one of its two letters: it reports failure and what is loaded is as before, or the
-- new credentials are loaded. This holds whichever of the puts fail or are cut off.
pub commit_atomic :
    {S : Type 0} (prefs : Preferences S) (json : Json) (s : ProvisioningStore S)
    (c : RuntimeCredentials)
    → IsFlash prefs
    → s.opened ≡ true
    → is_valid_credentials c ≡ true
    → (prefs.get_string s.preferences active_key (codes "A") ≡ codes "A")
      ⊎ (prefs.get_string s.preferences active_key (codes "A") ≡ codes "B")
    → RoundTrips json (credentials_document c)
    → ltb 0 (length (serialize_credentials json c)) ≡ true
    → let (ok, s') = commit prefs json s c in
      ((ok ≡ false)
        × ((previous : RuntimeCredentials)
            → load prefs json s' previous ≡ load prefs json s previous))
      ⊎ ((previous : RuntimeCredentials) → load prefs json s' previous ≡ (true, c))
commit_atomic prefs json s c flash opened ok active fits nonempty =
    subst
      (λ (t : ProvisioningStore _).
        ((commit prefs json t c).0 ≡ false
          × ((previous : RuntimeCredentials)
              → load prefs json (commit prefs json t c).1 previous ≡ load prefs json t previous))
        ⊎ ((previous : RuntimeCredentials)
            → load prefs json (commit prefs json t c).1 previous ≡ (true, c)))
      (λ i. record { protected = s.protected; opened = sym opened i; preferences = s.preferences })
      (commit-at-Outcome prefs flash json s.protected s.preferences c ok active fits nonempty)
