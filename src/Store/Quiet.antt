-- ===== src/Store/Quiet.antt =====
-- Writing the pending claim or the staged credentials does not change what is loaded.
use nivalo_esp.Credentials.{
  RuntimeCredentials, Json, parse_credentials, serialize_credentials, is_valid_credentials,
}
use nivalo_esp.Store.{
  Preferences, ProvisioningStore, put_checked, load, clear_pending, stage_cli, clear_cli_staged,
  slot_a, slot_b, active_key, stage_key, pending_key,
}
use nivalo_esp.Store.Flash.{IsFlash}
use nivalo_esp.Common.{
  ◌≡◌, ◌≢◌, refl, ap, Bool, true, false, not, ◌||◌, arith, [], length, ltb, if◌then◌else◌, Text,
  codes, text_eq,
}

-- An operation that a guard may stop.
guarded :
    {S : Type 0} (stop : Bool) (s : ProvisioningStore S) (r : Bool × ProvisioningStore S)
    (P : ProvisioningStore S → Type 0)
    → P s
    → P r.1
    → P (if stop then (false, s) else r).1
guarded true s r P h k = h
guarded false s r P h k = k

module _ {S : Type 0} (prefs : Preferences S) (flash : IsFlash prefs) (json : Json) where
  -- Neither the active key nor a slot.
  abbrev IsQuiet : Text → Type 0
  IsQuiet key = (key ≢ active_key) × (key ≢ slot_a) × (key ≢ slot_b)

  stage-IsQuiet : IsQuiet stage_key
  stage-IsQuiet = (λ e. ground arith, λ e. ground arith, λ e. ground arith)

  pending-IsQuiet : IsQuiet pending_key
  pending-IsQuiet = (λ e. ground arith, λ e. ground arith, λ e. ground arith)

  quiet_slot : (key : Text) (b : Bool) → IsQuiet key → key ≢ (if b then slot_b else slot_a)
  quiet_slot key true q = q.2
  quiet_slot key false q = q.1

  load-put_checked :
      (s : ProvisioningStore S) (key value : Text) (previous : RuntimeCredentials)
      → IsQuiet key
      → load prefs json (put_checked prefs json s key value).1 previous ≡ load prefs json s previous
  unfolding load put_checked
  load-put_checked s key value previous q =
      rw (flash.put_other s.preferences key active_key value (codes "A") q.0) (
        ap
          (λ v.
            if not s.opened
            then (false, previous)
            else (if ltb 0 (length v)
                then parse_credentials json v previous
                else (false, previous)))
          (flash.put_other s.preferences key
            (if text_eq (prefs.get_string s.preferences active_key (codes "A")) (codes "B")
              then slot_b
              else slot_a)
            value []
            (quiet_slot key
              (text_eq (prefs.get_string s.preferences active_key (codes "A")) (codes "B")) q)))

  pub load-clear_pending :
      (s : ProvisioningStore S) (previous : RuntimeCredentials)
      → load prefs json (clear_pending prefs json s).1 previous ≡ load prefs json s previous
  unfolding clear_pending
  load-clear_pending s previous =
      guarded (not s.opened) s _ (λ t. load prefs json t previous ≡ load prefs json s previous) refl
        (load-put_checked s pending_key (codes "superseded") previous pending-IsQuiet)

  pub load-clear_cli_staged :
      (s : ProvisioningStore S) (previous : RuntimeCredentials)
      → load prefs json (clear_cli_staged prefs json s).1 previous ≡ load prefs json s previous
  unfolding clear_cli_staged
  load-clear_cli_staged s previous =
      guarded (not s.opened) s _ (λ t. load prefs json t previous ≡ load prefs json s previous) refl
        (load-put_checked s stage_key (codes "superseded") previous stage-IsQuiet)

  pub load-stage_cli :
      (s : ProvisioningStore S) (c previous : RuntimeCredentials)
      → load prefs json (stage_cli prefs json s c).1 previous ≡ load prefs json s previous
  unfolding stage_cli
  load-stage_cli s c previous =
      guarded (not s.opened || not (is_valid_credentials c)) s _
        (λ t. load prefs json t previous ≡ load prefs json s previous) refl
        (load-put_checked s stage_key (serialize_credentials json c) previous stage-IsQuiet)

  -- Staging leaves the store open and the active key as it was.
  pub stage_cli-active :
      (s : ProvisioningStore S) (c : RuntimeCredentials)
      → ((stage_cli prefs json s c).1.opened ≡ s.opened)
        × (prefs.get_string (stage_cli prefs json s c).1.preferences active_key (codes "A")
            ≡ prefs.get_string s.preferences active_key (codes "A"))
  unfolding stage_cli put_checked
  stage_cli-active s c =
      guarded (not s.opened || not (is_valid_credentials c)) s _
        (λ t.
          (t.opened ≡ s.opened)
          × (prefs.get_string t.preferences active_key (codes "A")
              ≡ prefs.get_string s.preferences active_key (codes "A")))
        (refl, refl)
        (
          refl,
          flash.put_other s.preferences stage_key active_key (serialize_credentials json c)
              (codes "A") stage-IsQuiet.0,
        )
