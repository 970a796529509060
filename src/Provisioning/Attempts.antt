-- ===== src/Provisioning/Attempts.antt =====
-- A claim that keeps failing ends in the portal.
use nivalo_esp.TimePolicy.{retry_due}
use nivalo_esp.Credentials.{Json}
use nivalo_esp.Store.{Preferences}
use nivalo_esp.Provisioning.{ProvisioningConfig, claiming, Outside, Provisioning}
use nivalo_esp.Provisioning.Exchange.{exchange_claim}
use nivalo_esp.Provisioning.Loop.{loop}
use nivalo_esp.Common.{ℕ, ◌+◌, ◌≡◌, ◌⊎◌, Bool, false, List, [], ◌∷◌, if◌then◌else◌}

module _ {S : Type 0} (prefs : Preferences S) (json : Json) (config : ProvisioningConfig) where
  -- A run of passes.
  abbrev pub passes : Provisioning S → List Outside → Provisioning S
  passes p [] = p
  passes p (o ∷ rest) = passes (loop prefs json config o p) rest

  abbrev pub is_due : Provisioning S → Outside → Bool
  is_due p o = retry_due o.now p.claim_retry_at

  -- In each pass of a run no attempt is due, or the exchange of the claim fails.
  abbrev pub AllFail : Provisioning S → List Outside → Type 0
  AllFail p [] = Unit
  AllFail p (o ∷ rest) =
      ((is_due p o ≡ false) ⊎ ((exchange_claim config o p).0 ≡ false))
      × AllFail (loop prefs json config o p) rest

  -- How many passes of a run have an attempt that is due.
  abbrev pub attempts : Provisioning S → List Outside → ℕ
  attempts p [] = 0
  attempts p (o ∷ rest) = (if is_due p o then 1 else 0) + attempts (loop prefs json config o p) rest

  abbrev Same : Provisioning S → Provisioning S → Type 0
  Same p q = (q.state ≡ p.state) × (q.claim_failures ≡ p.claim_failures)

  -- The device still exchanges its claim after some failed attempts.
  abbrev IsClaiming : Provisioning S → Provisioning S → ℕ → Type 0
  IsClaiming p q n = (q.state ≡ claiming) × (q.claim_failures ≡ p.claim_failures + n)
