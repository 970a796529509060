-- ===== src/Provisioning/Run.antt =====
-- What happens to a device in any order: passes of the loop, claims on the CLI, forms of the portal, the
-- call of the set-up mode and the reset.
use nivalo_esp.CliPolicy.{is_request_id}
use nivalo_esp.Credentials.{Json}
use nivalo_esp.Store.{Preferences}
use nivalo_esp.Provisioning.{ProvisioningConfig, Outside, Provisioning, enter_setup_mode}
use nivalo_esp.Provisioning.Loop.{loop}
use nivalo_esp.Provisioning.Boot.{factory_reset}
use nivalo_esp.Provisioning.Claim.{ClaimRequest, handle_claim_line, handle_portal_submit}
use nivalo_esp.Provisioning.View.{
  total, View, view, IsSound, waiting, balance, IsKept, IsKept-refl, IsKept-changed,
}
use nivalo_esp.Provisioning.Passes.{Kept-loop}
use nivalo_esp.Provisioning.Answers.{IsReceived}
use nivalo_esp.Provisioning.Lines.{IsReceived-line, IsKept-submit, IsKept-reset, line_ignored}
use nivalo_esp.Common.{
  ℕ, ◌+◌, ◌≡◌, inl, inr, refl, sym, ap, subst, true, arith, List, [], ◌∷◌, Option, some,
  if◌then◌else◌, Bool-cases, Text, text_eq, is_empty, if_cases,
}

pub data Event : Type 0 where
  pass : Event
  claim_line : Text → Option ClaimRequest → Event
  submit : Text → Text → Text → Event
  set_up : Event
  reset : Event

-- The weight of the claims among the events that have an identifier of the right form.
abbrev pub received : (Text → ℕ) → List (Outside × Event) → ℕ
received weigh [] = 0
received weigh ((o, claim_line id request) ∷ rest) =
    if is_request_id (some id) then weigh id + received weigh rest else received weigh rest
received weigh ((o, pass) ∷ rest) = received weigh rest
received weigh ((o, submit ssid password claim) ∷ rest) = received weigh rest
received weigh ((o, set_up) ∷ rest) = received weigh rest
received weigh ((o, reset) ∷ rest) = received weigh rest

-- Counts one identifier.
abbrev pub is_id : Text → Text → ℕ
is_id id other = if text_eq id other then 1 else 0

module _ {S : Type 0} (prefs : Preferences S) (json : Json) (config : ProvisioningConfig) where
  -- The portal takes a form only while it is open.
  pub step : Provisioning S → Outside → Event → Provisioning S
  step p o pass = loop prefs json config o p
  step p o (claim_line id request) = handle_claim_line prefs json config o p id request
  step p o (submit ssid password claim) =
      if p.portal_running
      then (handle_portal_submit prefs json config o p ssid password claim).1
      else p
  step p o set_up = enter_setup_mode config o p
  step p o reset = (factory_reset prefs json config o p).1

  pub run : Provisioning S → List (Outside × Event) → Provisioning S
  unfolding step
  run p [] = p
  run p ((o, e) ∷ rest) = run (step p o e) rest

  module _ (weigh : Text → ℕ) (cli : config.has_cli ≡ true) where
    IsKept-setup :
        (p : Provisioning S) (o : Outside)
        → IsKept weigh (view weigh p) (view weigh (enter_setup_mode config o p))
    unfolding enter_setup_mode
    IsKept-setup p o = IsKept-changed weigh config o cli p _

    -- What a run is to keep.
    record IsRun (n : ℕ) (v v' : View) : Type 0 where
      sound : IsSound v → IsSound v'
      balanced : balance weigh v' ≡ balance weigh v + n

    IsRun-kept : {n : ℕ} {u v w : View} → IsKept weigh u v → IsRun n v w → IsRun n u w
    IsRun-kept k r = record {
      sound = λ s. r.sound (k.sound s);
      balanced = omega (arith, k.balanced, r.balanced);
    }

    IsRun-received :
        {n : ℕ} {id : Text} {u v w : View}
        → IsReceived weigh id u v
        → IsRun n v w
        → IsRun (weigh id + n) u w
    IsRun-received k r = record {
      sound = λ s. r.sound (k.sound s);
      balanced = omega (arith, k.balanced, r.balanced);
    }

    run-IsRun :
        (events : List (Outside × Event)) (p : Provisioning S)
        → IsRun (received weigh events) (view weigh p) (view weigh (run p events))
    unfolding run
    run-IsRun [] p = record { sound = λ s. s; balanced = omega arith }
    run-IsRun ((o, pass) ∷ rest) p =
        IsRun-kept (Kept-loop weigh prefs json config o cli p).kept (run-IsRun rest (step p o pass))
    run-IsRun ((o, set_up) ∷ rest) p =
        IsRun-kept (IsKept-setup p o) (run-IsRun rest (step p o set_up))
    run-IsRun ((o, reset) ∷ rest) p =
        IsRun-kept (IsKept-reset weigh prefs json config o cli p) (run-IsRun rest (step p o reset))
    run-IsRun ((o, submit ssid password claim) ∷ rest) p =
        IsRun-kept
          (if_cases (λ q. IsKept weigh (view weigh p) (view weigh q)) p.portal_running _ p
            (λ shown. IsKept-submit weigh prefs json config o cli p ssid password claim shown)
            (λ shut. IsKept-refl weigh (view weigh p)))
          (run-IsRun rest (step p o (submit ssid password claim)))
    run-IsRun ((o, claim_line id request) ∷ rest) p = elim (Bool-cases (is_request_id (some id))) [
      | inl ok ↦
          subst
            (λ n. IsRun n (view weigh p) (view weigh (run p ((o, claim_line id request) ∷ rest))))
            (sym (ap (λ b. if b then weigh id + received weigh rest else received weigh rest) ok))
            (IsRun-received (IsReceived-line weigh prefs json config o cli p id request ok)
              (run-IsRun rest (step p o (claim_line id request))))
      | inr bad ↦
          subst
            (λ n. IsRun n (view weigh p) (view weigh (run p ((o, claim_line id request) ∷ rest))))
            (sym (ap (λ b. if b then weigh id + received weigh rest else received weigh rest) bad))
            (IsRun-kept
              (subst (λ q. IsKept weigh (view weigh p) (view weigh q))
                (sym (line_ignored weigh prefs json config o cli p id request bad))
                (IsKept-refl weigh (view weigh p)))
              (run-IsRun rest (step p o (claim_line id request))))
    ]

  -- On a device with a CLI, from a state in which no claim waits for its answer, after any events: for every
  -- identifier, as many answers were sent to it as claims of the right form were received with it on the
  -- CLI, but for one that waits if the claim that waits has this identifier; and while a claim waits, the
  -- device joins the Wi-Fi, sets the clock or exchanges the claim, not for another Wi-Fi, with the portal closed.
  pub answered_once :
      (p : Provisioning S) (events : List (Outside × Event)) (id : Text)
      → config.has_cli ≡ true
      → is_empty p.cli_claim_request_id ≡ true
      → let p' = run p events in
        (total (is_id id) p'.responses + waiting (is_id id) (view (is_id id) p')
          ≡ total (is_id id) p.responses + received (is_id id) events)
        × IsSound (view (is_id id) p')
  answered_once p events id cli idle =
      let r = run-IsRun (is_id id) cli events p in
      let none_waits : waiting (is_id id) (view (is_id id) p) ≡ 0 = rw idle refl in
      (omega (arith, r.balanced), r.sound (inl idle))
