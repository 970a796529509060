-- ===== src/Provisioning/Lines.antt =====
-- A claim line, a form of the portal and the reset lose no answer.
use nivalo_esp.CliPolicy.{is_request_id}
use nivalo_esp.CliPolicy.Codes.{length-request_id}
use nivalo_esp.Credentials.{Json}
use nivalo_esp.Store.{clear, Preferences, no_credentials}
use nivalo_esp.Provisioning.{
  stop_portal, ProvisioningConfig, Outside, Provisioning, start_wifi, send_cli_claim_response,
}
use nivalo_esp.Provisioning.Boot.{factory_reset}
use nivalo_esp.Provisioning.Claim.{
  ClaimRequest, create_pending_attempt, save_attempt, prepare_attempt, handle_cli_claim,
  handle_claim_line, handle_portal_submit,
}
use nivalo_esp.Provisioning.Answers.{
  IsReceived, Handled-claim, some_nonempty, answered, open_portal,
}
use nivalo_esp.Provisioning.View.{total, view, IsKept, view-send, IsKept-changed}
use nivalo_esp.Common.{
  ℕ, ◌≡◌, inl, inr, refl, sym, ap, subst, ◌∙◌, Bool, true, false, arith, Option, some,
  if◌then◌else◌, Text,
}

module _ {S : Type 0} (weigh : Text → ℕ) (prefs : Preferences S) (json : Json)
    (config : ProvisioningConfig) (outside : Outside) (cli : config.has_cli ≡ true) where
  line-handled :
      (p : Provisioning S) (id : Text) (request : Option ClaimRequest) (r : Bool × Provisioning S)
      → is_request_id (some id) ≡ true
      → handle_cli_claim prefs json config outside p id request ≡ r
      → handle_claim_line prefs json config outside p id request
        ≡ (if r.0 then r.1 else send_cli_claim_response config outside r.1 id false)
  unfolding handle_claim_line
  line-handled p id request r ok e = rw (ok, e) refl

  -- A claim line is answered, or its claim waits.
  pub IsReceived-line :
      (p : Provisioning S) (id : Text) (request : Option ClaimRequest)
      → is_request_id (some id) ≡ true
      → IsReceived weigh id
          (view weigh p)
          (view weigh (handle_claim_line prefs json config outside p id request))
  IsReceived-line p id request ok =
      let r = handle_cli_claim prefs json config outside p id request in
      let some_id = some_nonempty id 31 (length-request_id id ok) in
      let sent = send_cli_claim_response config outside r.1 id false in
      let line = line-handled p id request r ok refl in
      elim (Handled-claim weigh prefs json config outside cli p id request some_id) [
        | inl (t, received) ↦
            subst (λ q. IsReceived weigh id (view weigh p) (view weigh q))
              (sym (line ∙ ap (λ b. if b then r.1 else sent) t)) received
        | inr (f, kept) ↦
            subst (λ q. IsReceived weigh id (view weigh p) (view weigh q))
              (sym (line ∙ ap (λ b. if b then r.1 else sent) f))
              (subst (IsReceived weigh id (view weigh p))
                (sym (view-send weigh config outside cli r.1 id false))
                (answered weigh id (view weigh p) (view weigh r.1) kept))
      ]

  pub line_ignored :
      (p : Provisioning S) (id : Text) (request : Option ClaimRequest)
      → is_request_id (some id) ≡ false
      → handle_claim_line prefs json config outside p id request ≡ p
  unfolding handle_claim_line
  line_ignored p id request bad = rw bad refl

  submit-request :
      (p : Provisioning S) (ssid password claim : Text)
      → let q = (handle_portal_submit prefs json config outside p ssid password claim).1 in
        (q.cli_claim_request_id ≡ p.cli_claim_request_id)
        × (total weigh q.responses ≡ total weigh p.responses)
  unfolding handle_portal_submit start_wifi stop_portal prepare_attempt create_pending_attempt
      save_attempt
  submit-request p ssid password claim = (ground arith, ground arith)

  pub IsKept-submit :
      (p : Provisioning S) (ssid password claim : Text)
      → p.portal_running ≡ true
      → IsKept weigh
          (view weigh p)
          (view weigh (handle_portal_submit prefs json config outside p ssid password claim).1)
  IsKept-submit p ssid password claim shown =
      let (request, answers) = submit-request p ssid password claim in
      open_portal weigh (view weigh p) _ shown request answers

  pub IsKept-reset :
      (p : Provisioning S)
      → IsKept weigh (view weigh p) (view weigh (factory_reset prefs json config outside p).1)
  unfolding factory_reset
  IsKept-reset p =
      IsKept-changed weigh config outside cli
        (record p { store = (clear prefs json p.store).1; credentials = no_credentials }) false
