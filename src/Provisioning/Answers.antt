-- ===== src/Provisioning/Answers.antt =====
-- A claim of the CLI that is handled waits for its answer, or is answered.
use nivalo_esp.CliPolicy.{is_hardware_id, is_wifi_ssid, is_wifi_password, is_claim_code}
use nivalo_esp.CliPolicy.Codes.{length-claim_code}
use nivalo_esp.Credentials.{Json, is_valid_credentials}
use nivalo_esp.Store.{Preferences, clear_pending, no_credentials}
use nivalo_esp.Provisioning.{
  stop_portal, ProvisioningConfig, connecting_wifi, Outside, Provisioning, start_wifi,
  start_time_sync,
}
use nivalo_esp.Provisioning.Loop.{clear_pending_claim, no_attempt}
use nivalo_esp.Provisioning.Claim.{
  ClaimRequest, ClaimRecoveryAction, reject_replay, preserve_state, connect_wifi, sync_time,
  be_ready, to_upper_case, create_pending_attempt, save_attempt, prepare_attempt, recovery_action,
  matches_receipt, recover, answer_repeat, clear_and_answer, repeat_claim, start_claim,
  handle_cli_claim,
}
use nivalo_esp.Provisioning.View.{
  total, View, view, is_active, IsSound, balance, IsKept, IsKept-refl, quiet_state, view-send,
}
use nivalo_esp.Common.{
  ℕ, suc, ◌+◌, ◌≡◌, ◌⊎◌, inl, inr, refl, sym, ap, subst, ◌∙◌, Bool, true, false, not, ◌||◌, arith,
  [], ◌∷◌, Option, none, some, length, if◌then◌else◌, Option-cases, Text, text_eq, is_empty,
  if_cases,
}

-- One more request was received, which is answered or waits.
pub record IsReceived (weigh : Text → ℕ) (id : Text) (v v' : View) : Type 0 where
  pub sound : IsSound v → IsSound v'
  pub balanced : balance weigh v' ≡ weigh id + balance weigh v

pub some_nonempty : (s : Text) (n : ℕ) → length s ≡ suc n → is_empty s ≡ false
some_nonempty [] n h = absurd (omega arith)
some_nonempty (c ∷ s) n h = refl

module _ (weigh : Text → ℕ) where
  -- What is asked of the result of a request: when it is not `true` the answer is still to be sent.
  abbrev pub Handled : {S : Type 0} → Text → Provisioning S → Bool × Provisioning S → Type 0
  Handled id p r =
      ((r.0 ≡ true) × IsReceived weigh id (view weigh p) (view weigh r.1))
      ⊎ ((r.0 ≡ false) × IsKept weigh (view weigh p) (view weigh r.1))

  refused : {S : Type 0} (id : Text) (p : Provisioning S) → Handled id p (false, p)
  refused id p = inr (refl, IsKept-refl weigh (view weigh p))

  -- The answer is sent.
  pub answered :
      (id : Text) (v v' : View)
      → IsKept weigh v v'
      → IsReceived weigh id v (record v' { answers = weigh id + v'.answers })
  answered id v v' k = record { sound = λ s. k.sound s; balanced = omega (arith, k.balanced) }

  -- No claim was waiting, and none is.
  answered_idle :
      (id : Text) (v w : View)
      → is_empty v.request_id ≡ true
      → w.request_id ≡ v.request_id
      → w.answers ≡ weigh id + v.answers
      → IsReceived weigh id v w
  answered_idle id v w e r a = record { sound = λ s. inl (rw r e); balanced = ground arith }

  -- The claim waits.
  waiting_now :
      (id : Text) (v w : View)
      → is_empty v.request_id ≡ true
      → is_empty w.request_id ≡ false
      → w.request_id ≡ id
      → w.answers ≡ v.answers
      → w.state ≡ connecting_wifi
      → w.portal_running ≡ false
      → w.changing_wifi_only ≡ false
      → is_empty w.pending_claim_code ≡ false
      → IsReceived weigh id v w
  waiting_now id v w e r r' a s p c k = record {
    sound = λ t. inr (ap is_active s, (p, (c, k)));
    balanced = ground arith;
  }

  pub open_portal :
      (v w : View)
      → v.portal_running ≡ true
      → w.request_id ≡ v.request_id
      → w.answers ≡ v.answers
      → IsKept weigh v w
  open_portal v w p r a = record { sound = λ s. ground (arith, p, r); balanced = ground arith }

  module _ {S : Type 0} (prefs : Preferences S) (json : Json) (config : ProvisioningConfig)
      (outside : Outside) (cli : config.has_cli ≡ true) where
    view-prepare :
        (p : Provisioning S) (claim_code ssid password : Text)
        → view weigh (prepare_attempt prefs json config outside p claim_code ssid password).1
          ≡ view weigh p
    unfolding prepare_attempt create_pending_attempt save_attempt
    view-prepare p claim_code ssid password = ground arith

    recover-request :
        (a : ClaimRecoveryAction) (p : Provisioning S)
        → let q = recover prefs json config outside a p in
          (q.cli_claim_request_id ≡ p.cli_claim_request_id) × (q.responses ≡ p.responses)
    unfolding recover start_wifi start_time_sync
    recover-request reject_replay p = (refl, refl)
    recover-request preserve_state p = (refl, refl)
    recover-request connect_wifi p = (refl, refl)
    recover-request sync_time p = (refl, refl)
    recover-request be_ready p = (refl, refl)

    Handled-answer :
        (p q : Provisioning S) (a : ClaimRecoveryAction) (id : Text)
        → view weigh q ≡ view weigh p
        → is_empty p.cli_claim_request_id ≡ true
        → Handled id p (answer_repeat prefs json config outside q a id)
    unfolding answer_repeat
    Handled-answer p q a id same e =
        let forgotten = record q {
          claim_attempt = no_attempt;
          pending_claim_code = [];
          changing_wifi_only = false;
        } in
        let sent = recover prefs json config outside a forgotten in
        let (request, responses) = recover-request a forgotten in
        let seen = view-send weigh config outside cli sent id true in
        inl (
          refl,
          answered_idle id (view weigh p) _ e
              (ap (λ (v : View). v.request_id) seen
                ∙ request
                ∙ ap (λ (v : View). v.request_id) same)
              (ap (λ (v : View). v.answers) seen
                ∙ ap (λ rs. weigh id + total weigh rs) responses
                ∙ ap (λ (v : View). weigh id + v.answers) same),
        )

    Handled-clear :
        (p : Provisioning S) (a : ClaimRecoveryAction) (id : Text)
        → is_empty p.cli_claim_request_id ≡ true
        → Handled id p (clear_and_answer prefs json config outside p a id)
    unfolding clear_and_answer clear_pending_claim
    Handled-clear p a id e =
        let (cleared, store) = clear_pending prefs json p.store in
        if_cases (Handled id p) cleared _ (false, record p { store = store })
          (λ k. Handled-answer p (record p { store = store }) a id refl e)
          (λ k. inr (refl, IsKept-refl weigh (view weigh p)))

    Handled-repeat :
        (p : Provisioning S) (a : ClaimRecoveryAction) (id : Text)
        → is_empty p.cli_claim_request_id ≡ true
        → Handled id p (repeat_claim prefs json config outside p a id)
    unfolding repeat_claim
    Handled-repeat p reject_replay id e = refused id p
    Handled-repeat p preserve_state id e = Handled-answer p p preserve_state id refl e
    Handled-repeat p connect_wifi id e = Handled-clear p connect_wifi id e
    Handled-repeat p sync_time id e = Handled-clear p sync_time id e
    Handled-repeat p be_ready id e = Handled-clear p be_ready id e

    Handled-start :
        (p : Provisioning S) (id : Text) (r : ClaimRequest) (claim_code : Text)
        → is_empty p.cli_claim_request_id ≡ true
        → is_empty id ≡ false
        → is_empty claim_code ≡ false
        → Handled id p (start_claim prefs json config outside p id r claim_code)
    unfolding start_claim start_wifi stop_portal
    Handled-start p id r claim_code e some_id some_code =
        let p' = record p {
          pending = record no_credentials {
            wifi_ssid = r.wifi_ssid;
            wifi_password = r.wifi_password;
          };
          pending_claim_code = claim_code;
        } in
        let prepared =
          prepare_attempt prefs json config outside p' claim_code r.wifi_ssid r.wifi_password in
        let same : view weigh prepared.1 ≡ view weigh p' =
          view-prepare p' claim_code r.wifi_ssid r.wifi_password in
        if_cases (Handled id p) (not prepared.0) (false, prepared.1) _
          (λ k. inr (
            refl,
            subst (IsKept weigh (view weigh p)) (sym same)
                (quiet_state weigh (view weigh p) p.state claim_code e),
          ))
          (λ k. inl (
            refl,
            waiting_now id (view weigh p) _ e some_id refl (ap (λ (v : View). v.answers) same) refl
                refl refl (ap (λ (v : View). is_empty v.pending_claim_code) same ∙ some_code),
          ))

    Handled-hashed :
        (p : Provisioning S) (id : Text) (r : ClaimRequest) (receipt : Text)
        → is_empty p.cli_claim_request_id ≡ true
        → is_empty id ≡ false
        → is_empty (to_upper_case r.code) ≡ false
        → Handled id p (
            if is_valid_credentials p.credentials
            then (if matches_receipt prefs json config outside p.credentials r receipt
                then repeat_claim prefs json config outside p
                    (recovery_action prefs json config outside p)
                    id
                else (false, p))
            else start_claim prefs json config outside p id r (to_upper_case r.code))
    Handled-hashed p id r receipt e some_id some_code =
        if_cases (Handled id p) (is_valid_credentials p.credentials) _ _
          (λ k.
            if_cases (Handled id p)
              (matches_receipt prefs json config outside p.credentials r receipt) _ _
              (λ l. Handled-repeat p (recovery_action prefs json config outside p) id e)
              (λ l. refused id p))
          (λ k. Handled-start p id r (to_upper_case r.code) e some_id some_code)

    pub Handled-claim :
        (p : Provisioning S) (id : Text) (request : Option ClaimRequest)
        → is_empty id ≡ false
        → Handled id p (handle_cli_claim prefs json config outside p id request)
    unfolding handle_cli_claim
    Handled-claim p id none some_id = refused id p
    Handled-claim p id (some r) some_id =
        let claim_code = to_upper_case r.code in
        if_cases (Handled id p)
          (not p.cli_provisioning_allowed || not (is_empty p.cli_claim_request_id)) (false, p) _
          (λ k. refused id p)
          (λ k.
            if_cases (Handled id p)
              (not (is_hardware_id (some r.expected_hardware_id))
                || not (text_eq r.expected_hardware_id outside.hardware_id)
                || not (is_wifi_ssid (some r.wifi_ssid))
                || not (is_wifi_password (some r.wifi_password))
                || not (is_claim_code (some claim_code)))
              (false, p) _ (λ l. refused id p)
              (λ l. elim (Option-cases (outside.sha256_text claim_code)) [
                | inl none_made ↦ rw none_made (refused id p)
                | inr (receipt, made) ↦ rw made (
                    Handled-hashed p id r receipt (ground arith) some_id
                      (some_nonempty claim_code 7 (length-claim_code claim_code (ground arith))))
              ]))
