-- ===== src/Provisioning/View.antt =====
-- What decides on the answers to claims on the CLI: a part of the state, and what keeps it in order.
use nivalo_esp.Provisioning.{
  ready, ProvisioningConfig, ProvisioningState, connecting_wifi, syncing_time, setup_portal,
  claiming, Outside, Provisioning, send_cli_claim_response, fail_cli_claim, start_portal,
  start_time_sync,
}
use nivalo_esp.Common.{
  ℕ, ◌+◌, ◌≡◌, ◌⊎◌, inl, refl, sym, ap, subst, ◌∙◌, Bool, true, false, arith, List, [], ◌∷◌,
  if◌then◌else◌, Text, is_empty,
}

-- `answers` is the weight of the answers that were sent, by the identifiers of their claims.
pub record View : Type 0 where
  pub request_id : Text
  pub state : ProvisioningState
  pub portal_running : Bool
  pub changing_wifi_only : Bool
  pub pending_claim_code : Text
  pub answers : ℕ

abbrev pub is_active : ProvisioningState → Bool
is_active connecting_wifi = true
is_active syncing_time = true
is_active claiming = true
is_active s = false

-- No claim waits for its answer, or it is on its way: the device joins the Wi-Fi, sets the clock or
-- exchanges the claim, not for another Wi-Fi, and the portal is closed.
abbrev pub IsSound : View → Type 0
IsSound v =
    (is_empty v.request_id ≡ true)
    ⊎ ((is_active v.state ≡ true)
        × ((v.portal_running ≡ false)
            × ((v.changing_wifi_only ≡ false) × (is_empty v.pending_claim_code ≡ false))))

-- The answers with weights for their identifiers.
abbrev pub total : (Text → ℕ) → List (Text × Bool) → ℕ
total weigh [] = 0
total weigh ((id, ok) ∷ rest) = weigh id + total weigh rest

module _ (weigh : Text → ℕ) where
  abbrev pub view : {S : Type 0} → Provisioning S → View
  view p = record {
    request_id = p.cli_claim_request_id;
    state = p.state;
    portal_running = p.portal_running;
    changing_wifi_only = p.changing_wifi_only;
    pending_claim_code = p.pending_claim_code;
    answers = total weigh p.responses;
  }

  abbrev pub waiting : View → ℕ
  waiting v = if is_empty v.request_id then 0 else weigh v.request_id

  -- The answers that were sent, and the one that is due.
  abbrev pub balance : View → ℕ
  balance v = v.answers + waiting v

  -- What is sound stays sound, and no answer is lost or sent twice.
  pub record IsKept (v v' : View) : Type 0 where
    pub sound : IsSound v → IsSound v'
    pub balanced : balance v' ≡ balance v

  pub IsKept-refl : (v : View) → IsKept v v
  IsKept-refl v = record { sound = λ s. s; balanced = refl }

  pub IsKept-trans : {u v w : View} → IsKept u v → IsKept v w → IsKept u w
  IsKept-trans a b = record { sound = λ s. b.sound (a.sound s); balanced = b.balanced ∙ a.balanced }

  -- The claim that waits fails.
  abbrev pub closed : View → View
  closed v =
      if is_empty v.request_id
      then v
      else record v { request_id = []; answers = weigh v.request_id + v.answers }

  closed-IsKept : (v : View) → IsKept v (closed v)
  closed-IsKept v = record { sound = λ s. ground arith; balanced = ground arith }

  closed-empty : (v : View) → is_empty (closed v).request_id ≡ true
  closed-empty v = ground arith

  abbrev pub in_portal : View → View
  in_portal v = record (closed v) { portal_running = true; state = setup_portal }

  in_portal-IsKept : (v : View) → IsKept v (in_portal v)
  in_portal-IsKept v = record { sound = λ s. ground arith; balanced = ground arith }

  pub closed_state : (v : View) (s : ProvisioningState) → IsKept v (record (closed v) { state = s })
  closed_state v s = record { sound = λ k. ground arith; balanced = ground arith }

  pub quiet_state :
      (v : View) (s : ProvisioningState) (code : Text)
      → is_empty v.request_id ≡ true
      → IsKept v (record v { state = s; pending_claim_code = code })
  quiet_state v s code e = record { sound = λ k. inl e; balanced = refl }

  pub answered_state :
      (v : View) (s : ProvisioningState) (code : Text)
      → is_empty v.request_id ≡ false
      → IsKept v (record v {
        state = s;
        pending_claim_code = code;
        answers = weigh v.request_id + v.answers;
        request_id = [];
      })
  answered_state v s code e = record { sound = λ k. inl refl; balanced = ground arith }

  pub changed_done :
      (v : View) → v.changing_wifi_only ≡ true → IsKept v (record v { state = ready })
  changed_done v e = record { sound = λ k. ground arith; balanced = refl }

  pub after_time_sync :
      (v : View)
      → IsKept v (record v { state = if is_empty v.pending_claim_code then ready else claiming })
  after_time_sync v = record { sound = λ k. ground arith; balanced = refl }

  portal_changed :
      (v : View) (b : Bool) → IsKept v (in_portal (record v { changing_wifi_only = b }))
  portal_changed v b = record { sound = λ s. ground arith; balanced = ground arith }

  module _ {S : Type 0} (config : ProvisioningConfig) (outside : Outside)
      (cli : config.has_cli ≡ true) where
    pub view-send :
        (p : Provisioning S) (id : Text) (ok : Bool)
        → view (send_cli_claim_response config outside p id ok)
          ≡ record (view p) { answers = weigh id + total weigh p.responses }
    unfolding send_cli_claim_response
    view-send p id ok = rw cli refl

    pub view-fail : (p : Provisioning S) → view (fail_cli_claim config outside p) ≡ closed (view p)
    unfolding fail_cli_claim send_cli_claim_response
    view-fail p = ground (arith, cli)

    pub view-portal :
        (p : Provisioning S) → view (start_portal config outside p) ≡ in_portal (view p)
    unfolding start_portal
    view-portal p =
        ap (λ (v : View). record v { portal_running = true; state = setup_portal }) (view-fail p)

    pub IsKept-fail :
        (p : Provisioning S) → IsKept (view p) (view (fail_cli_claim config outside p))
    IsKept-fail p = subst (IsKept (view p)) (sym (view-fail p)) (closed-IsKept (view p))

    pub IsKept-portal :
        (p : Provisioning S) → IsKept (view p) (view (start_portal config outside p))
    IsKept-portal p = subst (IsKept (view p)) (sym (view-portal p)) (in_portal-IsKept (view p))

    pub IsKept-time_sync :
        (p : Provisioning S) (reset_attempts : Bool)
        → IsKept (view p) (view (start_time_sync config outside p reset_attempts))
    unfolding start_time_sync
    IsKept-time_sync p reset_attempts = record { sound = λ s. ground arith; balanced = refl }

    pub IsKept-changed :
        (p : Provisioning S) (b : Bool)
        → IsKept (view p) (view (start_portal config outside (record p { changing_wifi_only = b })))
    IsKept-changed p b =
        subst (IsKept (view p)) (sym (view-portal (record p { changing_wifi_only = b })))
          (portal_changed (view p) b)
