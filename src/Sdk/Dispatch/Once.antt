-- ===== src/Sdk/Dispatch/Once.antt =====
-- A command that was handled is not run again.
use nivalo_esp.ResultCache.{
  status_capacity, find_in, ResultCache, CompletedCommand, valid, find, remember, id_capacity,
  name_capacity,
}
use nivalo_esp.ResultCache.Recent.{Call, is_valid_call, completed_by}
use nivalo_esp.ResultCache.Fifo.{IsValid, find_valid}
use nivalo_esp.ResultCache.Kept.{IsKept, IsKept-remember, IsKept-suc, IsKept-first}
use nivalo_esp.Sdk.Registry.{SdkRegistry, find_function}
use nivalo_esp.Sdk.Dispatch.{
  World, SdkState, Command, CommandResult, unhandled, succeeded, failed, status_text, complete,
  repeat, request_definitions, run_function, finish_command, run_command_handler, run_new,
  dispatch_sdk_command,
}
use nivalo_esp.Common.{
  ℕ, suc, ◌≤◌, ◌≡◌, ◌⊎◌, inl, inr, refl, sym, ap, subst, ◌∙◌, Bool, true, false, arith, List, [],
  ◌∷◌, Option, none, some, Option-cases, Text, codes, text_eq, is_empty, or_empty, if_cases,
}

-- The call of the cache that completes a command.
abbrev pub call : Command → Bool → Text → Call
call c ok message = record {
  command_id = c.command_id;
  command_name = some c.command_name;
  status = some (status_text ok);
  message = some message;
}

abbrev remembered : ResultCache → Call → ResultCache
remembered r k = (remember r k.command_id k.command_name k.status k.message).1

-- What a dispatch may do to the cache.
abbrev IsAdvanced : ResultCache → ResultCache → Type 0
IsAdvanced r r' = (r' ≡ r) ⊎ ((k : Call) × (r' ≡ remembered r k))

Result-cases : (r : CommandResult) → (r ≡ unhandled) ⊎ ((r ≡ succeeded) ⊎ (r ≡ failed))
Result-cases unhandled = inl refl
Result-cases succeeded = inr (inl refl)
Result-cases failed = inr (inr refl)

bool_apart : false ≡ true → ⊥
bool_apart h = ground arith

pub valid_nonempty : (v : Option Text) (n : ℕ) → valid v n ≡ true → is_empty (or_empty v) ≡ false
unfolding valid
valid_nonempty none n h = absurd (ground arith)
valid_nonempty (some s) n h = ground arith

valid-status : (ok : Bool) → valid (some (status_text ok)) status_capacity ≡ true
unfolding valid
valid-status true = refl
valid-status false = refl

module _ {H R C W : Type 0} (world : World H C W) (registry : SdkRegistry H R C) where
  complete-IsAdvanced :
      (s : SdkState W) (c : Command) (ok : Bool) (message : Text)
      → IsAdvanced s.results (complete world registry s c ok message).results
  unfolding complete
  complete-IsAdvanced s c ok message =
      if_cases (λ (t : SdkState W). IsAdvanced s.results t.results)
        (is_empty (or_empty c.command_id)) _ _ (λ e. inl refl) (λ e. inr (call c ok message, refl))

  -- The world after some events, the last one first.
  abbrev pub after_events : W → List (Text × (Text × Text)) → W
  after_events w [] = w
  after_events w ((name, (what, severity)) ∷ rest) =
      world.event (after_events w rest) name what severity

  -- The world has acknowledged the result of a command, and since then only seen events.
  abbrev pub IsAcked : W → Text → Bool → Text → Type 0
  IsAcked w' id ok message =
      (w : W) × ((events : List (Text × (Text × Text))) × (w'
          ≡ after_events (world.ack w id (status_text ok) message) events))

  -- The result of a command was acknowledged, and the cache has it.
  abbrev IsRemembered : ResultCache → Command → SdkState W → Type 0
  IsRemembered r c t =
      (ok : Bool) × ((message : Text) × (IsAcked t.world (or_empty c.command_id) ok message
          × (t.results ≡ remembered r (call c ok message))))

  complete-IsRemembered :
      (s : SdkState W) (c : Command) (ok : Bool) (message : Text)
      → is_empty (or_empty c.command_id) ≡ false
      → IsRemembered s.results c (complete world registry s c ok message)
  unfolding complete
  complete-IsRemembered s c ok message e = (ok, (message, ((s.world, ([], rw e refl)), rw e refl)))

  abbrev with_event : SdkState W → Text → Text → Text → SdkState W
  with_event t name what severity = record t { world = world.event t.world name what severity }

  event-IsRemembered :
      (r : ResultCache) (c : Command) (t : SdkState W) (name what severity : Text)
      → IsRemembered r c t
      → IsRemembered r c (with_event t name what severity)
  event-IsRemembered r c t name what severity (ok, (message, ((w, (events, acked)), stored))) = (
    ok,
    (
      message,
      (
        (w, ((name, (what, severity)) ∷ events, ap (λ v. world.event v name what severity) acked)),
        stored,
      ),
    ),
  )

  -- What holds of the cache after a command that is new, by whether the command was handled: it is as
  -- before, or is what `complete` makes of it.
  module _ (P : Bool → Command → ResultCache → SdkState W → Type 0)
      (completes : (s : SdkState W) (c : Command) (ok : Bool) (message : Text)
        → P true c s.results (complete world registry s c ok message))
      (reports : (c : Command) (r : ResultCache) (t : SdkState W) (name what severity : Text)
        → P true c r t
        → P true c r (with_event t name what severity))
      (passes : (c : Command) (s : SdkState W) → P false c s.results s) where
    request_definitions_lem :
        (m : Bool) (s : SdkState W) (c : Command)
        → let p = request_definitions world registry m s c in P p.0 c s.results p.1
    unfolding request_definitions
    request_definitions_lem true s c = passes c _
    request_definitions_lem false s c = completes _ c _ _

    run_command_handler_lem :
        (s : SdkState W) (c : Command) (handler : C)
        → let p = run_command_handler world registry s c handler in P p.0 c s.results p.1
    unfolding run_command_handler finish_command
    run_command_handler_lem s c handler =
        let result = (world.call_command handler c.command_name c.arguments s.world).0 in
        elim (Result-cases result) [
          | inl e ↦ rw (run_command_handler, e) (passes c _)
          | inr (inl e) ↦ rw (run_command_handler, e) (reports c _ _ _ _ _ (completes _ c _ _))
          | inr (inr e) ↦ rw (run_command_handler, e) (reports c _ _ _ _ _ (completes _ c _ _))
        ]

    run_new_lem :
        (m : Bool) (s : SdkState W) (c : Command)
        → let p = run_new world registry m s c in P p.0 c s.results p.1
    unfolding run_new run_function
    run_new_lem m s c =
        if_cases (λ (p : Bool × SdkState W). P p.0 c s.results p.1)
          (text_eq c.command_name (codes "requestDefinitions")) _ _
          (λ e. request_definitions_lem m s c)
          (λ e. elim (Option-cases (find_function registry (some c.command_name))) [
            | inr (f, found) ↦ rw found (reports c _ _ _ _ _ (completes _ c _ _))
            | inl missing ↦ elim (Option-cases registry.command_handler) [
              | inl none_set ↦ rw (missing, none_set) (passes c s)
              | inr (handler, h) ↦ rw (missing, h) (run_command_handler_lem s c handler)
            ]
          ])

  pub dispatch_known :
      (m : Bool) (s : SdkState W) (c : Command) (e : CompletedCommand)
      → find s.results c.command_id ≡ some e
      → dispatch_sdk_command world registry m s c ≡ (true, repeat world registry s c e)
  unfolding dispatch_sdk_command
  dispatch_known m s c e known = rw (dispatch_sdk_command, known) refl

  pub dispatch_new :
      (m : Bool) (s : SdkState W) (c : Command)
      → find s.results c.command_id ≡ none
      → dispatch_sdk_command world registry m s c ≡ run_new world registry m s c
  unfolding dispatch_sdk_command
  dispatch_new m s c new = rw (dispatch_sdk_command, new) refl

  repeat-results :
      (s : SdkState W) (c : Command) (e : CompletedCommand)
      → (repeat world registry s c e).results ≡ s.results
  unfolding repeat
  repeat-results s c e =
      if_cases (λ (t : SdkState W). t.results ≡ s.results) (text_eq c.command_name e.command_name) _
        _ (λ k. refl) (λ k. refl)

  dispatch-IsAdvanced :
      (m : Bool) (s : SdkState W) (c : Command)
      → IsAdvanced s.results (dispatch_sdk_command world registry m s c).1.results
  dispatch-IsAdvanced m s c = elim (Option-cases (find s.results c.command_id)) [
    | inr (e, known) ↦ inl (
        ap (λ (p : Bool × SdkState W). p.1.results) (dispatch_known m s c e known)
        ∙ repeat-results s c e)
    | inl new ↦
        subst (λ (p : Bool × SdkState W). IsAdvanced s.results p.1.results)
          (sym (dispatch_new m s c new))
          (run_new_lem (λ b k r t. IsAdvanced r t.results) (λ t k. complete-IsAdvanced t k)
            (λ k r t n d v h. h) (λ k t. inl refl) m s c)
  ]

  -- A run of commands.
  abbrev pub run : Bool → SdkState W → List Command → SdkState W
  run m s [] = s
  run m s (c ∷ rest) = run m (dispatch_sdk_command world registry m s c).1 rest

  pub IsKept-dispatch :
      (m : Bool) (s : SdkState W) (c : Command) (age : ℕ) (id : Text) (e : CompletedCommand)
      → age ≤ 7
      → IsKept age id e s.results
      → IsKept (suc age) id e (dispatch_sdk_command world registry m s c).1.results
  IsKept-dispatch m s c age id e h kept = elim (dispatch-IsAdvanced m s c) [
    | inl same ↦ subst (IsKept (suc age) id e) (sym same) (IsKept-suc age id e s.results kept)
    | inr (k, more) ↦
        subst (IsKept (suc age) id e) (sym more) (IsKept-remember age id e s.results k h kept)
  ]

  -- A new command that was handled leaves its result in the cache.
  pub handled-IsKept :
      (m : Bool) (s : SdkState W) (c : Command) (id : Text)
      → IsValid s.results
      → c.command_id ≡ some id
      → valid (some id) id_capacity ≡ true
      → valid (some c.command_name) name_capacity ≡ true
      → find s.results (some id) ≡ none
      → (dispatch_sdk_command world registry m s c).0 ≡ true
      → (ok : Bool) × ((message : Text) × (IsAcked
              (dispatch_sdk_command world registry m s c).1.world
              id
              ok
              message
            × IsKept 1 id
                (completed_by (call c ok message))
                (dispatch_sdk_command world registry m s c).1.results))
  handled-IsKept m s c id v named valid_id valid_name new handled =
      let some_id : is_empty (or_empty c.command_id) ≡ false =
        rw named (valid_nonempty (some id) id_capacity valid_id) in
      let new' : find s.results c.command_id ≡ none = ap (find s.results) named ∙ new in
      let first = dispatch_new m s c new' in
      let handled' : (run_new world registry m s c).0 ≡ true =
        sym (ap (λ (p : Bool × SdkState W). p.0) first) ∙ handled in
      let (ok, (message, (acked, stored))) =
        run_new_lem
          (λ b k r t. b ≡ true → is_empty (or_empty k.command_id) ≡ false → IsRemembered r k t)
          (λ t k ok message h e. complete-IsRemembered t k ok message e)
          (λ k r t name what severity f h e. event-IsRemembered r k t name what severity (f h e))
          (λ k t h e. absurd (bool_apart h)) m s c handled' some_id in
      let acked' : IsAcked (dispatch_sdk_command world registry m s c).1.world id ok message =
        subst (λ (p : Bool × SdkState W). IsAcked p.1.world id ok message) (sym first)
          (subst (λ i. IsAcked (run_new world registry m s c).1.world (or_empty i) ok message) named
            acked) in
      let results : (dispatch_sdk_command world registry m s c).1.results
          ≡ remembered s.results (call c ok message) =
        ap (λ (p : Bool × SdkState W). p.1.results) first ∙ stored in
      let good : is_valid_call (call c ok message) ≡ true =
        let valid_c : valid c.command_id id_capacity ≡ true =
          ap (λ i. valid i id_capacity) named ∙ valid_id in
        rw (valid_c, valid_name, valid-status ok) refl in
      let absent : find_in (or_empty c.command_id) s.results.entries ≡ none =
        ap (λ i. find_in (or_empty i) s.results.entries) named
        ∙ sym (find_valid s.results id valid_id)
        ∙ new in
      (
        ok,
        (
          message,
          (
            acked',
            subst (IsKept 1 id (completed_by (call c ok message))) (sym results) (
                subst
                  (λ i.
                    IsKept 1 (or_empty i) (completed_by (call c ok message))
                      (remembered s.results (call c ok message)))
                  named (IsKept-first s.results (call c ok message) v good absent)),
          ),
        ),
      )
