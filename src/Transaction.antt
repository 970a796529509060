-- ===== src/Transaction.antt =====
-- src/NivaloCliTransaction.h, the order of the steps that replace the credentials, and
-- `NivaloProvisioning::finishCliProvisioning` of src/NivaloProvisioning.cpp, which runs them on the
-- store. A step returns whether it succeeded, and the state after it.
pub mod Finish
mod Tests
use nivalo_esp.Credentials.{RuntimeCredentials, is_valid_credentials, Json, serialize_credentials}
use nivalo_esp.Store.{
  Preferences, ProvisioningStore, load, commit, clear_pending, stage_cli, clear_cli_staged,
  no_credentials,
}
use nivalo_esp.Common.{Bool, false, not, ◌&&◌, if◌then◌else◌, text_eq}

pub record Operations (State : Type 0) : Type 0 where
  pub stage : State → Bool × State
  pub commit_active : State → Bool × State
  pub supersede_pending_claim : State → Bool × State
  pub verify_active : State → Bool × State
  pub clear_stage : State → Bool × State

-- `first() && second()`.
pub and_then :
    {State : Type 0} → (State → Bool × State) → (State → Bool × State) → State → Bool × State
and_then first second s = let (ok, s') = first s in if ok then second s' else (false, s')

pub resume : {State : Type 0} → Operations State → State → Bool × State
unfolding and_then
resume operations = and_then operations.commit_active (
    and_then operations.supersede_pending_claim
      (and_then operations.verify_active operations.clear_stage))

pub start : {State : Type 0} → Operations State → State → Bool × State
unfolding resume
start operations = and_then operations.stage (resume operations)

module _ {S : Type 0} (prefs : Preferences S) (json : Json) where
  -- `struct Operations`: the store, and `committed`.
  pub store_operations : RuntimeCredentials → Operations (ProvisioningStore S × RuntimeCredentials)
  store_operations replacement = record {
    stage = λ (s, committed).
        let (ok, s') = stage_cli prefs json s replacement in (ok, (s', committed));
    commit_active =
        λ (s, committed). let (ok, s') = commit prefs json s replacement in (ok, (s', committed));
    supersede_pending_claim =
        λ (s, committed). let (ok, s') = clear_pending prefs json s in (ok, (s', committed));
    verify_active = λ (s, committed).
        let (ok, committed') = load prefs json s committed in
        (
          ok
              && text_eq (serialize_credentials json committed')
                  (serialize_credentials json replacement),
          (s, committed'),
        );
    clear_stage =
        λ (s, committed). let (ok, s') = clear_cli_staged prefs json s in (ok, (s', committed));
  }

  -- The store, and `_credentials`.
  pub finish_cli_provisioning :
      ProvisioningStore S × RuntimeCredentials
      → RuntimeCredentials
      → Bool
      → Bool × (ProvisioningStore S × RuntimeCredentials)
  unfolding store_operations start
  finish_cli_provisioning (s, credentials) replacement stage_first =
      if not (is_valid_credentials replacement)
      then (false, (s, credentials))
      else (let operations = store_operations replacement in
          let (completed, (s', committed)) =
            if stage_first
            then start operations (s, no_credentials)
            else resume operations (s, no_credentials) in
          (completed, (s', if completed then committed else credentials)))
