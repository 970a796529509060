-- ===== src/Ota/Parts.antt =====
-- src/NivaloDeviceOta.cpp: the acknowledgments of the parts of `handleFirmwareCommand`.
use nivalo_esp.Ota.{
  OtaWorld, OtaState, Action, ack, running, Outcome, go, returned, restarted, Run, and_then, Round,
  emit, close_download, acknowledge,
}
use nivalo_esp.Ota.Download.{
  Download, take_bytes, download_round, download_loop, download, check_staged, flash_esp32,
}
use nivalo_esp.Ota.Recovery.{
  RecoveryConfig, Recovery, connect_target, check_capacity, choose_recovery, prepare_recovery,
}
use nivalo_esp.Ota.Stm32.{
  inject_if_pending, program_target, announce_programming, leave_verified, recover_target,
  program_or_recover, flash_stm32,
}
use nivalo_esp.Common.{ℕ, suc, ◌+◌, ◌≡◌, refl, arith, List, [], ◌∷◌, Option, Text}

-- How many of the calls acknowledge the command as succeeded or failed.
abbrev pub answers : List Action → ℕ
answers [] = 0
answers (ack running message progress ∷ trace) = answers trace
answers (ack _ message progress ∷ trace) = suc (answers trace)
answers (_ ∷ trace) = answers trace

-- One for a part that ends the handler.
abbrev pub ended : {A : Type 0} → Outcome A → ℕ
ended (go a) = 0
ended returned = 1
ended restarted = 1

-- A part answers once if it ends the handler, and not if it goes on.
abbrev pub AnswersOnce : {W A : Type 0} → Run W A → Type 0
AnswersOnce {W} m = (s : OtaState W) → answers (m s).1.trace ≡ answers s.trace + ended (m s).0

pub bind-AnswersOnce :
    {W A B : Type 0} (m : Run W A) (f : A → Run W B)
    → AnswersOnce m
    → ((a : A) → AnswersOnce (f a))
    → AnswersOnce (λ s. and_then (m s) f)
bind-AnswersOnce {W} {A} {B} m f h k s = go_on (m s) (h s)
  where
    go_on :
        (r : Outcome A × OtaState W)
        → answers r.1.trace ≡ answers s.trace + ended r.0
        → answers (and_then r f).1.trace ≡ answers s.trace + ended (and_then r f).0
    go_on (go a, t) e = omega (arith, k a t)
    go_on (returned, t) e = e
    go_on (restarted, t) e = e

module _ {W : Type 0} (io : OtaWorld W) (c : ℕ) (cs : Text) where
  take_bytes-answers :
      (size : ℕ) (round : Round) (bytes : List ℕ) (d : Download) (s : OtaState W)
      → answers (take_bytes io (c ∷ cs) size round bytes d s).1.1.trace ≡ answers s.trace
  unfolding take_bytes acknowledge emit
  take_bytes-answers size round bytes d s = ground arith

  download_round-answers :
      (size : ℕ) (round : Round) (d : Download) (s : OtaState W)
      → answers (download_round io (c ∷ cs) size round d s).1.1.trace ≡ answers s.trace
  unfolding download_round
  download_round-answers size round d s = grind (arith, take_bytes-answers)

  download_loop-answers :
      (size : ℕ) (rounds : List Round) (d : Download) (s : OtaState W)
      → answers (download_loop io (c ∷ cs) size rounds d s).1.trace ≡ answers s.trace
  unfolding download_loop
  download_loop-answers size [] d s = refl
  download_loop-answers size (round ∷ rounds) d s =
      let r = download_round io (c ∷ cs) size round d s in
      ground (
        arith,
        download_round-answers size round d s,
        download_loop-answers size rounds r.1.0 r.1.1,
      )

  pub check_staged-AnswersOnce :
      (size : ℕ) (sha : Text) (d : Download) → AnswersOnce (check_staged io (c ∷ cs) size sha d)
  unfolding check_staged acknowledge emit
  check_staged-AnswersOnce size sha d s = ground arith

  pub flash_esp32-AnswersOnce :
      (A : Type 0) (size : ℕ) → AnswersOnce {A = A} (flash_esp32 io (c ∷ cs) size)
  unfolding flash_esp32 close_download acknowledge emit
  flash_esp32-AnswersOnce A size s = ground arith

  pub download-AnswersOnce :
      (size : ℕ) (content_length : Option ℕ) (failure : Text)
      → AnswersOnce (download io (c ∷ cs) size content_length failure)
  unfolding download emit
  download-AnswersOnce size content_length failure s = grind (arith, download_loop-answers)

  module _ (config : RecoveryConfig) (size : ℕ) where
    connect_target-AnswersOnce : AnswersOnce (connect_target io (c ∷ cs) config size)
    unfolding connect_target acknowledge emit
    connect_target-AnswersOnce s = ground arith

    check_capacity-AnswersOnce : AnswersOnce (check_capacity io (c ∷ cs) config size)
    unfolding check_capacity acknowledge emit
    check_capacity-AnswersOnce s = ground arith

    choose_recovery-answers :
        (failure : Text) (s : OtaState W)
        → answers (choose_recovery io (c ∷ cs) config size failure s).1.trace ≡ answers s.trace
    unfolding choose_recovery emit
    choose_recovery-answers failure s = ground arith

    prepare_recovery-AnswersOnce :
        (failure : Text) → AnswersOnce (prepare_recovery io (c ∷ cs) config size failure)
    unfolding prepare_recovery acknowledge emit
    prepare_recovery-AnswersOnce failure s = ground (arith, choose_recovery-answers failure s)

    program_target-answers :
        (s : OtaState W)
        → answers (program_target io (c ∷ cs) config size s).1.trace ≡ answers s.trace
    unfolding program_target inject_if_pending acknowledge emit
    program_target-answers s = ground arith

    recover_target-AnswersOnce :
        (A : Type 0) (r : Recovery) (failure : Text)
        → AnswersOnce {A = A} (recover_target io (c ∷ cs) config size r failure)
    unfolding recover_target acknowledge emit
    recover_target-AnswersOnce A r failure s = ground arith

    announce_programming-answers :
        (s : OtaState W)
        → answers (announce_programming io (c ∷ cs) config size s).trace ≡ answers s.trace
    unfolding announce_programming close_download acknowledge emit
    announce_programming-answers s = ground arith

    leave_verified-answers :
        (r : Recovery) (s : OtaState W)
        → answers (leave_verified io (c ∷ cs) config size r s).trace ≡ answers s.trace
    unfolding leave_verified emit
    leave_verified-answers r s = ground arith

    program_or_recover-AnswersOnce :
        (r : Recovery) → AnswersOnce (program_or_recover io (c ∷ cs) config size r)
    unfolding program_or_recover
    program_or_recover-AnswersOnce r s = grind (
      arith,
      announce_programming-answers,
      program_target-answers,
      leave_verified-answers,
      recover_target-AnswersOnce (Unit {0}),
    )

    pub flash_stm32-AnswersOnce :
        (failure : Text) → AnswersOnce (flash_stm32 io (c ∷ cs) config size failure)
    unfolding flash_stm32
    flash_stm32-AnswersOnce failure =
        bind-AnswersOnce (connect_target io (c ∷ cs) config size) _ connect_target-AnswersOnce λ _.
          bind-AnswersOnce (check_capacity io (c ∷ cs) config size) _ check_capacity-AnswersOnce
            λ _.
              bind-AnswersOnce (prepare_recovery io (c ∷ cs) config size failure) _
                (prepare_recovery-AnswersOnce failure) program_or_recover-AnswersOnce
