-- ===== src/Ota/Programmed.antt =====
-- src/NivaloDeviceOta.cpp: the image that the secondary MCU holds when a firmware command succeeds.
use nivalo_esp.Ota.{
  OtaWorld, OtaState, Action, running, percent, Outcome, go, returned, restarted, Run, and_then,
  emit, acknowledge,
}
use nivalo_esp.Ota.Files.{
  bytes_to_hex, compute_file_sha256, verify_stm32_against_file, program_stm32_from_file,
}
use nivalo_esp.Ota.Download.{staging_path, Download, check_staged}
use nivalo_esp.Ota.Recovery.{
  RecoveryConfig, Recovery, connect_target, check_capacity, prepare_recovery,
}
use nivalo_esp.Ota.Stm32.{
  inject_if_pending, program_target, announce_programming, leave_verified, recover_target,
  program_or_recover, flash_stm32,
}
use nivalo_esp.Ota.ReadBack.{IsMemory, Holds, verify-Holds, verify-flash}
use nivalo_esp.Ota.Staging.{compute_file_sha256-content}
use nivalo_esp.Ota.Kept.{KeepsImage, spares_flash, compute_file_sha256-image, program-image}
use nivalo_esp.Ota.Image.{
  announce_programming-image, inject_if_pending-image, acknowledge-image, connect_target-image,
  check_capacity-image, prepare_recovery-image,
}
use nivalo_esp.Common.{
  ℕ, ◌≡◌, inl, inr, refl, sym, ap, subst, ◌∙◌, true, arith, List, none, some, length, Option-cases,
  Text, codes, text_eq, text_eq_iff,
}

-- What is asked of the device: of its file system and its flash, of the staging file, and that only
-- the call that prepares programming changes the flash, of those whose results are not used.
pub record IsDevice {W : Type 0} (io : OtaWorld W) (content : W → Text → List ℕ) (flash : W → ℕ → ℕ)
    : Type 0 where
  pub memory : IsMemory io content flash
  pub keeps : KeepsImage io (λ w. content w staging_path)
  pub perform : (w : W) (a : Action) → spares_flash a ≡ true → flash (io.perform w a) ≡ flash w

-- A part of the handler that goes on was reached through its first part.
pub and_then-go :
    {W A B : Type 0} (r : Outcome A × OtaState W) (f : A → Run W B) (b : B)
    → (and_then r f).0 ≡ go b
    → (a : A) × ((r.0 ≡ go a) × (((f a r.1).0 ≡ go b) × (and_then r f ≡ f a r.1)))
and_then-go (go a, s) f b h = (a, (refl, (h, refl)))
and_then-go (returned, s) f b h = absurd (ground arith)
and_then-go (restarted, s) f b h = absurd (ground arith)

module _ {W : Type 0} (io : OtaWorld W) (content : W → Text → List ℕ) (flash : W → ℕ → ℕ)
    (device : IsDevice io content flash) (command_id : Text) (config : RecoveryConfig) where
  abbrev pub image : W → List ℕ
  image w = content w staging_path

  -- The state that is read back.
  abbrev before_read_back : ℕ → OtaState W → OtaState W
  before_read_back size s =
      (inject_if_pending io command_id config size (
        acknowledge io command_id running (codes "Read-back verifying STM32 flash")
          (some (percent 85))
          (record s { world = (program_stm32_from_file io staging_path size s.world).1 }))).1

  program_target-read_back :
      (size : ℕ) (s : OtaState W)
      → (program_target io command_id config size s).0 ≡ none
      → let (verified, w) =
          verify_stm32_against_file io staging_path size (before_read_back size s).world in
        (verified ≡ true) × ((program_target io command_id config size s).1.world ≡ w)
  unfolding program_target
  program_target-read_back size s h = (ground arith, ground arith)

  before_read_back-image :
      (size : ℕ) (s : OtaState W) → image (before_read_back size s).world ≡ image s.world
  before_read_back-image size s =
      let s1 = record s { world = (program_stm32_from_file io staging_path size s.world).1 } in
      let s2 =
        acknowledge io command_id running (codes "Read-back verifying STM32 flash")
          (some (percent 85)) s1 in
      inject_if_pending-image io command_id image device.keeps config size s2
      ∙ acknowledge-image io command_id image device.keeps running
          (codes "Read-back verifying STM32 flash") (some (percent 85)) s1
      ∙ program-image io image device.keeps staging_path size s.world

  program_target-Holds :
      (size : ℕ) (s : OtaState W)
      → (program_target io command_id config size s).0 ≡ none
      → Holds (flash (program_target io command_id config size s).1.world) (image s.world)
  program_target-Holds size s h =
      let (verified, after) = program_target-read_back size s h in
      let w = (before_read_back size s).world in
      let held = (verify-Holds io content flash device.memory staging_path size w verified).1 in
      let same = ap flash after ∙ verify-flash io content flash device.memory staging_path size w in
      subst (λ f. Holds f (image s.world)) (sym same)
        (subst (Holds (flash w)) (before_read_back-image size s) held)

  leave_verified-flash :
      (size : ℕ) (r : Recovery) (s : OtaState W)
      → flash (leave_verified io command_id config size r s).world ≡ flash s.world
  unfolding leave_verified emit
  leave_verified-flash size r s = grind (arith, device.perform)

  program_or_recover-none :
      (size : ℕ) (r : Recovery) (s : OtaState W)
      → (program_or_recover io command_id config size r s).0 ≡ go tt
      → let s1 = announce_programming io command_id config size s in
        let t = program_target io command_id config size s1 in
        (t.0 ≡ none)
        × ((program_or_recover io command_id config size r s).1
            ≡ leave_verified io command_id config size r t.1)
  unfolding program_or_recover recover_target
  program_or_recover-none size r s h =
      let t =
        program_target io command_id config size
          (announce_programming io command_id config size s) in
      elim (Option-cases t.0) [
        | inl done ↦ (done, rw (program_or_recover, done) refl)
        | inr (reason, bad) ↦ absurd (ground arith)
      ]

  program_or_recover-Holds :
      (size : ℕ) (r : Recovery) (s : OtaState W)
      → (program_or_recover io command_id config size r s).0 ≡ go tt
      → Holds (flash (program_or_recover io command_id config size r s).1.world) (image s.world)
  program_or_recover-Holds size r s h =
      let (done, after) = program_or_recover-none size r s h in
      let s1 = announce_programming io command_id config size s in
      let t = (program_target io command_id config size s1).1 in
      let same = ap (λ (u : OtaState W). flash u.world) after ∙ leave_verified-flash size r t in
      subst (λ f. Holds f (image s.world)) (sym same)
        (subst (Holds (flash t.world))
          (announce_programming-image io command_id image device.keeps config size s)
          (program_target-Holds size s1 done))

  pub flash_stm32-Holds :
      (size : ℕ) (failure : Text) (s : OtaState W)
      → (flash_stm32 io command_id config size failure s).0 ≡ go tt
      → Holds (flash (flash_stm32 io command_id config size failure s).1.world) (image s.world)
  unfolding flash_stm32
  flash_stm32-Holds size failure s h =
      let r1 = connect_target io command_id config size s in
      let (u, (e1, (h1, same1))) = and_then-go r1 _ tt h in
      let r2 = check_capacity io command_id config size r1.1 in
      let (v, (e2, (h2, same2))) = and_then-go r2 _ tt h1 in
      let r3 = prepare_recovery io command_id config size failure r2.1 in
      let (r, (e3, (h3, same3))) = and_then-go r3 _ tt h2 in
      let kept =
        prepare_recovery-image io command_id image device.keeps config size failure r2.1 r e3
        ∙ check_capacity-image io command_id image device.keeps config size r1.1 e2
        ∙ connect_target-image io command_id image device.keeps config size s e1 in
      let same =
        ap (λ (t : Outcome (Unit {0}) × OtaState W). flash t.1.world) (same1 ∙ same2 ∙ same3) in
      subst (λ f. Holds f (image s.world)) (sym same)
        (subst (Holds (flash (program_or_recover io command_id config size r r3.1).1.world)) kept
          (program_or_recover-Holds size r r3.1 h3))

  -- A staged firmware that passes its check has the signed size and checksum, and stays as it is.
  pub record IsStaged (size : ℕ) (sha256 : Text) (d : Download) (s : OtaState W) : Type 0 where
    pub long : length (image s.world) ≡ size
    pub digest : sha256 ≡ bytes_to_hex (io.sha256 (image s.world))
    pub kept : image (check_staged io command_id size sha256 d s).1.world ≡ image s.world

  check_staged-parts :
      (size : ℕ) (sha256 : Text) (d : Download) (s : OtaState W)
      → (check_staged io command_id size sha256 d s).0 ≡ go tt
      → let (staged, w) = compute_file_sha256 io staging_path size s.world in
        (staged ≡ some sha256) × ((check_staged io command_id size sha256 d s).1.world ≡ w)
  unfolding check_staged
  check_staged-parts size sha256 d s h =
      let staged = (compute_file_sha256 io staging_path size s.world).0 in
      elim (Option-cases staged) [
        | inl missing ↦ absurd (ground arith)
        | inr (digest, found) ↦
            let same : text_eq sha256 digest ≡ true = ground arith in
            (found ∙ ap some (sym ((text_eq_iff sha256 digest).0 same)), ground arith)
      ]

  pub check_staged-IsStaged :
      (size : ℕ) (sha256 : Text) (d : Download) (s : OtaState W)
      → (check_staged io command_id size sha256 d s).0 ≡ go tt
      → IsStaged size sha256 d s
  check_staged-IsStaged size sha256 d s h =
      let (staged, after) = check_staged-parts size sha256 d s h in
      let (long, digest) =
        compute_file_sha256-content io content flash device.memory staging_path size s.world sha256
          staged in
      record {
        long = long;
        digest = digest;
        kept =
            ap image after
            ∙ compute_file_sha256-image io image device.keeps staging_path size s.world;
      }
