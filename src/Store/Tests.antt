-- ===== src/Store/Tests.antt =====
-- The theorem at a concrete input: the power is lost before the second put.
use nivalo_esp.Credentials.{RuntimeCredentials}
use nivalo_esp.Credentials.Example.{
  example, example_valid, example_json, example_fits, example_nonempty,
}
use nivalo_esp.Store.{ProvisioningStore, load, commit}
use nivalo_esp.Store.Memory.{Memory, memory, blank, memory-IsFlash}
use nivalo_esp.Store.Atomic.{commit_atomic}
use nivalo_esp.Common.{◌≡◌, ◌⊎◌, inl, refl, true, false}

abbrev one_put : ProvisioningStore Memory
one_put = record { protected = true; opened = true; preferences = blank 1 }

commit_atomic_example :
    let (ok, s') = commit memory example_json one_put example in
    ((ok ≡ false)
      × ((previous : RuntimeCredentials)
          → load memory example_json s' previous ≡ load memory example_json one_put previous))
    ⊎ ((previous : RuntimeCredentials) → load memory example_json s' previous ≡ (true, example))
commit_atomic_example =
    commit_atomic memory example_json one_put example memory-IsFlash refl example_valid (inl refl)
      example_fits example_nonempty
