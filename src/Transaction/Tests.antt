-- ===== src/Transaction/Tests.antt =====
-- The theorem at a concrete input: the power is lost after the credentials are staged and stored.
use nivalo_esp.Credentials.{RuntimeCredentials}
use nivalo_esp.Credentials.Example.{
  example, example_valid, example_json, example_fits, example_nonempty,
}
use nivalo_esp.Store.{ProvisioningStore, load}
use nivalo_esp.Store.Memory.{Memory, memory, blank, memory-IsFlash}
use nivalo_esp.Transaction.{finish_cli_provisioning}
use nivalo_esp.Transaction.Finish.{finish_atomic}
use nivalo_esp.Common.{◌≡◌, ◌⊎◌, inl, refl, true, false}

abbrev two_puts : ProvisioningStore Memory
two_puts = record { protected = true; opened = true; preferences = blank 2 }

finish_atomic_example :
    let (completed, (s', credentials')) =
      finish_cli_provisioning memory example_json (two_puts, example) example true in
    ((completed ≡ false)
      × ((previous : RuntimeCredentials)
          → load memory example_json s' previous ≡ load memory example_json two_puts previous))
    ⊎ ((previous : RuntimeCredentials) → load memory example_json s' previous ≡ (true, example))
finish_atomic_example =
    finish_atomic memory example_json two_puts example example true memory-IsFlash refl
      example_valid (inl refl) example_fits example_nonempty
