-- ===== src/ReceiveSequence/Tests.antt =====
-- The theorem at a concrete input.
use nivalo_esp.ReceiveSequence.{reset, acknowledgment}
use nivalo_esp.ReceiveSequence.Delivery.{deliver, with_repeats, numbers, last_of, deliver_once}
use nivalo_esp.Common.{ℕ, ◌≡◌, arith, List, [], ◌∷◌}

abbrev repeated : List (ℕ × ℕ)
repeated = (6, 0) ∷ (5, 2) ∷ []

deliver_once_example :
    let (passed, s) = deliver reset (with_repeats ((5, 1) ∷ repeated)) in
    (passed ≡ numbers ((5, 1) ∷ repeated)) × (acknowledgment s ≡ last_of 5 repeated)
deliver_once_example = deliver_once 5 1 repeated (omega arith, (omega arith, tt))
