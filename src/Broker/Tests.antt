-- ===== src/Broker/Tests.antt =====
-- The theorems at concrete inputs.
use nivalo_esp.Broker.{is_local_broker_host}
use nivalo_esp.Broker.Ipv4.{dotted}
use nivalo_esp.Broker.Local.{address, IsLocalNetwork, local-dotted, undotted_local}
use nivalo_esp.Common.{◌≡◌, ◌↔◌, refl, true, arith, codes}

local-dotted_example :
    (is_local_broker_host (dotted 172 31 0 200) ≡ true) ↔ IsLocalNetwork (address 172 31 0 200)
local-dotted_example =
    local-dotted 172 31 0 200 (omega arith) (omega arith) (omega arith) (omega arith)

-- A public address of a name server.
undotted_local_example : is_local_broker_host (codes "2001:4860:4860::8888") ≡ true
undotted_local_example = undotted_local (codes "2001:4860:4860::8888") refl refl
