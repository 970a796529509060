-- ===== src/Mqtt/Tests.antt =====
-- The theorems at concrete inputs.
use nivalo_esp.Mqtt.{MqttClient, MqttConnection, service}
use nivalo_esp.Mqtt.Attempts.{attempt, service_waits}
use nivalo_esp.Reconnect.{reset}
use nivalo_esp.Reconnect.Backoff.{wait_ms, reset-IsValid, reset_due}
use nivalo_esp.Common.{ℕ, ◌+◌, ◌≡◌, refl, false, arith, leb, if◌then◌else◌, codes}

-- A client that never connects, and counts the attempts.
abbrev unreachable : MqttClient ℕ
unreachable = record {
  connected = λ m. false;
  loop = λ m. m;
  set_client = λ m socket. m;
  set_server = λ m host port. m;
  connect = λ m id user password topic will. (false, m + 1);
  subscribe = λ m topic. m;
  publish = λ m topic payload retained. (false, m);
}

abbrev fresh : MqttConnection ℕ
fresh = record {
  mqtt = 0;
  retry_policy = reset;
  host = codes "mqtt.nivalo.io";
  port = 8883;
  client_id = codes "device";
  username = codes "user";
  password = codes "password";
  commands_topic = codes "commands";
  availability_topic = codes "availability";
  last_will = codes "offline";
  just_connected = false;
}

service_waits_example :
    let c' = service unreachable fresh 5000 7 in
    service unreachable c' (5000 + 1200) 9
    ≡ (if leb (wait_ms reset 7) 1200 then attempt unreachable c' (5000 + 1200) 9 else c')
service_waits_example =
    service_waits unreachable fresh 5000 7 1 1200 9
      (record { valid = reset-IsValid; down = refl; will = refl }) (omega arith) (omega arith)
      (reset_due 5000) refl refl
