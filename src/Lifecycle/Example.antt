-- ===== src/Lifecycle/Example.antt =====
-- A client that keeps the socket it is set to, and a device with two signing keys.
use nivalo_esp.Mqtt.{MqttClient, Socket, secure, MqttConnection}
use nivalo_esp.Lifecycle.{MqttConfig, Device, FirmwareSigningKey, tls, plaintext_local}
use nivalo_esp.Reconnect.{reset}
use nivalo_esp.Common.{true, false, List, [], ◌∷◌, none, some, Text, codes}

abbrev pub client : MqttClient Socket
client = record {
  connected = λ m. false;
  loop = λ m. m;
  set_client = λ m socket. socket;
  set_server = λ m host port. m;
  connect = λ m id user password topic will. (false, m);
  subscribe = λ m topic. m;
  publish = λ m topic payload retained. (false, m);
}

abbrev pub connection : MqttConnection Socket
connection = record {
  mqtt = secure none;
  retry_policy = reset;
  host = codes "mqtt.nivalo.io";
  port = 8883;
  client_id = codes "device";
  username = codes "user";
  password = codes "password";
  commands_topic = codes "commands";
  availability_topic = codes "availability";
  last_will = codes "offline";
  just_connected = false;
}

abbrev pub device : Device Socket
device = record {
  connection = connection;
  status = (0, 0, 0);
  mac_addr = [];
  device_id = codes "d1";
  client_id = [];
  username = [];
  password = [];
  mqtt_host = codes "mqtt.nivalo.io";
  mqtt_port = 8883;
  mqtt_transport = tls;
  firmware_signing_keys = [];
  preserve_known_good_stm32_image = false;
  known_good_stm32_image_size_bytes = 0;
  stm32_golden_image_path = [];
  stm32_golden_image_size_bytes = 0;
  stm32_golden_image_sha256 = [];
  destructive_stm32_recovery_acceptance_pending = false;
  firmware_version = [];
  hardware_name = [];
  telemetry_buffer_capacity = 0;
  clock = none;
  telemetry_topic = [];
  state_topic = [];
  events_topic = [];
  definitions_topic = [];
  availability_topic = [];
  commands_topic = [];
  command_ack_topic_prefix = [];
  legacy_ack_topic_prefix = [];
}

abbrev pub signing_key : Text → FirmwareSigningKey
signing_key id = record { key_id = some id; public_key_pem = some (codes "pem") }

abbrev pub two_keys : List FirmwareSigningKey
two_keys = signing_key (codes "k1") ∷ signing_key (codes "k2") ∷ []

-- A configuration without TLS for a broker in the local network.
abbrev pub local_config : List FirmwareSigningKey → MqttConfig
local_config keys = record {
  device_id = some (codes "d1");
  client_id = some (codes "c1");
  username = some (codes "u1");
  password = some (codes "p1");
  host = some (codes "broker.lan");
  port = 1883;
  firmware_version = some (codes "1.0");
  hardware_name = some (codes "board");
  mac_address = [];
  transport = plaintext_local;
  ca_certificate = none;
  firmware_signing_keys = some keys;
  firmware_signing_key_count = 2;
  preserve_known_good_stm32_image = false;
  known_good_stm32_image_size_bytes = 0;
  stm32_golden_image_path = none;
  stm32_golden_image_size_bytes = 0;
  stm32_golden_image_sha256 = none;
  destructive_stm32_recovery_acceptance_once = false;
  primary_ntp_server = codes "pool.ntp.org";
  secondary_ntp_server = codes "time.cloudflare.com";
  configure_clock = true;
  telemetry_buffer_capacity = 12;
}
