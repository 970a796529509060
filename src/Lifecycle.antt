-- ===== src/Lifecycle.antt =====
-- src/NivaloDeviceLifecycle.cpp: `beginMqtt`, which checks a configuration and takes it over.
pub mod Example
pub mod Keys
pub mod Plaintext
mod Tests
use nivalo_esp.Broker.{is_production_mqtt_host, is_local_broker_host}
use nivalo_esp.Mqtt.{MqttClient, MqttConnection, use_tls, use_plaintext, configure}
use nivalo_esp.Common.{
  ℕ, Bool, true, false, not, ◌&&◌, ◌||◌, List, [], ◌∷◌, ◌++◌, Option, none, some, min, take,
  replicate, ◌==◌, if◌then◌else◌, is_some, Text, codes, text_eq, is_empty, or_empty,
}

-- `other` is a value that the enumeration does not name.
pub data MqttTransport : Type 0 where
  tls : MqttTransport
  plaintext_local : MqttTransport
  other : MqttTransport

-- The pointers may be null.
pub record FirmwareSigningKey : Type 0 where
  pub key_id : Option Text
  pub public_key_pem : Option Text

-- The signing keys are the array and its count: `none` is the null pointer, and the count is then
-- in `firmware_signing_key_count`.
pub record MqttConfig : Type 0 where
  pub device_id : Option Text
  pub client_id : Option Text
  pub username : Option Text
  pub password : Option Text
  pub host : Option Text
  pub port : ℕ
  pub firmware_version : Option Text
  pub hardware_name : Option Text
  pub mac_address : Text
  pub transport : MqttTransport
  pub ca_certificate : Option Text
  pub firmware_signing_keys : Option (List FirmwareSigningKey)
  pub firmware_signing_key_count : ℕ
  pub preserve_known_good_stm32_image : Bool
  pub known_good_stm32_image_size_bytes : ℕ
  pub stm32_golden_image_path : Option Text
  pub stm32_golden_image_size_bytes : ℕ
  pub stm32_golden_image_sha256 : Option Text
  pub destructive_stm32_recovery_acceptance_once : Bool
  pub primary_ntp_server : Text
  pub secondary_ntp_server : Text
  pub configure_clock : Bool
  pub telemetry_buffer_capacity : ℕ

-- `clock` is what `beginClock` was last called with, and `status` the colour of the pixel.
pub record Device (M : Type 0) : Type 0 where
  pub connection : MqttConnection M
  pub status : ℕ × ℕ × ℕ
  pub mac_addr : Text
  pub device_id : Text
  pub client_id : Text
  pub username : Text
  pub password : Text
  pub mqtt_host : Text
  pub mqtt_port : ℕ
  pub mqtt_transport : MqttTransport
  pub firmware_signing_keys : List FirmwareSigningKey
  pub preserve_known_good_stm32_image : Bool
  pub known_good_stm32_image_size_bytes : ℕ
  pub stm32_golden_image_path : Text
  pub stm32_golden_image_size_bytes : ℕ
  pub stm32_golden_image_sha256 : Text
  pub destructive_stm32_recovery_acceptance_pending : Bool
  pub firmware_version : Text
  pub hardware_name : Text
  pub telemetry_buffer_capacity : ℕ
  pub clock : Option (Text × Text)
  pub telemetry_topic : Text
  pub state_topic : Text
  pub events_topic : Text
  pub definitions_topic : Text
  pub availability_topic : Text
  pub commands_topic : Text
  pub command_ack_topic_prefix : Text
  pub legacy_ack_topic_prefix : Text

abbrev pub missing : Option Text → Bool
missing value = is_empty (or_empty value)

pub required_missing : MqttConfig → Bool
required_missing config =
    missing config.device_id
    || missing config.client_id
    || missing config.username
    || missing config.password
    || missing config.host
    || config.port == 0
    || missing config.firmware_version
    || missing config.hardware_name

-- The keys of the count; without an array any key of the count is invalid.
abbrev pub signing_keys : MqttConfig → List FirmwareSigningKey
signing_keys config = elim config.firmware_signing_keys [
  | some keys ↦ take config.firmware_signing_key_count keys
  | none ↦
      replicate config.firmware_signing_key_count (record { key_id = none; public_key_pem = none })
]

-- The loop over the keys before.
unfoldable pub has_key_id : Text → List FirmwareSigningKey → Bool
has_key_id key_id [] = false
has_key_id key_id (prior ∷ rest) = text_eq (or_empty prior.key_id) key_id || has_key_id key_id rest

-- The loop over the keys, where `prior` are those before.
unfoldable pub valid_keys : List FirmwareSigningKey → List FirmwareSigningKey → Bool
unfolding has_key_id
valid_keys prior [] = true
valid_keys prior (key ∷ rest) =
    let later = valid_keys (prior ++ key ∷ []) rest in
    if missing key.key_id || missing key.public_key_pem
    then false
    else (if has_key_id (or_empty key.key_id) prior then false else later)

-- `snprintf` of a topic into its 150 bytes.
abbrev pub topic : Text → Text → Text
topic device_id suffix = take 149 (codes "nivalo/v1/devices/" ++ device_id ++ suffix)

module _ {M : Type 0} (client : MqttClient M) where
  -- The checks of the transport: whether they pass, and the connection on the socket they chose.
  pub choose_transport : MqttConnection M → MqttConfig → Bool × MqttConnection M
  choose_transport c config = elim config.transport [
    | plaintext_local ↦
        let host = or_empty config.host in
        if is_production_mqtt_host host || not (is_local_broker_host host)
        then (false, c)
        else (true, use_plaintext client c)
    | tls ↦
        if is_some config.ca_certificate && missing config.ca_certificate
        then (false, c)
        else (true, use_tls client c config.ca_certificate)
    | other ↦ (false, c)
  ]

  -- What follows the checks.
  pub take_over : Device M → MqttConfig → Device M
  take_over d config =
      let device_id = or_empty config.device_id in
      record d {
        status = (255, 0, 0);
        mac_addr = config.mac_address;
        device_id = device_id;
        client_id = or_empty config.client_id;
        username = or_empty config.username;
        password = or_empty config.password;
        mqtt_host = or_empty config.host;
        mqtt_port = config.port;
        mqtt_transport = config.transport;
        firmware_signing_keys = signing_keys config;
        preserve_known_good_stm32_image = config.preserve_known_good_stm32_image;
        known_good_stm32_image_size_bytes = config.known_good_stm32_image_size_bytes;
        stm32_golden_image_path = or_empty config.stm32_golden_image_path;
        stm32_golden_image_size_bytes = config.stm32_golden_image_size_bytes;
        stm32_golden_image_sha256 = or_empty config.stm32_golden_image_sha256;
        destructive_stm32_recovery_acceptance_pending =
            config.destructive_stm32_recovery_acceptance_once;
        firmware_version = or_empty config.firmware_version;
        hardware_name = or_empty config.hardware_name;
        telemetry_buffer_capacity = min 8 config.telemetry_buffer_capacity;
        clock =
            if config.configure_clock
            then some (config.primary_ntp_server, config.secondary_ntp_server)
            else d.clock;
        telemetry_topic = topic device_id (codes "/telemetry");
        state_topic = topic device_id (codes "/state");
        events_topic = topic device_id (codes "/events");
        definitions_topic = topic device_id (codes "/definitions");
        availability_topic = topic device_id (codes "/availability");
        commands_topic = topic device_id (codes "/commands/+");
        command_ack_topic_prefix = topic device_id (codes "/commands/");
        legacy_ack_topic_prefix = topic device_id (codes "/acks/");
        connection =
            configure client d.connection (or_empty config.host) config.port
              (or_empty config.client_id) (or_empty config.username) (or_empty config.password)
              (topic device_id (codes "/commands/+")) (topic device_id (codes "/availability"));
      }

  pub begin_mqtt : Device M → MqttConfig → Bool × Device M
  unfolding choose_transport valid_keys required_missing take_over
  begin_mqtt d config =
      if required_missing config
      then (false, d)
      else (let (chosen, connection) = choose_transport d.connection config in
          if not chosen
          then (false, d)
          else (let d' = record d { connection = connection } in
              if not (valid_keys [] (signing_keys config))
              then (false, d')
              else (true, take_over d' config)))
