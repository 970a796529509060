-- ===== src/Mqtt.antt =====
-- src/NivaloConnection.{h,cpp}: the MQTT connection, which is retried when the reconnect policy says
-- so. The MQTT client is a parameter.
pub mod Attempts
mod Tests
use nivalo_esp.Reconnect.{ReconnectPolicy, reset, is_attempt_due, on_failure, on_success}
use nivalo_esp.Common.{ℕ, Bool, true, false, not, ◌||◌, Option, if◌then◌else◌, u32, Text, is_empty}

-- The socket the client stands on: plain, or TLS with a certificate of the authority, where `none` is
-- the default one.
pub data Socket : Type 0 where
  plain : Socket
  secure : Option Text → Socket

-- `PubSubClient`; `connect` has the identifier, the user, the password, and the topic and payload of
-- the last will.
pub record MqttClient (M : Type 0) : Type 0 where
  pub connected : M → Bool
  pub loop : M → M
  pub set_client : M → Socket → M
  pub set_server : M → Text → ℕ → M
  pub connect : M → Text → Text → Text → Text → Text → Bool × M
  pub subscribe : M → Text → M
  pub publish : M → Text → Text → Bool → Bool × M

pub record MqttConnection (M : Type 0) : Type 0 where
  pub mqtt : M
  pub retry_policy : ReconnectPolicy
  pub host : Text
  pub port : ℕ
  pub client_id : Text
  pub username : Text
  pub password : Text
  pub commands_topic : Text
  pub availability_topic : Text
  pub last_will : Text
  pub just_connected : Bool

module _ {M : Type 0} (client : MqttClient M) where
  unfoldable pub use_tls : MqttConnection M → Option Text → MqttConnection M
  use_tls c ca = record c { mqtt = client.set_client c.mqtt (secure ca) }

  unfoldable pub use_plaintext : MqttConnection M → MqttConnection M
  use_plaintext c = record c { mqtt = client.set_client c.mqtt plain }

  unfoldable pub configure :
      MqttConnection M → Text → ℕ → Text → Text → Text → Text → Text → MqttConnection M
  configure c host port client_id username password commands_topic availability_topic = record c {
    host = host;
    port = port;
    client_id = client_id;
    username = username;
    password = password;
    commands_topic = commands_topic;
    availability_topic = availability_topic;
    mqtt = client.set_server c.mqtt host port;
    retry_policy = reset;
  }

  pub set_last_will : MqttConnection M → Text → MqttConnection M
  set_last_will c payload = record c { last_will = payload }

  -- What follows `connect`; `entropy` is what `esp_random` returns.
  pub connect_finished : MqttConnection M → Bool → M → ℕ → ℕ → MqttConnection M
  connect_finished c ok m now_ms entropy =
      if ok
      then record c {
        mqtt = client.subscribe m c.commands_topic;
        retry_policy = on_success c.retry_policy now_ms;
        just_connected = true;
      }
      else record c { mqtt = m; retry_policy = on_failure c.retry_policy now_ms entropy }

  pub service : MqttConnection M → ℕ → ℕ → MqttConnection M
  unfolding connect_finished
  service c now entropy =
      let now_ms = u32 now in
      if client.connected c.mqtt
      then record c { mqtt = client.loop c.mqtt }
      else (if is_empty c.last_will || not (is_attempt_due c.retry_policy now_ms)
          then c
          else (let (ok, m) =
                client.connect c.mqtt c.client_id c.username c.password c.availability_topic
                  c.last_will in
              connect_finished c ok m now_ms entropy))

  pub publish : MqttConnection M → Text → Text → Bool → Bool × MqttConnection M
  publish c topic payload retained =
      if client.connected c.mqtt
      then (let (ok, m) = client.publish c.mqtt topic payload retained in
          (ok, record c { mqtt = m }))
      else (false, c)

  pub take_just_connected : MqttConnection M → Bool × MqttConnection M
  take_just_connected c = (c.just_connected, record c { just_connected = false })
