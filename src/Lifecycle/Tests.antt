-- ===== src/Lifecycle/Tests.antt =====
-- The theorems at concrete inputs.
use nivalo_esp.Mqtt.{secure, Socket}
use nivalo_esp.Lifecycle.{signing_keys, MqttConfig, required_missing, valid_keys, begin_mqtt}
use nivalo_esp.Lifecycle.Example.{client, connection, device, signing_key, two_keys, local_config}
use nivalo_esp.Lifecycle.Keys.{IsAcceptedDevice, accepted_device}
use nivalo_esp.Lifecycle.Plaintext.{IsAllowed, on_socket, accepted_socket, rejected_socket}
use nivalo_esp.Broker.{ends_with, is_production_mqtt_host, is_local_broker_host}
use nivalo_esp.Common.{◌≡◌, ◌⊎◌, refl, true, false, [], ◌∷◌, none, codes, text_eq, or_empty}

accepts : (begin_mqtt client device (local_config two_keys)).0 ≡ true
unfolding begin_mqtt is_production_mqtt_host is_local_broker_host text_eq ends_with
accepts = refl

accepted_device_example :
    IsAcceptedDevice (local_config two_keys) (begin_mqtt client device (local_config two_keys)).1
accepted_device_example = accepted_device client device (local_config two_keys) accepts

accepted_socket_example :
    (socket : Socket) × (((begin_mqtt client device (local_config two_keys)).1.connection.mqtt
        ≡ client.set_server (client.set_client (secure none) socket) (codes "broker.lan") 1883)
      × IsAllowed socket (codes "broker.lan"))
accepted_socket_example = accepted_socket client device (local_config two_keys) accepts

-- The second key has the identifier of the first.
abbrev repeated_key : MqttConfig
repeated_key = local_config (signing_key (codes "k1") ∷ signing_key (codes "k1") ∷ [])

rejects : (begin_mqtt client device repeated_key).0 ≡ false
unfolding begin_mqtt is_production_mqtt_host is_local_broker_host text_eq ends_with
rejects = refl

rejected_socket_example :
    ((begin_mqtt client device repeated_key).1 ≡ device)
    ⊎ ((socket : Socket) × (((begin_mqtt client device repeated_key).1
            ≡ record device { connection = on_socket client connection socket })
          × (IsAllowed socket (or_empty repeated_key.host)
              × ((required_missing repeated_key ≡ false)
                  × (valid_keys [] (signing_keys repeated_key) ≡ false)))))
rejected_socket_example = rejected_socket client device repeated_key rejects
