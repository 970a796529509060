-- ===== src/Lifecycle/Keys.antt =====
-- What a device has after a configuration was accepted.
use nivalo_esp.Mqtt.{MqttClient}
use nivalo_esp.Lifecycle.{
  MqttConfig, Device, required_missing, signing_keys, valid_keys, choose_transport, take_over,
  begin_mqtt,
}
use nivalo_esp.Common.{◌≤◌, ◌≡◌, refl, sym, subst, Bool, true, false, arith, [], is_empty, or_empty}

module _ {M : Type 0} (client : MqttClient M) (d : Device M) (config : MqttConfig) where
  -- Where an accepted configuration comes from.
  record IsAccepted : Type 0 where
    complete : required_missing config ≡ false
    chosen : (choose_transport client d.connection config).0 ≡ true
    keys : valid_keys [] (signing_keys config) ≡ true

  accepted-IsAccepted : (begin_mqtt client d config).0 ≡ true → IsAccepted
  unfolding begin_mqtt
  accepted-IsAccepted h = record {
    complete = ground arith;
    chosen = ground arith;
    keys = ground arith;
  }

  begin-accepted :
      IsAccepted
      → begin_mqtt client d config ≡ (
        true,
        take_over client
            (record d { connection = (choose_transport client d.connection config).1 })
            config,
      )
  unfolding begin_mqtt
  begin-accepted a = ground (arith, a.complete, a.chosen, a.keys)

abbrev pub IsAcceptedDevice : {M : Type 0} → MqttConfig → Device M → Type 0
IsAcceptedDevice config d =
    (d.firmware_signing_keys ≡ signing_keys config)
    × ((valid_keys [] d.firmware_signing_keys ≡ true)
        × ((d.telemetry_buffer_capacity ≤ 8)
            × ((d.mqtt_host ≡ or_empty config.host)
                × ((is_empty d.mqtt_host ≡ false)
                    × ((d.mqtt_port ≡ config.port) × (1 ≤ d.mqtt_port))))))

taken_over-IsAcceptedDevice :
    {M : Type 0} (client : MqttClient M) (d : Device M) (config : MqttConfig)
    → required_missing config ≡ false
    → valid_keys [] (signing_keys config) ≡ true
    → IsAcceptedDevice config (take_over client d config)
unfolding take_over required_missing
taken_over-IsAcceptedDevice client d config complete keys =
    (refl, (keys, (omega arith, (refl, (ground arith, (refl, ground arith))))))

-- When a configuration is accepted, the device has its signing keys, which are valid, its telemetry
-- buffer has a capacity of at most eight, and host and port are those of the configuration and not
-- empty.
pub accepted_device :
    {M : Type 0} (client : MqttClient M) (d : Device M) (config : MqttConfig)
    → (begin_mqtt client d config).0 ≡ true
    → IsAcceptedDevice config (begin_mqtt client d config).1
accepted_device client d config h =
    let a = accepted-IsAccepted client d config h in
    subst (λ (r : Bool × Device _). IsAcceptedDevice config r.1)
      (sym (begin-accepted client d config a))
      (taken_over-IsAcceptedDevice client _ config a.complete a.keys)
