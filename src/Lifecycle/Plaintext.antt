-- ===== src/Lifecycle/Plaintext.antt =====
-- The socket that a configuration leads to.
use nivalo_esp.Broker.{is_production_mqtt_host, is_local_broker_host}
use nivalo_esp.Mqtt.{
  MqttClient, MqttConnection, Socket, plain, secure, use_tls, use_plaintext, configure,
}
use nivalo_esp.Lifecycle.{
  missing, MqttConfig, Device, MqttTransport, tls, plaintext_local, other, required_missing,
  signing_keys, valid_keys, choose_transport, take_over, begin_mqtt,
}
use nivalo_esp.Common.{
  ◌≡◌, ◌⊎◌, inl, inr, refl, ap, ◌∙◌, Bool, true, false, not, ◌&&◌, ◌||◌, arith, [], Option,
  if◌then◌else◌, is_some, Bool-cases, Text, or_empty,
}

-- The socket is secure, or the host is local and not the production broker.
abbrev pub IsAllowed : Socket → Text → Type 0
IsAllowed socket host =
    ((ca : Option Text) × (socket ≡ secure ca))
    ⊎ ((is_production_mqtt_host host ≡ false) × (is_local_broker_host host ≡ true))

Transport-cases : (t : MqttTransport) → (t ≡ tls) ⊎ ((t ≡ plaintext_local) ⊎ (t ≡ other))
Transport-cases tls = inl refl
Transport-cases plaintext_local = inr (inl refl)
Transport-cases other = inr (inr refl)

module _ {M : Type 0} (client : MqttClient M) where
  abbrev pub on_socket : MqttConnection M → Socket → MqttConnection M
  on_socket c socket = record c { mqtt = client.set_client c.mqtt socket }

  choose-tls :
      (c : MqttConnection M) (config : MqttConfig)
      → config.transport ≡ tls
      → choose_transport client c config ≡ (
          if is_some config.ca_certificate && missing config.ca_certificate
          then (false, c)
          else (true, on_socket c (secure config.ca_certificate)))
  unfolding choose_transport use_tls
  choose-tls c config e = ground (arith, e)

  pub choose-plaintext :
      (c : MqttConnection M) (config : MqttConfig)
      → config.transport ≡ plaintext_local
      → choose_transport client c config ≡ (
          if is_production_mqtt_host (or_empty config.host)
            || not (is_local_broker_host (or_empty config.host))
          then (false, c)
          else (true, on_socket c plain))
  unfolding choose_transport use_plaintext
  choose-plaintext c config e = ground (arith, e)

  choose-other :
      (c : MqttConnection M) (config : MqttConfig)
      → config.transport ≡ other
      → choose_transport client c config ≡ (false, c)
  unfolding choose_transport
  choose-other c config e = ground (arith, e)

  choose-cases :
      (c : MqttConnection M) (config : MqttConfig)
      → (choose_transport client c config ≡ (false, c))
        ⊎ ((socket : Socket) × ((choose_transport client c config ≡ (true, on_socket c socket))
              × IsAllowed socket (or_empty config.host)))
  choose-cases c config = elim (Transport-cases config.transport) [
    | inl e ↦ elim (Bool-cases (is_some config.ca_certificate && missing config.ca_certificate)) [
      | inl bad ↦ inl (
          choose-tls c config e
          ∙ ap (λ b. if b then (false, c) else (true, on_socket c (secure config.ca_certificate)))
              bad)
      | inr good ↦ inr (
        secure config.ca_certificate,
        (
          choose-tls c config e
              ∙ ap
                  (λ b.
                    if b then (false, c) else (true, on_socket c (secure config.ca_certificate)))
                  good,
          inl (config.ca_certificate, refl),
        ),
      )
    ]
    | inr (inl e) ↦
        elim (Bool-cases (
          is_production_mqtt_host (or_empty config.host)
          || not (is_local_broker_host (or_empty config.host)))) [
            | inl bad ↦ inl (
                choose-plaintext c config e
                ∙ ap (λ b. if b then (false, c) else (true, on_socket c plain)) bad)
            | inr good ↦ inr (
              plain,
              (
                choose-plaintext c config e
                    ∙ ap (λ b. if b then (false, c) else (true, on_socket c plain)) good,
                inr (ground arith),
              ),
            )
          ]
    | inr (inr e) ↦ inl (choose-other c config e)
  ]

  begin-chosen :
      (d : Device M) (config : MqttConfig) (chosen : Bool) (c : MqttConnection M)
      → choose_transport client d.connection config ≡ (chosen, c)
      → begin_mqtt client d config ≡ (
          if required_missing config
          then (false, d)
          else (if not chosen
              then (false, d)
              else (if not (valid_keys [] (signing_keys config))
                  then (false, record d { connection = c })
                  else (true, take_over client (record d { connection = c }) config))))
  unfolding begin_mqtt
  begin-chosen d config chosen c e = rw e refl

  taken_over-mqtt :
      (d : Device M) (c : MqttConnection M) (config : MqttConfig)
      → (take_over client (record d { connection = c }) config).connection.mqtt
        ≡ client.set_server c.mqtt (or_empty config.host) config.port
  unfolding take_over configure
  taken_over-mqtt d c config = refl

  -- When a configuration is accepted, the client is set to a socket and to the host and port of the
  -- configuration, and the socket is secure unless the host counts as local and is not the production
  -- broker.
  pub accepted_socket :
      (d : Device M) (config : MqttConfig)
      → (begin_mqtt client d config).0 ≡ true
      → (socket : Socket) × (((begin_mqtt client d config).1.connection.mqtt
            ≡ client.set_server
                (client.set_client d.connection.mqtt socket)
                (or_empty config.host)
                config.port)
          × IsAllowed socket (or_empty config.host))
  accepted_socket d config h = elim (choose-cases d.connection config) [
    | inl e ↦ absurd (ground (arith, begin-chosen d config false d.connection e))
    | inr (socket, (e, allowed)) ↦ (
      socket,
      (
        ground (
          arith,
          begin-chosen d config true (on_socket d.connection socket) e,
          taken_over-mqtt d (on_socket d.connection socket) config,
        ),
        allowed,
      ),
    )
  ]

  -- A configuration is rejected with the device as it was, or with nothing changed but the socket that
  -- its client is set to, although host and port are those from before; then no required value is missing,
  -- the signing keys are not valid, and the socket is one that is allowed for the new host.
  pub rejected_socket :
      (d : Device M) (config : MqttConfig)
      → (begin_mqtt client d config).0 ≡ false
      → ((begin_mqtt client d config).1 ≡ d)
        ⊎ ((socket : Socket) × (((begin_mqtt client d config).1
                ≡ record d { connection = on_socket d.connection socket })
              × (IsAllowed socket (or_empty config.host)
                  × ((required_missing config ≡ false)
                      × (valid_keys [] (signing_keys config) ≡ false)))))
  rejected_socket d config h = elim (choose-cases d.connection config) [
    | inl e ↦ inl (ground (arith, begin-chosen d config false d.connection e))
    | inr (socket, (e, allowed)) ↦ elim (Bool-cases (required_missing config)) [
      | inl absent ↦
          inl (ground (arith, begin-chosen d config true (on_socket d.connection socket) e))
      | inr present ↦
          let result = begin-chosen d config true (on_socket d.connection socket) e in
          let invalid : valid_keys [] (signing_keys config) ≡ false = ground (arith, result) in
          inr (socket, (ground (arith, result), (allowed, (present, invalid))))
    ]
  ]
