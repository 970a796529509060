-- ===== src/Mqtt/Attempts.antt =====
-- When the connection is tried again.
use nivalo_esp.Mqtt.{MqttClient, MqttConnection, connect_finished, service}
use nivalo_esp.Reconnect.{is_attempt_due, on_failure}
use nivalo_esp.Reconnect.Backoff.{on_failure-IsValid, IsValid, wait_ms, wait_after_failure}
use nivalo_esp.Common.{
  ℕ, ◌+◌, ◌^◌, ◌<◌, ◌≡◌, refl, sym, ap, subst, ◌∙◌, true, false, arith, leb, if◌then◌else◌, u32,
  is_empty,
}

module _ {M : Type 0} (client : MqttClient M) where
  -- One attempt to connect.
  abbrev pub attempt : MqttConnection M → ℕ → ℕ → MqttConnection M
  attempt c now entropy =
      let (ok, m) =
        client.connect c.mqtt c.client_id c.username c.password c.availability_topic c.last_will in
      connect_finished client c ok m (u32 now) entropy

  -- What is asked of the connection for an attempt to be made when the policy says so.
  pub record IsWaiting (c : MqttConnection M) : Type 0 where
    pub valid : IsValid c.retry_policy
    pub down : client.connected c.mqtt ≡ false
    pub will : is_empty c.last_will ≡ false

  service-waiting :
      (c : MqttConnection M) (now entropy : ℕ)
      → IsWaiting c
      → service client c now entropy
        ≡ (if is_attempt_due c.retry_policy (u32 now) then attempt c now entropy else c)
  unfolding service connect_finished
  service-waiting c now entropy w = rw (w.down, w.will) (ground arith)

  attempt-failed :
      (c : MqttConnection M) (now entropy : ℕ) (m : M)
      → client.connect c.mqtt c.client_id c.username c.password c.availability_topic c.last_will
        ≡ (false, m)
      → attempt c now entropy
        ≡ record c { mqtt = m; retry_policy = on_failure c.retry_policy (u32 now) entropy }
  unfolding connect_finished
  attempt-failed c now entropy m e = rw e refl

  -- For a connection that is down, has a last will and whose backoff is within its limits: when an
  -- attempt is due at `now` and fails, then at any time less than 2^31 ms later, also past the wrap of
  -- the clock, the connection is tried again exactly if the wait that the failure led to is over, and
  -- is left as it is before.
  pub service_waits :
      (c : MqttConnection M) (now entropy : ℕ) (m : M) (elapsed entropy' : ℕ)
      → IsWaiting c
      → now < 2 ^ 32
      → elapsed < 2 ^ 31
      → is_attempt_due c.retry_policy now ≡ true
      → client.connect c.mqtt c.client_id c.username c.password c.availability_topic c.last_will
        ≡ (false, m)
      → client.connected m ≡ false
      → let c' = service client c now entropy in
        service client c' (now + elapsed) entropy' ≡ (
          if leb (wait_ms c.retry_policy entropy) elapsed
          then attempt c' (now + elapsed) entropy'
          else c')
  service_waits c now entropy m elapsed entropy' w h k due fails down =
      let p = c.retry_policy in
      let failed = record c { mqtt = m; retry_policy = on_failure p (u32 now) entropy } in
      let same : u32 now ≡ now = omega arith in
      let due_now : is_attempt_due p (u32 now) ≡ true = ap (is_attempt_due p) same ∙ due in
      let first : service client c now entropy ≡ failed =
        service-waiting c now entropy w
        ∙ ap (λ b. if b then attempt c now entropy else c) due_now
        ∙ attempt-failed c now entropy m fails in
      let w' : IsWaiting failed = record {
        valid = on_failure-IsValid (u32 now) entropy w.valid;
        down = down;
        will = w.will;
      } in
      let next : is_attempt_due (on_failure p (u32 now) entropy) (u32 (now + elapsed))
          ≡ leb (wait_ms p entropy) elapsed =
        ap (λ n. is_attempt_due (on_failure p n entropy) (u32 (now + elapsed))) same
        ∙ (wait_after_failure p now entropy elapsed w.valid h k).2 in
      subst
        (λ r.
          service client r (now + elapsed) entropy'
          ≡ (if leb (wait_ms p entropy) elapsed then attempt r (now + elapsed) entropy' else r))
        (sym first)
        (service-waiting failed (now + elapsed) entropy' w'
          ∙ ap (λ b. if b then attempt failed (now + elapsed) entropy' else failed) next)
