-- ===== src/Telemetry/Flush.antt =====
-- Flushing sends the kept payloads in order until one fails.
use nivalo_esp.Telemetry.{Connection, TelemetryBuffer, drop_oldest, flush_loop, flush}
use nivalo_esp.Telemetry.Queue.{
  queue, ring, IsValid, queue-count, queue-drop_oldest, drop_oldest-IsValid, drop_oldest-count,
}
use nivalo_esp.Common.{
  ℕ, zero, suc, ◌+◌, ◌%◌, ◌≡◌, refl, sym, ap, subst, Bool, true, false, ◌&&◌, arith, List, [], ◌∷◌,
  get_or, ltb, if◌then◌else◌, Text,
}

module _ {M : Type 0} (connection : Connection M) where
  -- Sending a list of payloads, while the connection is up and takes them; with those left.
  abbrev pub send_all : List Text → M → List Text × M
  send_all [] m = ([], m)
  send_all (p ∷ q) m =
      let (ok, m') = connection.publish m p in
      let rest = send_all q m' in
      if connection.connected m then (if ok then rest else (p ∷ q, m')) else (p ∷ q, m)

  flush_loop-step :
      (n : ℕ) (b : TelemetryBuffer) (m : M)
      → b.count ≡ suc n
      → flush_loop connection (suc n) b m ≡ (
          let (ok, m') = connection.publish m (get_or b.entries b.head []) in
          if connection.connected m
          then (if ok then flush_loop connection n (drop_oldest b) m' else (b, m'))
          else (b, m))
  unfolding flush_loop
  flush_loop-step n b m e =
      let same : (connection.connected m && ltb 0 b.count) ≡ connection.connected m =
        ground arith in
      ap
        (λ up.
          let (ok, m') = connection.publish m (get_or b.entries b.head []) in
          if up
          then (if ok then flush_loop connection n (drop_oldest b) m' else (b, m'))
          else (b, m))
        same

  abbrev Flushed : TelemetryBuffer × M → List Text × M → Type 0
  Flushed r s = IsValid r.0 × ((queue r.0, r.1) ≡ s)

  branch :
      (up ok : Bool) (sent : TelemetryBuffer × M) (kept : TelemetryBuffer) (m m' : M)
      (sent' : List Text × M) (q : List Text)
      → Flushed sent sent'
      → IsValid kept
      → queue kept ≡ q
      → Flushed
          (if up then (if ok then sent else (kept, m')) else (kept, m))
          (if up then (if ok then sent' else (q, m')) else (q, m))
  branch true true sent kept m m' sent' q h v e = h
  branch true false sent kept m m' sent' q h v e = (v, ap (λ r. (r, m')) e)
  branch false ok sent kept m m' sent' q h v e = (v, ap (λ r. (r, m)) e)

  flush_loop-Flushed :
      (n : ℕ) (b : TelemetryBuffer) (m : M)
      → IsValid b
      → b.count ≡ n
      → Flushed (flush_loop connection n b m) (send_all (queue b) m)
  flush_loop-Flushed zero b m v e =
      let empty : queue b ≡ [] = ap (λ c. ring c b.head b.entries) e in
      subst (λ q. Flushed (flush_loop connection 0 b m) (send_all q m)) (sym empty)
        (unfold flush_loop in (v, ap (λ q. (q, m)) empty))
  flush_loop-Flushed (suc n) b m v e =
      let m' = (connection.publish m (get_or b.entries b.head [])).1 in
      let first = get_or b.entries b.head [] in
      let behind = ring n ((b.head + 1) % 8) b.entries in
      let (count, _) = drop_oldest-count b in
      let ih : Flushed (flush_loop connection n (drop_oldest b) m') (send_all behind m') =
        subst (λ q. Flushed (flush_loop connection n (drop_oldest b) m') (send_all q m'))
          (queue-drop_oldest b v n e)
          (flush_loop-Flushed n (drop_oldest b) m' (drop_oldest-IsValid b v (omega arith))
            (omega arith)) in
      subst (λ r. Flushed r (send_all (queue b) m)) (sym (flush_loop-step n b m e))
        (subst
          (λ s.
            Flushed
              (if connection.connected m
                then (if (connection.publish m first).0
                    then flush_loop connection n (drop_oldest b) m'
                    else (b, m'))
                else (b, m))
              s)
          (sym (ap (λ q. send_all q m) (queue-count b v n e)))
          (branch (connection.connected m) (connection.publish m first).0
            (flush_loop connection n (drop_oldest b) m') b m m' (send_all behind m')
            (first ∷ behind) ih v (queue-count b v n e)))

-- Flushing a valid buffer leaves it valid; it sends the payloads of the queue in order, each once,
-- until the connection is down or refuses one, and exactly those that were not sent stay.
pub flush-send_all :
    {M : Type 0} (connection : Connection M) (b : TelemetryBuffer) (m : M)
    → IsValid b
    → let (b', m') = flush connection b m in
      IsValid b' × ((queue b', m') ≡ send_all connection (queue b) m)
unfolding flush
flush-send_all connection b m v = flush_loop-Flushed connection b.count b m v refl
