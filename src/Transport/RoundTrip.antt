-- ===== src/Transport/RoundTrip.antt =====
-- A frame that one side builds is what the other side parses.
use nivalo_esp.Common.{
  ◌∙◌, ap, ◌-◌, suc, replicate, take, get_or, sym, subst, codes, ◌∷◌, or_empty, false, Text, Option,
  drop, take-length_append, ==_refl, le→ltb_false,
}
use nivalo_esp.Crc.{crc32, crc_start, finish_crc32}
use nivalo_esp.Crc.Detection.{IsBytes, crc32-lt, finish_crc32-lt}
use nivalo_esp.ReceiveSequence.{acknowledgment, observe}
use nivalo_esp.Transport.{
  build_frame, empty_frame, exchange, parse_frame, parse_frame_at, Transport, ReceivedFrame, Parsed,
  parse_bytes, frame_crc, accept_frame,
}
use nivalo_esp.Transport.Fields.{layout, header, read_le16-le16, read_le32-le32}
use nivalo_esp.Common.{
  ℕ, ◌+◌, ◌^◌, ◌≤◌, ◌<◌, ◌≡◌, refl, true, not, arith, zero, suc, List, [], ◌++◌, length,
}

-- The frame that the receiver should get, and the state it should be in.
abbrev pub delivered : Transport → ℕ → ℕ → ℕ → List ℕ → Parsed
delivered t type seq ack payload = (
  true,
  record {
    valid = true;
    duplicate = not (observe t.receive_sequence seq).0;
    type = type;
    seq = seq;
    ack = ack;
    payload_length = length payload;
    payload = payload;
  },
  record t { receive_sequence = (observe t.receive_sequence seq).1; last_error = [] },
)

module _ (type seq ack : ℕ) (payload zeros : List ℕ) where
  abbrev pub checksum : ℕ
  checksum = finish_crc32 (crc32 payload (crc32 (header type seq ack (length payload) 0) crc_start))

  abbrev pub framed : List ℕ
  framed = header type seq ack (length payload) checksum ++ payload ++ zeros

  frame_crc-framed : frame_crc framed (length payload) ≡ checksum
  unfolding frame_crc
  frame_crc-framed = rw (take-length_append payload zeros)

  module _ (hs : seq < 2 ^ 16) (ha : ack < 2 ^ 16) (hp : length payload ≤ 1000) (ht : type < 256)
      (bytes : IsBytes payload) where
    checksum-lt : checksum < 2 ^ 32
    checksum-lt = finish_crc32-lt _ (
        crc32-lt payload _ bytes
          (crc32-lt (header type seq ack (length payload) 0) crc_start (omega arith) (omega arith)))

    pub parse_bytes-framed :
        (t : Transport) (received : ReceivedFrame) (offset : ℕ)
        → offset + 24 + length payload ≤ 1024
        → parse_bytes t received framed offset ≡ delivered t type seq ack payload
    unfolding parse_bytes accept_frame
    parse_bytes-framed t received offset fits = rw (
      read_le16-le16 framed 10 (length payload) (omega arith) refl refl,
      read_le16-le16 framed 6 seq hs refl refl,
      read_le16-le16 framed 8 ack ha refl refl,
      read_le32-le32 framed 16 checksum checksum-lt refl refl refl refl,
      frame_crc-framed,
      take-length_append payload zeros,
      ==_refl checksum,
      le→ltb_false _ _ hp,
      le→ltb_false _ _ fits,
    )

parse_bytes-tx :
    (t : Transport) (received : ReceivedFrame) (frame : List ℕ) (offset : ℕ)
    → (parse_bytes t received frame offset).2.tx_frame ≡ t.tx_frame
unfolding parse_bytes accept_frame
parse_bytes-tx t received frame offset = ground arith

parse_frame_at-tx :
    (t : Transport) (received : ReceivedFrame) (offset : ℕ)
    → (parse_frame_at t received offset).2.tx_frame ≡ t.tx_frame
unfolding parse_frame_at
parse_frame_at-tx t received offset =
    ground (arith, parse_bytes-tx t received (drop offset t.rx_frame) offset)

parse_frame-tx :
    (t : Transport) (received : ReceivedFrame) → (parse_frame t received).2.tx_frame ≡ t.tx_frame
unfolding parse_frame
parse_frame-tx t received =
    let cleared = record received { valid = false; duplicate = false; payload = [] } in
    let (ok, received', t') = parse_frame_at t cleared 0 in
    ground (arith, parse_frame_at-tx t cleared 0, parse_frame_at-tx t' received' 1)

-- A started transport that is not paused sends the built frame.
exchange-sends :
    (t : Transport) (type : ℕ) (json_payload : Option Text) (wire : List ℕ)
    → t.started ≡ true
    → t.paused ≡ false
    → length (or_empty json_payload) ≤ 1000
    → let (ok, received, t') = exchange t type json_payload wire in
      (ok ≡ true) × (t'.tx_frame ≡ (build_frame t type json_payload).tx_frame)
unfolding exchange
exchange-sends t type json_payload wire s p h = ground (
  arith,
  le→ltb_false 1000 (length (or_empty json_payload)) h,
  parse_frame-tx (record (build_frame t type json_payload) { rx_frame = wire }) empty_frame,
)

module _ (t : Transport) (type seq ack : ℕ) (payload zeros : List ℕ) (hs : seq < 2 ^ 16)
    (ha : ack < 2 ^ 16) (ht : type < 256) (bytes : IsBytes payload) where
  parse_framed :
      length payload ≤ 1000
      → t.rx_frame ≡ framed type seq ack payload zeros
      → parse_frame t empty_frame ≡ delivered t type seq ack payload
  unfolding parse_frame parse_frame_at
  parse_framed hp e =
      let p : parse_bytes t empty_frame t.rx_frame 0 ≡ delivered t type seq ack payload =
        subst (λ f. parse_bytes t empty_frame f 0 ≡ delivered t type seq ack payload) (sym e)
          (parse_bytes-framed type seq ack payload zeros hs ha hp ht bytes t empty_frame 0
            (omega arith)) in
      simp p

  parse_bytes_zero :
      (received : ReceivedFrame) (rest : List ℕ)
      → parse_bytes t received (0 ∷ rest) 0
        ≡ (false, received, record t { last_error = codes "bad magic" })
  unfolding parse_bytes
  parse_bytes_zero received rest = refl

  -- The other side may be one byte late.
  parse_shifted :
      length payload ≤ 999
      → t.rx_frame ≡ 0 ∷ framed type seq ack payload zeros
      → parse_frame t empty_frame ≡ delivered t type seq ack payload
  unfolding parse_frame parse_frame_at
  parse_shifted hp e =
      let t' : Transport = record t { last_error = codes "bad magic" } in
      let p : parse_bytes t empty_frame t.rx_frame 0 ≡ (false, empty_frame, t') =
        subst (λ f. parse_bytes t empty_frame f 0 ≡ (false, empty_frame, t')) (sym e)
          (parse_bytes_zero empty_frame (framed type seq ack payload zeros)) in
      let q : parse_bytes t' empty_frame (drop 1 t.rx_frame) 1 ≡ delivered t type seq ack payload =
        subst (λ f. parse_bytes t' empty_frame (drop 1 f) 1 ≡ delivered t type seq ack payload)
          (sym e)
          (parse_bytes-framed type seq ack payload zeros hs ha (omega arith) ht bytes t' empty_frame
            1 (omega arith)) in
      let z : get_or t.rx_frame 0 0 ≡ 0 = subst (λ f. get_or f 0 0 ≡ 0) (sym e) refl in
      simp (p, q, z)

take-replicate : (n k : ℕ) → take n (replicate {A = ℕ} (n + k) 0) ≡ replicate n 0
take-replicate zero k = refl
take-replicate (suc n) k =
    let e : suc n + k ≡ suc (n + k) = omega arith in rw e (ap (◌∷◌ 0) (take-replicate n k))

take-append_replicate :
    (xs : List ℕ) (n k : ℕ) → take (length xs + n) (xs ++ replicate (n + k) 0) ≡ xs ++ replicate n 0
take-append_replicate [] n k = let e : 0 + n ≡ n = omega arith in rw e (take-replicate n k)
take-append_replicate (x ∷ xs) n k =
    let e : suc (length xs) + n ≡ suc (length xs + n) = omega arith in
    rw e (ap (◌∷◌ x) (take-append_replicate xs n k))

late :
    (type seq ack : ℕ) (payload : List ℕ)
    → length payload ≤ 999
    → take 1023 (framed type seq ack payload (replicate (1000 - length payload) 0))
      ≡ framed type seq ack payload (replicate (999 - length payload) 0)
late type seq ack payload h =
    let n : ℕ = 999 - length payload in
    let e : n + 1 ≡ 1000 - length payload = omega arith in
    let e' : length payload + n ≡ 999 = omega arith in
    let late_payload : take 999 (payload ++ replicate (1000 - length payload) 0)
        ≡ payload ++ replicate n 0 =
      subst (λ k. take 999 (payload ++ replicate k 0) ≡ payload ++ replicate n 0) e
        (subst (λ m. take m (payload ++ replicate (n + 1) 0) ≡ payload ++ replicate n 0) e'
          (take-append_replicate payload n 1)) in
    ap (λ p. header type seq ack (length payload) (checksum type seq ack payload payload) ++ p)
      late_payload

module _ (sender receiver : Transport) (type : ℕ) (json_payload : Option Text) (wire : List ℕ)
    (started : sender.started ≡ true) (running : sender.paused ≡ false) (byte : type < 256)
    (bytes : IsBytes (or_empty json_payload)) (seq : sender.next_seq < 2 ^ 16)
    (ack : acknowledgment sender.receive_sequence < 2 ^ 16) where
  -- Let a started transport that is not paused exchange a frame whose type, sequence number and
  -- acknowledgment fit their fields, with a payload of at most 1000 bytes. Then a transport that
  -- has received the frame sent accepts it, and the type, sequence number, acknowledgment and
  -- payload are those of the sender.
  pub exchange_delivers :
      length (or_empty json_payload) ≤ 1000
      → receiver.rx_frame ≡ (exchange sender type json_payload wire).2.tx_frame
      → parse_frame receiver empty_frame
        ≡ delivered receiver type sender.next_seq
            (acknowledgment sender.receive_sequence)
            (or_empty json_payload)
  unfolding build_frame
  exchange_delivers fits e =
      parse_framed receiver type _ _ _ (replicate (1000 - length (or_empty json_payload)) 0) seq ack
        byte bytes fits
        (e
          ∙ (exchange-sends sender type json_payload wire started running fits).1
          ∙ layout type _ _ _ fits)

  -- The same for a receiver that gets the frame one byte late, after a zero byte and without its
  -- last byte, if the payload has at most 999 bytes.
  exchange_delivers_late :
      length (or_empty json_payload) ≤ 999
      → receiver.rx_frame ≡ 0 ∷ take 1023 (exchange sender type json_payload wire).2.tx_frame
      → parse_frame receiver empty_frame
        ≡ delivered receiver type sender.next_seq
            (acknowledgment sender.receive_sequence)
            (or_empty json_payload)
  unfolding build_frame
  exchange_delivers_late fits e =
      parse_shifted receiver type _ _ _ (replicate (999 - length (or_empty json_payload)) 0) seq ack
        byte bytes fits
        (e
          ∙ ap (λ f. 0 ∷ take 1023 f)
              ((exchange-sends sender type json_payload wire started running (omega arith)).1
                ∙ layout type _ _ _ (omega arith))
          ∙ ap (◌∷◌ 0) (late type _ _ _ fits))
