-- ===== src/Command/Forward.antt =====
-- src/NivaloDeviceCommand.cpp: a command that is forwarded to the secondary MCU.
use nivalo_esp.Transport.{ReceivedFrame, Transport, max_payload, exchange}
use nivalo_esp.Reports.{
  CommandAck, Slot, Publisher, stored_ack, queue_loop, queue_command_ack_report, queue_event_report,
}
use nivalo_esp.Reports.Drain.{full}
use nivalo_esp.Link.Frames.{FrameWorld}
use nivalo_esp.Command.{
  frame_command, CommandDocument, CommandWorld, Device, requested_by_of, report_event, report_ack,
  forwarded_command,
}
use nivalo_esp.Command.Callback.{command_sent, send_command, forward_command}
use nivalo_esp.Common.{
  ℕ, ◌≡◌, ◌⊎◌, inl, inr, refl, sym, ap, subst, ◌∙◌, Bool, true, false, not, ◌||◌, arith, List, [],
  ◌∷◌, ◌++◌, Option, some, length, all, ltb, Bool-cases, Text, codes, is_empty, or_empty, if_cases,
}

exchange-refused :
    (t : Transport) (type : ℕ) (payload : Option Text) (wire : List ℕ)
    → (exchange t type payload wire).0 ≡ false
    → (exchange t type payload wire).2.tx_frame ≡ t.tx_frame
unfolding exchange
exchange-refused t type payload wire =
    if_cases (λ (e : Bool × ReceivedFrame × Transport). e.0 ≡ false → e.2.tx_frame ≡ t.tx_frame)
      (not t.started) _ _ (λ _. λ _. refl)
      (λ _.
        if_cases (λ (e : Bool × ReceivedFrame × Transport). e.0 ≡ false → e.2.tx_frame ≡ t.tx_frame)
          t.paused _ _ (λ _. λ _. refl)
          (λ _.
            if_cases
              (λ (e : Bool × ReceivedFrame × Transport). e.0 ≡ false → e.2.tx_frame ≡ t.tx_frame)
              (ltb max_payload (length (or_empty payload))) _ _ (λ _. λ _. refl)
              (λ _. λ sent. absurd (ground arith))))

-- The first slot that is free has taken the report, and nothing else has changed.
abbrev pub IsAdded : {R : Type 0} → List (Slot R) → R → List (Slot R) → Type 0
IsAdded {R} slots r slots' =
    (front : List (Slot R)) × ((old : R) × ((back : List (Slot R)) × ((all
              (λ (s : Slot R). s.queued) front
            ≡ true)
          × ((slots ≡ front ++ record { queued = false; report = old } ∷ back)
              × (slots' ≡ front ++ full r ∷ back)))))

queue_loop-taken :
    {R : Type 0} (s : Slot R) (slots : List (Slot R)) (r : R)
    → s.queued ≡ true
    → (queue_loop (s ∷ slots) r).1 ≡ s ∷ (queue_loop slots r).1
unfolding queue_loop
queue_loop-taken {R} s slots r waits =
    if_cases (λ (e : Bool × List (Slot R)). e.1 ≡ s ∷ (queue_loop slots r).1) (not s.queued) _ _
      (λ empty. absurd (ground arith)) (λ _. refl)

queue_loop-IsAdded :
    {R : Type 0} (slots : List (Slot R)) (r : R)
    → all (λ (s : Slot R). s.queued) slots ≡ false
    → IsAdded slots r (queue_loop slots r).1
unfolding queue_loop
queue_loop-IsAdded [] r taken = absurd (ground arith)
queue_loop-IsAdded {R} (s ∷ slots) r taken = elim (Bool-cases s.queued) [
  | inr empty ↦
      let same : s ∷ slots ≡ record { queued = false; report = s.report } ∷ slots =
        ap (λ (b : Bool). record { queued = b; report = s.report } ∷ slots) empty in
      ([], (s.report, (slots, (refl, (same, rw empty refl)))))
  | inl waits ↦
      let (front, (old, (back, (first, (before, after))))) =
        queue_loop-IsAdded slots r (ground arith) in
      (
        s ∷ front,
        (
          old,
          (
            back,
            (
              ground (arith, first),
              (ap (λ l. s ∷ l) before, queue_loop-taken s slots r waits ∙ ap (λ l. s ∷ l) after),
            ),
          ),
        ),
      )
]

module _ {Number W : Type 0} (publisher : Publisher Number W) (world : CommandWorld Number W) where
  abbrev pub result : Text → Text → Text → CommandAck Number
  result command_id status message = stored_ack (record {
    command_id = command_id;
    status = status;
    message = message;
    progress = world.no_progress;
  })

  -- The results that wait after one more is queued.
  abbrev pub queued_ack : Device Number W → Text → Text → Text → List (Slot (CommandAck Number))
  queued_ack d command_id status message =
      (queue_loop d.reports.acks (result command_id status message)).1

  report-acks :
      (d : Device Number W) (name data_text severity command_id status message : Text)
      → is_empty command_id ≡ false
      → (report_ack publisher world
          (report_event publisher world d name data_text severity)
          command_id
          status
          message).reports.acks
        ≡ queued_ack d command_id status message
  unfolding report_ack report_event queue_command_ack_report queue_event_report
  report-acks d name data_text severity command_id status message named = rw named refl

  report-transport :
      (d : Device Number W) (name data_text severity command_id status message : Text)
      → (report_ack publisher world
          (report_event publisher world d name data_text severity)
          command_id
          status
          message).transport
        ≡ d.transport
  unfolding report_ack report_event
  report-transport d name data_text severity command_id status message =
      if_cases (λ (e : Device Number W). e.transport ≡ d.transport) (is_empty command_id) _ _
        (λ _. refl) (λ _. refl)

  module _ (frames : FrameWorld Number W) where
    command_sent-acks :
        (d : Device Number W) (command_id forwarded : Text) (frame : ReceivedFrame)
        → is_empty command_id ≡ false
        → (command_sent publisher world frames d command_id forwarded frame).reports.acks
          ≡ queued_ack d command_id
              (codes "running")
              (codes "Forwarded to secondary MCU over NivaloLink")
    unfolding command_sent
    command_sent-acks d command_id forwarded frame named =
        if_cases
          (λ (e : Device Number W).
            e.reports.acks
            ≡ queued_ack d command_id (codes "running")
                (codes "Forwarded to secondary MCU over NivaloLink"))
          frame.valid _ _ (λ _. report-acks _ _ _ _ command_id _ _ named)
          (λ _. report-acks _ _ _ _ command_id _ _ named)

    command_sent-transport :
        (d : Device Number W) (command_id forwarded : Text) (frame : ReceivedFrame)
        → (command_sent publisher world frames d command_id forwarded frame).transport ≡ d.transport
    unfolding command_sent
    command_sent-transport d command_id forwarded frame =
        if_cases (λ (e : Device Number W). e.transport ≡ d.transport) frame.valid _ _
          (λ _. report-transport _ _ _ _ command_id _ _)
          (λ _. report-transport _ _ _ _ command_id _ _)

    -- What is forwarded, and its exchange.
    abbrev pub sent_command :
        Device Number W → Text → Text → CommandDocument → Bool × ReceivedFrame × Transport
    sent_command d command_id name doc =
        exchange d.transport frame_command
          (some (forwarded_command publisher world command_id name doc))
          (world.wire d.reports.world)

    abbrev pub does_not_fit : Text → Text → CommandDocument → Bool
    does_not_fit command_id name doc =
        (world.command_json command_id name (requested_by_of doc)).1
        || ltb max_payload (length (forwarded_command publisher world command_id name doc))

    send_command-transport :
        (d : Device Number W) (command_id forwarded : Text)
        → (send_command publisher world frames d command_id forwarded).transport
          ≡ (exchange d.transport frame_command (some forwarded) (world.wire d.reports.world)).2
    unfolding send_command
    send_command-transport d command_id forwarded =
        if_cases
          (λ (e : Device Number W).
            e.transport
            ≡ (exchange d.transport frame_command (some forwarded) (world.wire d.reports.world)).2)
          (exchange d.transport frame_command (some forwarded) (world.wire d.reports.world)).0 _ _
          (λ _. command_sent-transport _ command_id forwarded _)
          (λ _. report-transport _ _ _ _ command_id _ _)

    pub forward_command-transport :
        (d : Device Number W) (command_id name : Text) (doc : CommandDocument)
        → does_not_fit command_id name doc ≡ false
        → (forward_command publisher world frames d command_id name doc).transport
          ≡ (sent_command d command_id name doc).2
    unfolding forward_command
    forward_command-transport d command_id name doc fits = rw fits (
        send_command-transport d command_id (forwarded_command publisher world command_id name doc))

    -- One more result waits: that the command is running, and a frame was sent, or that it failed, and none was.
    abbrev IsQueued : Device Number W → Device Number W → Text → Text → CommandDocument → Type 0
    IsQueued d d' command_id name doc =
        ((message : Text) × (d'.reports.acks ≡ queued_ack d command_id (codes "failed") message)
          × (d'.transport.tx_frame ≡ d.transport.tx_frame))
        ⊎ ((d'.reports.acks
              ≡ queued_ack d command_id (codes "running")
                  (codes "Forwarded to secondary MCU over NivaloLink"))
            × ((sent_command d command_id name doc).0 ≡ true)
            × (d'.transport ≡ (sent_command d command_id name doc).2))

    send_command-IsQueued :
        (d : Device Number W) (command_id name : Text) (doc : CommandDocument)
        → is_empty command_id ≡ false
        → IsQueued d
            (send_command publisher world frames d command_id
              (forwarded_command publisher world command_id name doc))
            command_id
            name
            doc
    unfolding send_command
    send_command-IsQueued d command_id name doc named =
        if_cases (λ (e : Device Number W). IsQueued d e command_id name doc)
          (sent_command d command_id name doc).0 _ _
          (λ sent. inr (
            command_sent-acks _ command_id _ _ named,
            sent,
            command_sent-transport _ command_id _ _,
          ))
          (λ refused. inl (
            (sent_command d command_id name doc).2.last_error,
            report-acks _ _ _ _ command_id _ _ named,
            ap (λ (t : Transport). t.tx_frame) (report-transport _ _ _ _ command_id _ _)
                ∙ exchange-refused d.transport frame_command _ _ refused,
          ))

    forward_command-IsQueued :
        (d : Device Number W) (command_id name : Text) (doc : CommandDocument)
        → is_empty command_id ≡ false
        → IsQueued d
            (forward_command publisher world frames d command_id name doc)
            command_id
            name
            doc
    unfolding forward_command
    forward_command-IsQueued d command_id name doc named =
        if_cases (λ (e : Device Number W). IsQueued d e command_id name doc)
          (does_not_fit command_id name doc) _ _
          (λ _. inl (
            codes "Command JSON exceeds bridge capacity",
            report-acks _ _ _ _ command_id _ _ named,
            ap (λ (t : Transport). t.tx_frame) (report-transport _ _ _ _ command_id _ _),
          ))
          (λ _. send_command-IsQueued d command_id name doc named)

    -- One more result waits, in the first slot that is free: that the command is running, if a frame with it was
    -- sent, or that it failed, and then none was.
    abbrev pub IsAnswered :
        Device Number W → Device Number W → Text → Text → CommandDocument → Type 0
    IsAnswered d d' command_id name doc =
        ((message : Text) × (IsAdded d.reports.acks (result command_id (codes "failed") message)
              d'.reports.acks
            × (d'.transport.tx_frame ≡ d.transport.tx_frame)))
        ⊎ (IsAdded d.reports.acks
              (result command_id (codes "running")
                (codes "Forwarded to secondary MCU over NivaloLink"))
              d'.reports.acks
            × (((sent_command d command_id name doc).0 ≡ true)
                × (d'.transport ≡ (sent_command d command_id name doc).2)))

    pub forward_command-IsAnswered :
        (d : Device Number W) (command_id name : Text) (doc : CommandDocument)
        → is_empty command_id ≡ false
        → all (λ (s : Slot (CommandAck Number)). s.queued) d.reports.acks ≡ false
        → IsAnswered d
            (forward_command publisher world frames d command_id name doc)
            command_id
            name
            doc
    forward_command-IsAnswered d command_id name doc named free =
        let d' = forward_command publisher world frames d command_id name doc in
        let Added : CommandAck Number → List (Slot (CommandAck Number)) → Type 0 =
          IsAdded d.reports.acks in
        elim (forward_command-IsQueued d command_id name doc named) [
          | inl (message, queued, same) ↦
              let r = result command_id (codes "failed") message in
              inl (
                message,
                (subst (Added r) (sym queued) (queue_loop-IsAdded d.reports.acks r free), same),
              )
          | inr (queued, sent, transport) ↦
              let r =
                result command_id (codes "running")
                  (codes "Forwarded to secondary MCU over NivaloLink") in
              inr (
                subst (Added r) (sym queued) (queue_loop-IsAdded d.reports.acks r free),
                (sent, transport),
              )
        ]
