-- ===== src/Reports/Queue.antt =====
-- src/NivaloDeviceReports.cpp: the waiting reports as a queue.
use nivalo_esp.Reports.{
  Event, Slot, Reports, event, Publisher, stored_event, queue_loop, queue_event_report, queue,
  queue_all, drain_events, pending_report_count,
}
use nivalo_esp.Reports.Drain.{full, cleared, waiting, publish_events, drain_events-waiting}
use nivalo_esp.Common.{
  suc, ◌≡◌, refl, sym, ap, ◌∙◌, true, false, List, [], ◌∷◌, ◌++◌, map, length, take,
}

queue_loop-free :
    {R : Type 0} (rs : List R) (s : Slot R) (free : List (Slot R)) (r : R)
    → s.queued ≡ false
    → queue_loop (map full rs ++ (s ∷ free)) r ≡ (true, map full rs ++ (full r ∷ free))
unfolding queue_loop
queue_loop-free [] s free r h = rw h refl
queue_loop-free (x ∷ rs) s free r h = ap (λ p. (p.0, full x ∷ p.1)) (queue_loop-free rs s free r h)

queue_loop-full :
    {R : Type 0} (rs : List R) (r : R) → queue_loop (map full rs) r ≡ (false, map full rs)
unfolding queue_loop
queue_loop-full [] r = refl
queue_loop-full (x ∷ rs) r = ap (λ p. (p.0, full x ∷ p.1)) (queue_loop-full rs r)

module _ {Number W : Type 0} (publisher : Publisher Number W) where
  queue-event :
      (s : Reports Number W) (e : Event)
      → queue publisher s (event e) ≡ record s { events = (queue_loop s.events (stored_event e)).1 }
  unfolding queue queue_event_report
  queue-event s e = refl

  -- The slots of `rest`, all free before, once these events are queued in them.
  abbrev fill : List Event → List (Slot Event) → List (Slot Event)
  fill [] rest = map cleared rest
  fill (e ∷ es) [] = []
  fill (e ∷ es) (x ∷ rest) = full e ∷ fill es rest

  fill-nil : (es : List Event) → fill es [] ≡ []
  fill-nil [] = refl
  fill-nil (e ∷ es) = refl

  append_nil : {A : Type 0} (xs : List A) → xs ++ [] ≡ xs
  append_nil [] = refl
  append_nil (x ∷ xs) = ap (λ l. x ∷ l) (append_nil xs)

  full-append :
      (rs : List Event) (r : Event) (rest : List (Slot Event))
      → map full rs ++ (full r ∷ rest) ≡ map full (rs ++ (r ∷ [])) ++ rest
  full-append [] r rest = refl
  full-append (x ∷ rs) r rest = ap (λ l. full x ∷ l) (full-append rs r rest)

  queue-free :
      (rs : List Event) (x : Slot Event) (rest : List (Slot Event)) (s : Reports Number W)
      (e : Event)
      → queue publisher (record s { events = map full rs ++ map cleared (x ∷ rest) }) (event e)
        ≡ record s { events = map full (rs ++ (stored_event e ∷ [])) ++ map cleared rest }
  queue-free rs x rest s e =
      queue-event (record s { events = map full rs ++ map cleared (x ∷ rest) }) e
      ∙ ap (λ l. record s { events = l })
          (ap (λ p. p.1) (queue_loop-free rs (cleared x) (map cleared rest) (stored_event e) refl)
            ∙ full-append rs (stored_event e) (map cleared rest))

  queue-none :
      (rs : List Event) (s : Reports Number W) (e : Event)
      → queue publisher (record s { events = map full rs ++ [] }) (event e)
        ≡ record s { events = map full rs ++ [] }
  queue-none rs s e =
      queue-event (record s { events = map full rs ++ [] }) e
      ∙ ap (λ l. record s { events = l })
          (ap (λ l. (queue_loop l (stored_event e)).1) (append_nil (map full rs))
            ∙ ap (λ p. p.1) (queue_loop-full rs (stored_event e))
            ∙ sym (append_nil (map full rs)))

  queue_all-events :
      (es rs : List Event) (rest : List (Slot Event)) (s : Reports Number W)
      → queue_all publisher (record s { events = map full rs ++ map cleared rest }) (map event es)
        ≡ record s { events = map full rs ++ fill (map stored_event es) rest }
  unfolding queue_all
  queue_all-events [] rs rest s = refl
  queue_all-events (e ∷ es) rs [] s =
      ap (λ t. queue_all publisher t (map event es)) (queue-none rs s e)
      ∙ queue_all-events es rs [] s
      ∙ ap (λ l. record s { events = map full rs ++ l }) (fill-nil (map stored_event es))
  queue_all-events (e ∷ es) rs (x ∷ rest) s =
      ap (λ t. queue_all publisher t (map event es)) (queue-free rs x rest s e)
      ∙ queue_all-events es (rs ++ (stored_event e ∷ [])) rest s
      ∙ ap (λ l. record s { events = l })
          (sym (full-append rs (stored_event e) (fill (map stored_event es) rest)))

  length-fill : (es : List Event) (rest : List (Slot Event)) → length (fill es rest) ≡ length rest
  length-fill [] [] = refl
  length-fill [] (x ∷ rest) = ap suc (length-fill [] rest)
  length-fill (e ∷ es) [] = refl
  length-fill (e ∷ es) (x ∷ rest) = ap suc (length-fill es rest)

  waiting-cleared : (slots : List (Slot Event)) → waiting (map cleared slots) ≡ []
  waiting-cleared [] = refl
  waiting-cleared (x ∷ slots) = waiting-cleared slots

  waiting-fill :
      (es : List Event) (rest : List (Slot Event)) → waiting (fill es rest) ≡ take (length rest) es
  waiting-fill [] [] = refl
  waiting-fill [] (x ∷ rest) = waiting-cleared rest
  waiting-fill (e ∷ es) [] = refl
  waiting-fill (e ∷ es) (x ∷ rest) = ap (λ l. e ∷ l) (waiting-fill es rest)

  -- On eight slots for events that are all free, the events that are queued are published by the next
  -- drain of them in the order in which they were queued, cut to the sizes of their buffers and without
  -- those after the eighth, and nothing waits any more.
  pub drained_in_order :
      (slots : List (Slot Event)) (es : List Event) (s : Reports Number W)
      → length slots ≡ pending_report_count
      → let queued = queue_all publisher (record s { events = map cleared slots }) (map event es) in
        let drained = drain_events publisher pending_report_count 0 queued in
        (drained.world
          ≡ publish_events publisher s.world (take pending_report_count (map stored_event es)))
        × (waiting drained.events ≡ [])
  drained_in_order slots es s h =
      let filled = fill (map stored_event es) slots in
      let result = record s {
        events = map cleared filled;
        world = publish_events publisher s.world (waiting filled);
      } in
      let queued = record s { events = filled } in
      let drained : drain_events publisher pending_report_count 0
            (queue_all publisher (record s { events = map cleared slots }) (map event es))
          ≡ result =
        ap (drain_events publisher pending_report_count 0) (queue_all-events es [] slots s)
        ∙ ap (λ n. drain_events publisher n 0 queued)
            (sym (length-fill (map stored_event es) slots ∙ h))
        ∙ drain_events-waiting publisher filled [] s in
      (
        ap (λ r. r.world) drained
            ∙ ap (publish_events publisher s.world) (
                waiting-fill (map stored_event es) slots
                ∙ ap (λ n. take n (map stored_event es)) h),
        ap (λ r. waiting r.events) drained ∙ waiting-cleared filled,
      )
