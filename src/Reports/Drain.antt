-- ===== src/Reports/Drain.antt =====
-- src/NivaloDeviceReports.cpp: what draining the slots of the events publishes.
use nivalo_esp.Reports.{Event, Slot, Reports, Publisher, drain_event, drain_events}
use nivalo_esp.Common.{
  ◌+◌, ◌≡◌, refl, sym, ap, ap₂, ◌∙◌, Bool, true, false, arith, List, [], ◌∷◌, ◌++◌, map, some,
  length, get_elem?, set, if◌then◌else◌,
}

abbrev pub full : {R : Type 0} → R → Slot R
full r = record { queued = true; report = r }

abbrev pub cleared : {R : Type 0} → Slot R → Slot R
cleared s = record s { queued = false }

-- The reports that wait, in the order of the slots.
abbrev pub waiting : {R : Type 0} → List (Slot R) → List R
waiting [] = []
waiting (s ∷ slots) = if s.queued then s.report ∷ waiting slots else waiting slots

module _ {Number W : Type 0} (publisher : Publisher Number W) where
  abbrev pub publish_events : W → List Event → W
  publish_events w [] = w
  publish_events w (e ∷ es) = publish_events (publisher.publish_event w e) es

  get_elem?-middle :
      {A : Type 0} (xs : List A) (y : A) (ys : List A)
      → get_elem? (xs ++ (y ∷ ys)) (length xs) ≡ some y
  get_elem?-middle [] y ys = refl
  get_elem?-middle (x ∷ xs) y ys = get_elem?-middle xs y ys

  set-middle :
      {A : Type 0} (xs : List A) (y z : A) (ys : List A)
      → set (xs ++ (y ∷ ys)) (length xs) z ≡ xs ++ (z ∷ ys)
  set-middle [] y z ys = refl
  set-middle (x ∷ xs) y z ys = ap (λ l. x ∷ l) (set-middle xs y z ys)

  drain_event-middle :
      (passed todo : List (Slot Event)) (b : Bool) (r : Event) (s : Reports Number W)
      → drain_event publisher
          (record s { events = passed ++ (record { queued = b; report = r } ∷ todo) })
          (length passed)
        ≡ record s {
          events = passed ++ (record { queued = false; report = r } ∷ todo);
          world = if b then publisher.publish_event s.world r else s.world;
        }
  unfolding drain_event
  drain_event-middle passed todo true r s =
      rw
        (
          drain_event,
          get_elem?-middle passed (full r) todo,
          set-middle passed (full r) (record { queued = false; report = r }) todo,
        )
        refl
  drain_event-middle passed todo false r s =
      rw (drain_event, get_elem?-middle passed (record { queued = false; report = r }) todo) refl

  publish_events-if :
      (b : Bool) (e : Event) (es : List Event) (w : W)
      → publish_events (if b then publisher.publish_event w e else w) es
        ≡ publish_events w (if b then e ∷ es else es)
  publish_events-if true e es w = refl
  publish_events-if false e es w = refl

  pub append-one :
      {A : Type 0} (xs : List A) (y : A) (ys : List A) → (xs ++ (y ∷ [])) ++ ys ≡ xs ++ (y ∷ ys)
  append-one [] y ys = refl
  append-one (x ∷ xs) y ys = ap (λ l. x ∷ l) (append-one xs y ys)

  length-append_one : {A : Type 0} (xs : List A) (y : A) → length (xs ++ (y ∷ [])) ≡ length xs + 1
  length-append_one [] y = refl
  length-append_one (x ∷ xs) y = let h = length-append_one xs y in omega arith

  -- Once the slots of the events are passed, each of them is free, and those that waited have been
  -- published in the order of the slots.
  pub drain_events-waiting :
      (todo passed : List (Slot Event)) (s : Reports Number W)
      → drain_events publisher (length todo) (length passed) (record s { events = passed ++ todo })
        ≡ record s {
          events = passed ++ map cleared todo;
          world = publish_events s.world (waiting todo);
        }
  unfolding drain_events
  drain_events-waiting [] passed s = refl
  drain_events-waiting (x ∷ todo) passed s =
      let x' = cleared x in
      let w = if x.queued then publisher.publish_event s.world x.report else s.world in
      let next = drain_events-waiting todo (passed ++ (x' ∷ [])) (record s { world = w }) in
      ap (drain_events publisher (length todo) (length passed + 1))
        (drain_event-middle passed todo x.queued x.report s)
      ∙ ap₂ (λ i l. drain_events publisher (length todo) i (record s { events = l; world = w }))
          (sym (length-append_one passed x')) (sym (append-one passed x' todo))
      ∙ next
      ∙ ap₂ (λ l v. record s { events = l; world = v }) (append-one passed x' (map cleared todo))
          (publish_events-if x.queued x.report (waiting todo) s.world)
