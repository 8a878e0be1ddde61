-- ===== src/Client/ReadLoop/Rounds.antt =====
-- Rounds of the read loop that poll timers.
use carrera_monitor.Prelude.{
  ℕ, ◌+◌, ◌<◌, Bool, true, false, ◌≡◌, refl, sym, ap, ◌∙◌, inl, inr, Option, some, List, [], ◌∷◌,
  ◌++◌, arith, Bool-cases, ◌==◌,
}
use carrera_monitor.Value.{Python}
use carrera_monitor.Event.{TelemetryEvent}
use carrera_monitor.Queue.{Queue, offer, offer_all}
use carrera_monitor.Continuity.{on_frame}
use carrera_monitor.Client.Frames.{Stamp}
use carrera_monitor.Client.Adapter.{Timer, LiveCarreraAdapter, translate_timer}
use carrera_monitor.Client.Adapter.Mapping.{CountsFromZero}
use carrera_monitor.Client.Adapter.Timers.{timer_keeps}
use carrera_monitor.Client.ReadLoop.{
  Frame, frame, Reader, Round, goes_on, read_error, read_round, read_frame, take_frame, recovered,
  events_of, enqueue_all, is_repeated,
}
use carrera_monitor.Client.ReadLoop.Crossings.{own_timer, other_timer}
use carrera_monitor.Client.ReadLoop.LapEvents.{
  crossings_of, IsOrdered, events_by, events_by_append, laps_of, last_of, laps_read, Foretold,
}

offer_all_append :
    {E : Type 0} (es fs : List E) (q : Queue E)
    → offer_all q (es ++ fs) ≡ offer_all (offer_all q es) fs
unfolding offer_all
offer_all_append [] fs q = refl
offer_all_append (e ∷ es) fs q = offer_all_append es fs (offer q e)

module _ {F : Type 0} (py : Python F) (debug_raw : Bool) (same : Frame F → Frame F → Bool) where
  abbrev pub go_on : Round F → (Reader F → Round F) → Round F
  go_on (goes_on r) f = f r
  go_on (read_error r) f = read_error r

  -- Rounds that poll timers.
  abbrev pub read_timers : List (Stamp × Timer) → Reader F → Round F
  read_timers [] r = goes_on r
  read_timers ((now, t) ∷ rounds) r =
      go_on (read_round py debug_raw same now (frame (Frame.timer t)) r) (read_timers rounds)

  -- No timer equals the frame before it.
  abbrev pub AreNew : Option (Frame F) → List (Stamp × Timer) → Type 0
  AreNew prev [] = Unit
  AreNew prev ((now, t) ∷ rounds) =
      (is_repeated same (Frame.timer t) prev ≡ false) × AreNew (some (Frame.timer t)) rounds

  abbrev heard : Stamp → Reader F → Reader F
  heard now r = record r { link_health = on_frame now.monotonic_ms r.link_health }

  recovered-heard :
      (now : Stamp) (r : Reader F) → r.timeout_streak ≡ 0 → recovered now r ≡ heard now r
  unfolding recovered
  recovered-heard now r quiet = ground arith

  abbrev after_timer : Stamp → Timer → List (TelemetryEvent F) → Reader F → Reader F
  after_timer now t es r = record (heard now r) {
    adapter = (translate_timer r.adapter t).1;
    prev_data = some (Frame.timer t);
    queue = offer_all r.queue es;
  }

  take_frame-timer :
      (now : Stamp) (t : Timer) (es : List (TelemetryEvent F)) (r : Reader F)
      → is_repeated same (Frame.timer t) r.prev_data ≡ false
      → events_of py debug_raw now (translate_timer r.adapter t).0 ≡ (es, true)
      → take_frame py debug_raw same now (Frame.timer t) (heard now r)
        ≡ goes_on (after_timer now t es r)
  unfolding take_frame
  take_frame-timer now t es r new events = rw new (
      ap
        (λ o. enqueue_all o (record (heard now r) {
          adapter = (translate_timer r.adapter t).1;
          prev_data = some (Frame.timer t);
        }))
        events)

  read_round-timer :
      (now : Stamp) (t : Timer) (es : List (TelemetryEvent F)) (r : Reader F)
      → r.timeout_streak ≡ 0
      → is_repeated same (Frame.timer t) r.prev_data ≡ false
      → events_of py debug_raw now (translate_timer r.adapter t).0 ≡ (es, true)
      → read_round py debug_raw same now (frame (Frame.timer t)) r
        ≡ goes_on (after_timer now t es r)
  unfolding read_round read_frame
  read_round-timer now t es r quiet new events =
      ap (take_frame py debug_raw same now (Frame.timer t)) (recovered-heard now r quiet)
      ∙ take_frame-timer now t es r new events

  -- What a list of rounds comes to for a car.
  abbrev pub ReadsLaps : ℕ → List (TelemetryEvent F) → Queue (TelemetryEvent F) → Round F → Type 0
  ReadsLaps c laps q o =
      (s : Reader F) × (o ≡ goes_on s)
      × (es : List (TelemetryEvent F)) × (s.queue ≡ offer_all q es)
      × (events_by c es ≡ laps)

  Foretold-timer :
      (now : Stamp) (t : Timer) (k : ℕ) (rounds : List (Stamp × Timer)) (a : LiveCarreraAdapter F)
      → k < 6
      → CountsFromZero a.slot_mapping
      → IsOrdered (last_of (k + 1) a) (crossings_of k ((now, t) ∷ rounds))
      → Foretold py debug_raw now
          (k + 1)
          (crossings_of k rounds)
          (laps_read py debug_raw
            (k + 1)
            (laps_of (k + 1) a)
            (last_of (k + 1) a)
            (crossings_of k ((now, t) ∷ rounds)))
          (translate_timer a t)
  Foretold-timer now t k rounds a small counts order = elim (Bool-cases (t.address == k)) [
    | inl own ↦ rw own (
        own_timer py debug_raw now k t (crossings_of k rounds) a small counts (ground arith)
          (rw own at order))
    | inr other ↦ rw other (
        other_timer py debug_raw now k t (crossings_of k rounds) a counts other (rw other at order))
  ]

  -- Where the mapping of the adapter counts slots from zero, is not locked and has no other
  -- decisions, no poll has just timed out, each polled timer differs from the frame before it, and
  -- the timestamps of an address below 6 never go back, rounds of the read loop that poll timers of
  -- any addresses go on, and offer events to the queue among which those of that address's car are
  -- one lap for each crossing after its first, each stamped in its own round, numbered on from the
  -- laps counted before, with the difference of the two timestamps as its time, and each followed
  -- by a raw event where `debug_raw` is on.
  pub read_timers-laps_read :
      (rounds : List (Stamp × Timer)) (r : Reader F) (k : ℕ)
      → k < 6
      → CountsFromZero r.adapter.slot_mapping
      → r.timeout_streak ≡ 0
      → AreNew r.prev_data rounds
      → IsOrdered (last_of (k + 1) r.adapter) (crossings_of k rounds)
      → ReadsLaps
          (k + 1)
          (laps_read py debug_raw
            (k + 1)
            (laps_of (k + 1) r.adapter)
            (last_of (k + 1) r.adapter)
            (crossings_of k rounds))
          r.queue
          (read_timers rounds r)
  unfolding offer_all
  read_timers-laps_read [] r k small counts quiet new order = (r, refl, [], refl, refl)
  read_timers-laps_read ((now, t) ∷ rounds) r k small counts quiet (first, new) order =
      let (es, events, laps, later) = Foretold-timer now t k rounds r.adapter small counts order in
      let b = after_timer now t es r in
      let (s, ends_at, fs, queue, more) =
        read_timers-laps_read rounds b k small (timer_keeps r.adapter t counts) quiet new later in
      (
        s,
        ap (λ o. go_on o (read_timers rounds)) (read_round-timer now t es r quiet first events)
            ∙ ends_at,
        es ++ fs,
        queue ∙ sym (offer_all_append es fs r.queue),
        events_by_append (k + 1) es fs ∙ ap (λ l. events_by (k + 1) es ++ l) more ∙ laps,
      )
