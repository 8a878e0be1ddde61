-- ===== src/Client/ReadLoop.antt =====
-- carrera_client.py: `LiveCarreraAdapter._read_loop`, one call of `cu.poll` a round. The clocks are
-- arguments of a round, read once in it.
pub mod Watchdog
pub mod LapEvents
pub mod Crossings
pub mod Rounds
use carrera_monitor.Prelude.{
  ℕ, suc, ◌+◌, ◌==◌, String, Bool, true, false, Option, none, some, List, [], ◌∷◌, ◌++◌, leb,
  if◌then◌else◌,
}
use carrera_monitor.Value.{Value, str, Dict, Python}
use carrera_monitor.Event.{
  TelemetryEvent, Payload, Source, ConnectionState, connected, degraded, stalled,
}
use carrera_monitor.Event.Validation.{bind}
use carrera_monitor.Queue.{Queue, offer, offer_all}
use carrera_monitor.Continuity.{LinkHealthTracker, LinkHealthStatus, on_timeout, on_frame}
use carrera_monitor.Client.Frames.{RawFrame, Stamp, translate_raw_frame}
use carrera_monitor.Client.Adapter.{Status, Timer, LiveCarreraAdapter, translate_timer}
use carrera_monitor.Client.Adapter.Frames.{translate_status}

-- What `cu.poll` returns; `unknown` has the frame that is made of it.
pub data Frame (F : Type 0) : Type 0 where
  status : Status F → Frame F
  timer : Timer → Frame F
  unknown : RawFrame F → Frame F

pub data Poll (F : Type 0) : Type 0 where
  timeout : Poll F
  failure : Poll F
  frame : Frame F → Poll F

pub record Reader (F : Type 0) : Type 0 where
  pub adapter : LiveCarreraAdapter F
  pub link_health : LinkHealthTracker
  pub idle_timeout : ℕ
  pub timeout_streak : ℕ
  pub prev_data : Option (Frame F)
  pub queue : Queue (TelemetryEvent F)
  pub is_connected : Bool

-- The loop goes on, or ends with an `AdapterReadError`.
pub data Round (F : Type 0) : Type 0 where
  goes_on : Reader F → Round F
  read_error : Reader F → Round F

-- `health.reason or default`
abbrev pub reason_or : Option String → String → String
reason_or none default = default
reason_or (some s) default = s

module _ {F : Type 0} where
  -- The event of `_emit_link_health`.
  abbrev pub link_event : Stamp → ConnectionState → String → ℕ → TelemetryEvent F
  link_event now state reason streak = record {
    timestamp_iso = now.iso;
    timestamp_monotonic_ms = now.monotonic_ms;
    source = Source.carrera_appconnect;
    car_id = none;
    controller_id = none;
    payload = Payload.connection_state (record {
      state = state;
      error = none;
      reason = some reason;
      timeout_streak = some streak;
      event = none;
      desired_connected = none;
      device_id = none;
      device_name = none;
      mac_address = none;
      rssi = none;
      connected_at = none;
      disconnected_at = none;
      last_seen_at = none;
      last_rx_monotonic_ms = none;
      reconnect_attempts = none;
    });
  }

  unfoldable pub emit_link_health : Stamp → ConnectionState → String → ℕ → Reader F → Reader F
  unfolding offer
  emit_link_health now state reason streak r = record r {
    queue = offer r.queue (link_event now state reason streak);
  }

  -- The `finally` of the loop.
  abbrev pub ends : Reader F → Round F
  ends r = read_error (record r { is_connected = false })

  abbrev pub warn_degraded : Stamp → Reader F → LinkHealthStatus → Reader F
  warn_degraded now r LinkHealthStatus.degraded =
      emit_link_health now degraded (reason_or r.link_health.link.reason "timeout_warning")
        r.link_health.link.timeout_streak r
  warn_degraded now r _ = r

  -- The state after a poll that times out, with the warning where the link is degraded.
  unfoldable pub warned : Stamp → Reader F → Reader F
  unfolding emit_link_health on_timeout
  warned now r =
      let t : Reader F = record r {
        timeout_streak = r.timeout_streak + 1;
        link_health = on_timeout r.link_health;
      } in
      warn_degraded now t t.link_health.link.state

  unfoldable pub timed_out : Stamp → Reader F → Round F
  timed_out now r =
      let u = warned now r in
      if leb r.idle_timeout (r.timeout_streak + 1)
      then ends (emit_link_health now stalled "timeout_streak_hard" (r.timeout_streak + 1) u)
      else goes_on u

  -- `if timeout_streak:` at a frame, and `on_frame`.
  unfoldable pub recovered : Stamp → Reader F → Reader F
  unfolding emit_link_health on_frame
  recovered now r =
      let s : Reader F =
        if r.timeout_streak == 0
        then r
        else record (emit_link_health now connected "poll_recovered" 0 r) { timeout_streak = 0 } in
      record s { link_health = on_frame now.monotonic_ms s.link_health }

  abbrev pub translate :
      Python F → LiveCarreraAdapter F → Frame F → Option (List (RawFrame F) × LiveCarreraAdapter F)
  translate py a (Frame.status s) = translate_status py a s
  translate py a (Frame.timer t) = some (translate_timer a t)
  translate py a (Frame.unknown f) = some (f ∷ [], a)

  -- The events of a frame before those of others; none follow a translation that raises.
  abbrev pub add_events :
      Option (List (TelemetryEvent F))
      → List (TelemetryEvent F) × Bool
      → List (TelemetryEvent F) × Bool
  add_events none (more, all) = ([], false)
  add_events (some es) (more, all) = (es ++ more, all)

  -- The events of some raw frames, in order, up to one whose translation raises, and whether all
  -- were translated.
  unfoldable pub events_of :
      Python F → Bool → Stamp → List (RawFrame F) → List (TelemetryEvent F) × Bool
  unfolding translate_raw_frame
  events_of py debug_raw now [] = ([], true)
  events_of py debug_raw now (f ∷ fs) =
      add_events (translate_raw_frame py debug_raw now Source.carrera_appconnect f)
        (events_of py debug_raw now fs)

  abbrev pub is_repeated : (Frame F → Frame F → Bool) → Frame F → Option (Frame F) → Bool
  is_repeated same x none = false
  is_repeated same x (some y) = same x y

  -- The events of the frames are enqueued; the loop ends if a translation raised.
  abbrev pub enqueue_all : List (TelemetryEvent F) × Bool → Reader F → Round F
  enqueue_all (es, true) r = goes_on (record r { queue = offer_all r.queue es })
  enqueue_all (es, false) r = ends (record r { queue = offer_all r.queue es })

  -- A frame, once the link counts as recovered.
  unfoldable pub take_frame :
      Python F → Bool → (Frame F → Frame F → Bool) → Stamp → Frame F → Reader F → Round F
  unfolding events_of
  take_frame py debug_raw same now x s =
      if is_repeated same x s.prev_data then goes_on s else (elim (translate py s.adapter x) [
        | none ↦ ends (record s { prev_data = some x })
        | some (fs, a) ↦
            enqueue_all (events_of py debug_raw now fs)
              (record s { adapter = a; prev_data = some x })
      ])

  unfoldable pub read_frame :
      Python F → Bool → (Frame F → Frame F → Bool) → Stamp → Frame F → Reader F → Round F
  unfolding recovered take_frame
  read_frame py debug_raw same now x r = take_frame py debug_raw same now x (recovered now r)

  unfoldable pub read_round :
      Python F → Bool → (Frame F → Frame F → Bool) → Stamp → Poll F → Reader F → Round F
  unfolding timed_out read_frame
  read_round py debug_raw same now timeout r = timed_out now r
  read_round py debug_raw same now failure r = ends r
  read_round py debug_raw same now (frame x) r = read_frame py debug_raw same now x r
