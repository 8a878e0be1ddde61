-- ===== src/State/Apply.antt =====
-- `StateManager.apply`.
use carrera_monitor.Prelude.{
  ℕ, ◌+◌, ◌==◌, str_eq, Bool, true, false, not, ◌&&◌, ◌||◌, Option, none, some, List, [], ◌∷◌, take,
  ltb, leb, if◌then◌else◌,
}
use carrera_monitor.Event.{TelemetryEvent, Payload, ConnectionPayload, EventType, event_type}
use carrera_monitor.Continuity.{ActiveCarDetector, observe}
use carrera_monitor.State.Model.{
  CarState, ConnectionStateRecord, FloatOps, StateManager, recent_events_max, update_best_lap,
  new_car, clamp_fuel, max_zero, same, bool_eq, state_number,
}

-- `_is_canonical_car_id`
abbrev pub is_canonical_car_id : ℕ → Bool
is_canonical_car_id c = leb 1 c && leb c 6

abbrev pub canonical : Option ℕ → Option ℕ
canonical none = none
canonical (some c) = if is_canonical_car_id c then some c else none

-- The types of event that make a car active.
abbrev pub is_activity : EventType → Bool
is_activity EventType.lap = true
is_activity EventType.fuel = true
is_activity EventType.pitlane = true
is_activity EventType.speed = true
is_activity EventType.controller_input = true
is_activity _ = false

abbrev pub or_else {ℓ} : {A : Type ℓ} → A → Option A → A
or_else a none = a
or_else a (some b) = b

-- The test of whether a payload differs from the record; a key that is absent reads as `None`,
-- which is equal to neither `False` nor `0`.
unfoldable pub connection_changed : ConnectionPayload → ConnectionStateRecord → Bool
connection_changed p r =
    not (state_number p.state == state_number r.state)
    || not (same str_eq p.error r.last_error)
    || not (same str_eq p.reason r.reason)
    || not (same ◌==◌ p.timeout_streak r.timeout_streak)
    || not (same bool_eq p.desired_connected (some r.desired_connected))
    || not (same ◌==◌ p.reconnect_attempts (some r.reconnect_attempts))
    || not (same ◌==◌ p.last_rx_monotonic_ms r.last_rx_monotonic_ms)

unfoldable pub new_connection : ℕ → ConnectionPayload → ConnectionStateRecord
new_connection now p = record {
  state = p.state;
  since_ms = now;
  last_error = p.error;
  reason = p.reason;
  timeout_streak = p.timeout_streak;
  event = p.event;
  desired_connected = or_else false p.desired_connected;
  device_id = p.device_id;
  device_name = p.device_name;
  mac_address = p.mac_address;
  rssi = p.rssi;
  connected_at = p.connected_at;
  disconnected_at = p.disconnected_at;
  last_seen_at = p.last_seen_at;
  last_rx_monotonic_ms = p.last_rx_monotonic_ms;
  reconnect_attempts = or_else 0 p.reconnect_attempts;
}

module _ {F : Type 0} where
  -- A change of `self._car(c)`, which is made where it is missing.
  unfoldable pub with_car : ℕ → (CarState F → CarState F) → List (CarState F) → List (CarState F)
  with_car c f [] = f (new_car c) ∷ []
  with_car c f (x ∷ xs) = let rest = with_car c f xs in if x.car_id == c then f x ∷ xs else x ∷ rest

  abbrev pub change_car : ℕ → (CarState F → CarState F) → StateManager F → StateManager F
  change_car c f s = record s { cars = with_car c f s.cars }

  unfoldable pub lap_in_car : ℕ → ℕ → ℕ → CarState F → CarState F
  unfolding update_best_lap
  lap_in_car number time_ms now car = record car {
    lap_count = if ltb car.lap_count number then number else car.lap_count;
    latest_lap_ms = some time_ms;
    best_lap_ms = some (update_best_lap car.best_lap_ms time_ms);
    lap_samples = car.lap_samples + 1;
    lap_total_ms = car.lap_total_ms + time_ms;
    last_event_at_ms = some now;
  }

  abbrev drop_lap : StateManager F → StateManager F
  drop_lap s = record s { dropped_lap_events = s.dropped_lap_events + 1 }

  -- The branch of lap events, whose lap number and lap time are natural numbers.
  unfoldable pub apply_lap : Option ℕ → ℕ → ℕ → ℕ → Payload F → StateManager F → StateManager F
  unfolding with_car lap_in_car
  apply_lap car number time_ms now p s =
      let t : StateManager F = record s {
        processed_lap_events = s.processed_lap_events + 1;
        last_lap_payload = some p;
      } in
      elim car [
        | none ↦ drop_lap t
        | some c ↦
            if ltb number 1 then drop_lap t else change_car c (lap_in_car number time_ms now) t
      ]

  abbrev pub change_some : Option ℕ → (CarState F → CarState F) → StateManager F → StateManager F
  change_some none f s = s
  change_some (some c) f s = change_car c f s

  unfoldable pub apply_connection : ℕ → ConnectionPayload → StateManager F → StateManager F
  unfolding connection_changed new_connection
  apply_connection now p s =
      if connection_changed p s.connection
      then record s { connection = new_connection now p }
      else s

  -- The branches by event type, for the canonical car and the event's monotonic time.
  unfoldable pub apply_payload :
      FloatOps F → Option ℕ → ℕ → Payload F → StateManager F → StateManager F
  unfolding with_car clamp_fuel apply_lap apply_connection
  apply_payload ops car now (Payload.lap number time_ms cu) s =
      apply_lap car number time_ms now (Payload.lap number time_ms cu) s
  apply_payload ops car now (Payload.fuel level) s =
      change_some car
        (λ x. record x { fuel_percent = some (clamp_fuel ops level); last_event_at_ms = some now })
        s
  apply_payload ops car now (Payload.pitlane in_pit reason) s =
      change_some car (λ x. record x { in_pit = in_pit; last_event_at_ms = some now }) s
  apply_payload ops car now (Payload.speed v) s =
      change_some car
        (λ x. record x { last_speed_kmh = some (max_zero ops v); last_event_at_ms = some now }) s
  apply_payload ops car now (Payload.controller_input throttle brake) s =
      change_some car (λ x. record x { last_event_at_ms = some now }) s
  apply_payload ops car now (Payload.race_state r) s = record s { race_state = r }
  apply_payload ops car now (Payload.connection_state p) s = apply_connection now p s
  apply_payload ops car now _ s = s

  abbrev observed : TelemetryEvent F → ActiveCarDetector → ActiveCarDetector
  observed e det =
      if is_activity (event_type e)
      then observe det (canonical e.car_id) e.timestamp_monotonic_ms
      else det

  -- `clock` is the reading of `utils.now_iso()`.
  unfoldable pub apply : FloatOps F → ℕ → TelemetryEvent F → StateManager F → StateManager F
  unfolding apply_payload
  apply ops clock e s =
      apply_payload ops (canonical e.car_id) e.timestamp_monotonic_ms e.payload (record s {
        last_telemetry_at_iso = some e.timestamp_iso;
        last_state_update_at_iso = some clock;
        recent = take recent_events_max (e ∷ s.recent);
        active_detector = observed e s.active_detector;
      })

  -- Events that are applied in turn, each with the reading of the clock.
  abbrev pub apply_all : FloatOps F → List (ℕ × TelemetryEvent F) → StateManager F → StateManager F
  apply_all ops [] s = s
  apply_all ops ((clock, e) ∷ es) s = apply_all ops es (apply ops clock e s)
