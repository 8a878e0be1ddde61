-- ===== src/State/Counts.antt =====
-- Every lap event that the live aggregate processes is dropped or counted for one car, and the
-- buffer of recent events holds the newest ones.
use carrera_monitor.Prelude.{
  ℕ, ◌+◌, ◌≡◌, refl, inl, inr, Option, none, some, List, [], ◌∷◌, ltb, arith, Bool-cases,
}
use carrera_monitor.Event.{TelemetryEvent, Payload, ConnectionPayload}
use carrera_monitor.State.Model.{CarState, FloatOps, StateManager, new_car, clamp_fuel, max_zero}
use carrera_monitor.State.Apply.{
  with_car, lap_in_car, change_some, apply_lap, connection_changed, apply_connection, apply_payload,
  apply, apply_all, canonical,
}

module _ {F : Type 0} where
  abbrev pub sum_samples : List (CarState F) → ℕ
  sum_samples [] = 0
  sum_samples (x ∷ xs) = x.lap_samples + sum_samples xs

  with_car_samples :
      (c n : ℕ) (f : CarState F → CarState F) (xs : List (CarState F))
      → ((x : CarState F) → (f x).lap_samples ≡ x.lap_samples + n)
      → sum_samples (with_car c f xs) ≡ sum_samples xs + n
  unfolding with_car
  with_car_samples c n f [] adds = ground (arith, adds (new_car c))
  with_car_samples c n f (x ∷ xs) adds = ground (arith, adds x, with_car_samples c n f xs adds)

  -- Each processed lap event was dropped or is a sample of a car.
  abbrev pub IsCounted : StateManager F → Type 0
  IsCounted s = s.processed_lap_events ≡ s.dropped_lap_events + sum_samples s.cars

  lap_in_car-samples :
      (n t now : ℕ) (x : CarState F) → (lap_in_car n t now x).lap_samples ≡ x.lap_samples + 1
  unfolding lap_in_car
  lap_in_car-samples n t now x = refl

  apply_lap-IsCounted :
      (car : Option ℕ) (n t now : ℕ) (p : Payload F) (s : StateManager F)
      → IsCounted s
      → IsCounted (apply_lap car n t now p s)
  unfolding apply_lap
  apply_lap-IsCounted none n t now p s h = omega (arith, h)
  apply_lap-IsCounted (some c) n t now p s h = elim (Bool-cases (ltb n 1)) [
    | inl few ↦ rw (few) (omega (arith, h))
    | inr many ↦ rw (many) (
        omega
          (arith, h, with_car_samples c 1 (lap_in_car n t now) s.cars (lap_in_car-samples n t now)))
  ]

  change-IsCounted :
      (car : Option ℕ) (f : CarState F → CarState F) (s : StateManager F)
      → ((x : CarState F) → (f x).lap_samples ≡ x.lap_samples)
      → IsCounted s
      → IsCounted (change_some car f s)
  change-IsCounted none f s same h = h
  change-IsCounted (some c) f s same h =
      omega (arith, h, with_car_samples c 0 f s.cars (λ x. omega (arith, same x)))

  connection-IsCounted :
      (now : ℕ) (p : ConnectionPayload) (s : StateManager F)
      → IsCounted s
      → IsCounted (apply_connection now p s)
  unfolding apply_connection
  connection-IsCounted now p s h = elim (Bool-cases (connection_changed p s.connection)) [
    | inl e ↦ rw (e) h
    | inr e ↦ rw (e) h
  ]

  payload-IsCounted :
      (ops : FloatOps F) (car : Option ℕ) (now : ℕ) (p : Payload F) (s : StateManager F)
      → IsCounted s
      → IsCounted (apply_payload ops car now p s)
  unfolding apply_payload
  payload-IsCounted ops car now (Payload.lap n t cu) s h =
      apply_lap-IsCounted car n t now (Payload.lap n t cu) s h
  payload-IsCounted ops car now (Payload.fuel level) s h =
      change-IsCounted car
        (λ x. record x { fuel_percent = some (clamp_fuel ops level); last_event_at_ms = some now })
        s (λ x. refl) h
  payload-IsCounted ops car now (Payload.pitlane in_pit reason) s h =
      change-IsCounted car (λ x. record x { in_pit = in_pit; last_event_at_ms = some now }) s
        (λ x. refl) h
  payload-IsCounted ops car now (Payload.speed v) s h =
      change-IsCounted car
        (λ x. record x { last_speed_kmh = some (max_zero ops v); last_event_at_ms = some now }) s
        (λ x. refl) h
  payload-IsCounted ops car now (Payload.controller_input throttle brake) s h =
      change-IsCounted car (λ x. record x { last_event_at_ms = some now }) s (λ x. refl) h
  payload-IsCounted ops car now (Payload.race_state r) s h = h
  payload-IsCounted ops car now (Payload.connection_state p) s h = connection-IsCounted now p s h
  payload-IsCounted ops car now (Payload.brake b) s h = h
  payload-IsCounted ops car now Payload.raw s h = h
  payload-IsCounted ops car now (Payload.not_supported why) s h = h

  apply-IsCounted :
      (ops : FloatOps F) (clock : ℕ) (e : TelemetryEvent F) (s : StateManager F)
      → IsCounted s
      → IsCounted (apply ops clock e s)
  unfolding apply
  apply-IsCounted ops clock e s h =
      payload-IsCounted ops (canonical e.car_id) e.timestamp_monotonic_ms e.payload _ h

  -- Where each lap event that a state manager has processed was dropped or is a sample of one car,
  -- that is so after any further events.
  pub apply_all-IsCounted :
      (ops : FloatOps F) (es : List (ℕ × TelemetryEvent F)) (s : StateManager F)
      → IsCounted s
      → IsCounted (apply_all ops es s)
  apply_all-IsCounted ops [] s h = h
  apply_all-IsCounted ops ((clock, e) ∷ es) s h =
      apply_all-IsCounted ops es (apply ops clock e s) (apply-IsCounted ops clock e s h)
