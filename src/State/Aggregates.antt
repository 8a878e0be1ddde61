-- ===== src/State/Aggregates.antt =====
-- What the live aggregate holds of a car, against the list of the laps that were applied.
use carrera_monitor.Prelude.{
  ℕ, ◌==◌, true, false, ◌≡◌, refl, ◌⊎◌, inl, inr, Option, none, some, List, [], ◌∷◌, length, ltb,
  arith, Bool-cases,
}
use carrera_monitor.Event.{TelemetryEvent, Payload, ConnectionPayload}
use carrera_monitor.State.Model.{
  CarState, FloatOps, StateManager, new_manager, clamp_fuel, max_zero,
}
use carrera_monitor.State.Apply.{
  with_car, lap_in_car, apply_lap, apply_connection, apply_payload, apply, apply_all,
  connection_changed, canonical, is_canonical_car_id,
}
use carrera_monitor.State.Cars.{find_car, car_at, with_car-here, with_car-other}
use carrera_monitor.State.Grown.{
  sum_times, least_time, largest_number, last_time, cons_some, lap_of, laps_of, Grown, Grown-refl,
  Grown-same, Grown-lap, Grown-trans, change-Grown,
}

module _ {F : Type 0} where
  lap_in_car-car_id : (n t now : ℕ) (x : CarState F) → (lap_in_car n t now x).car_id ≡ x.car_id
  unfolding lap_in_car
  lap_in_car-car_id n t now x = refl

  apply_lap-uncounted :
      (car : Option ℕ) (n t now : ℕ) (p : Payload F) (s : StateManager F)
      → (car ≡ none) ⊎ (ltb n 1 ≡ true)
      → (apply_lap car n t now p s).cars ≡ s.cars
  unfolding apply_lap
  apply_lap-uncounted car n t now p s (inl none_is) = rw (none_is) refl
  apply_lap-uncounted none n t now p s (inr few) = refl
  apply_lap-uncounted (some d) n t now p s (inr few) = rw (few) refl

  apply_lap-counted :
      (d n t now : ℕ) (p : Payload F) (s : StateManager F)
      → ltb n 1 ≡ false
      → (apply_lap (some d) n t now p s).cars ≡ with_car d (lap_in_car n t now) s.cars
  unfolding apply_lap
  apply_lap-counted d n t now p s many = rw (many) refl

  lap-Grown_canonical :
      (c d n t now : ℕ) (cu : Option ℕ) (p : Payload F) (s : StateManager F)
      → Grown
          (car_at c s.cars)
          (car_at c (apply_lap (some d) n t now p s).cars)
          (cons_some (lap_of {F = F} c (Payload.lap n t cu) (some d)) [])
  lap-Grown_canonical c d n t now cu p s = elim (Bool-cases (ltb n 1)) [
    | inl few ↦
        let l : lap_of {F = F} c (Payload.lap n t cu) (some d) ≡ none = ground arith in
        rw (l, apply_lap-uncounted (some d) n t now p s (inr few)) (Grown-refl (car_at c s.cars))
    | inr many ↦ elim (Bool-cases (d == c)) [
      | inl is ↦
          let e : d ≡ c = ground arith in
          let l : lap_of {F = F} c (Payload.lap n t cu) (some c) ≡ some (n, t) = ground arith in
          rw
            (
              e,
              l,
              apply_lap-counted c n t now p s many,
              with_car-here c (lap_in_car n t now) s.cars (lap_in_car-car_id n t now),
            )
            (Grown-lap (car_at c s.cars) n t now)
      | inr other ↦
          let l : lap_of {F = F} c (Payload.lap n t cu) (some d) ≡ none = ground arith in
          rw
            (
              l,
              apply_lap-counted d n t now p s many,
              with_car-other d c (lap_in_car n t now) s.cars (lap_in_car-car_id n t now) other,
            )
            (Grown-refl (car_at c s.cars))
    ]
  ]

  lap-Grown :
      (c : ℕ) (car : Option ℕ) (n t now : ℕ) (cu : Option ℕ) (p : Payload F) (s : StateManager F)
      → is_canonical_car_id c ≡ true
      → Grown
          (car_at c s.cars)
          (car_at c (apply_lap (canonical car) n t now p s).cars)
          (cons_some (lap_of {F = F} c (Payload.lap n t cu) car) [])
  lap-Grown c none n t now cu p s ok =
      rw (apply_lap-uncounted none n t now p s (inl refl)) (Grown-refl (car_at c s.cars))
  lap-Grown c (some d) n t now cu p s ok = elim (Bool-cases (is_canonical_car_id d)) [
    | inl good ↦ rw (good) (lap-Grown_canonical c d n t now cu p s)
    | inr bad ↦
        let l : lap_of {F = F} c (Payload.lap n t cu) (some d) ≡ none = ground arith in
        rw (l, bad, apply_lap-uncounted none n t now p s (inl refl)) (Grown-refl (car_at c s.cars))
  ]

  connection-cars :
      (now : ℕ) (p : ConnectionPayload) (s : StateManager F)
      → (apply_connection now p s).cars ≡ s.cars
  unfolding apply_connection
  connection-cars now p s = elim (Bool-cases (connection_changed p s.connection)) [
    | inl e ↦ rw (e) refl
    | inr e ↦ rw (e) refl
  ]

  payload-Grown :
      (ops : FloatOps F) (c : ℕ) (car : Option ℕ) (now : ℕ) (p : Payload F) (s : StateManager F)
      → is_canonical_car_id c ≡ true
      → Grown
          (car_at c s.cars)
          (car_at c (apply_payload ops (canonical car) now p s).cars)
          (cons_some (lap_of c p car) [])
  unfolding apply_payload
  payload-Grown ops c car now (Payload.lap n t cu) s ok =
      lap-Grown c car n t now cu (Payload.lap n t cu) s ok
  payload-Grown ops c car now (Payload.fuel level) s ok =
      change-Grown c (canonical car)
        (λ x. record x { fuel_percent = some (clamp_fuel ops level); last_event_at_ms = some now })
        s (λ x. refl) (λ x. Grown-same x _ refl refl refl refl refl)
  payload-Grown ops c car now (Payload.pitlane in_pit reason) s ok =
      change-Grown c (canonical car)
        (λ x. record x { in_pit = in_pit; last_event_at_ms = some now }) s (λ x. refl)
        (λ x. Grown-same x _ refl refl refl refl refl)
  payload-Grown ops c car now (Payload.speed v) s ok =
      change-Grown c (canonical car)
        (λ x. record x { last_speed_kmh = some (max_zero ops v); last_event_at_ms = some now }) s
        (λ x. refl) (λ x. Grown-same x _ refl refl refl refl refl)
  payload-Grown ops c car now (Payload.controller_input throttle brake) s ok =
      change-Grown c (canonical car) (λ x. record x { last_event_at_ms = some now }) s (λ x. refl)
        (λ x. Grown-same x _ refl refl refl refl refl)
  payload-Grown ops c car now (Payload.race_state r) s ok = Grown-refl (car_at c s.cars)
  payload-Grown ops c car now (Payload.connection_state p) s ok =
      rw (connection-cars now p s) (Grown-refl (car_at c s.cars))
  payload-Grown ops c car now (Payload.brake b) s ok = Grown-refl (car_at c s.cars)
  payload-Grown ops c car now Payload.raw s ok = Grown-refl (car_at c s.cars)
  payload-Grown ops c car now (Payload.not_supported why) s ok = Grown-refl (car_at c s.cars)

  apply-Grown :
      (ops : FloatOps F) (c clock : ℕ) (e : TelemetryEvent F) (s : StateManager F)
      → is_canonical_car_id c ≡ true
      → Grown
          (car_at c s.cars)
          (car_at c (apply ops clock e s).cars)
          (cons_some (lap_of c e.payload e.car_id) [])
  unfolding apply
  apply-Grown ops c clock e s ok =
      payload-Grown ops c e.car_id e.timestamp_monotonic_ms e.payload _ ok

  apply_all-Grown :
      (ops : FloatOps F) (c : ℕ) (es : List (ℕ × TelemetryEvent F)) (s : StateManager F)
      → is_canonical_car_id c ≡ true
      → Grown (car_at c s.cars) (car_at c (apply_all ops es s).cars) (laps_of c es)
  apply_all-Grown ops c [] s ok = Grown-refl (car_at c s.cars)
  apply_all-Grown ops c ((clock, e) ∷ es) s ok =
      Grown-trans (car_at c s.cars) (car_at c (apply ops clock e s).cars) _
        (lap_of c e.payload e.car_id) (laps_of c es) (apply-Grown ops c clock e s ok)
        (apply_all-Grown ops c es (apply ops clock e s) ok)

  -- After any events, those of the race state among them, the aggregates of a car 1 to 6 of a new
  -- state manager are those of the car's laps with positive numbers among the events: how many they
  -- are, the sum, the least and the last of their times, and the largest of their numbers.
  pub aggregates_of_laps :
      (ops : FloatOps F) (c window now : ℕ) (es : List (ℕ × TelemetryEvent F))
      → is_canonical_car_id c ≡ true
      → let car = car_at c (apply_all ops es (new_manager window now)).cars in
        (car.lap_samples ≡ length (laps_of c es))
        × ((car.lap_total_ms ≡ sum_times (laps_of c es))
            × ((car.best_lap_ms ≡ least_time (laps_of c es))
                × ((car.latest_lap_ms ≡ last_time none (laps_of c es))
                    × (car.lap_count ≡ largest_number (laps_of c es)))))
  unfolding find_car
  aggregates_of_laps ops c window now es ok =
      let g = apply_all-Grown ops c es (new_manager window now) ok in
      (
        omega (arith, g.samples),
        (omega (arith, g.total), (g.best, (g.latest, ground (arith, g.count)))),
      )
