-- ===== src/State/Grown.antt =====
-- How the aggregates of a car grow by laps.
use carrera_monitor.Prelude.{
  ℕ, ◌+◌, ◌==◌, ◌&&◌, ◌≡◌, refl, inl, inr, Option, none, some, List, [], ◌∷◌, length, ltb, leb,
  if◌then◌else◌, arith, Bool-cases,
}
use carrera_monitor.Event.{TelemetryEvent, Payload}
use carrera_monitor.State.Model.{CarState, StateManager}
use carrera_monitor.State.Apply.{lap_in_car, change_some}
use carrera_monitor.State.Cars.{car_at, with_car-here, with_car-other}

abbrev pub min_opt : Option ℕ → Option ℕ → Option ℕ
min_opt none b = b
min_opt (some a) none = some a
min_opt (some a) (some b) = some (if ltb b a then b else a)

-- Of a list of lap numbers and lap times: the sum and the least of the times, the largest number,
-- and the last time.
abbrev pub sum_times : List (ℕ × ℕ) → ℕ
sum_times [] = 0
sum_times ((n, t) ∷ ls) = t + sum_times ls

abbrev pub least_time : List (ℕ × ℕ) → Option ℕ
least_time [] = none
least_time ((n, t) ∷ ls) = min_opt (some t) (least_time ls)

abbrev pub max : ℕ → ℕ → ℕ
max a b = if ltb a b then b else a

abbrev pub largest_number : List (ℕ × ℕ) → ℕ
largest_number [] = 0
largest_number ((n, t) ∷ ls) = max n (largest_number ls)

abbrev pub last_time : Option ℕ → List (ℕ × ℕ) → Option ℕ
last_time t [] = t
last_time t ((n, u) ∷ ls) = last_time (some u) ls

abbrev pub cons_some {ℓ} : {A : Type ℓ} → Option A → List A → List A
cons_some none xs = xs
cons_some (some x) xs = x ∷ xs

module _ {F : Type 0} where
  -- The number and time of a lap of a car, where the number is positive.
  abbrev pub lap_of : ℕ → Payload F → Option ℕ → Option (ℕ × ℕ)
  lap_of c (Payload.lap n t cu) (some d) = if d == c && leb 1 n then some (n, t) else none
  lap_of c _ _ = none

  abbrev pub laps_of : ℕ → List (ℕ × TelemetryEvent F) → List (ℕ × ℕ)
  laps_of c [] = []
  laps_of c ((clock, e) ∷ es) = cons_some (lap_of c e.payload e.car_id) (laps_of c es)

  -- How the aggregates of a car grow by some laps.
  pub record Grown (a b : CarState F) (ls : List (ℕ × ℕ)) : Type 0 where
    pub samples : b.lap_samples ≡ a.lap_samples + length ls
    pub total : b.lap_total_ms ≡ a.lap_total_ms + sum_times ls
    pub best : b.best_lap_ms ≡ min_opt a.best_lap_ms (least_time ls)
    pub latest : b.latest_lap_ms ≡ last_time a.latest_lap_ms ls
    pub count : b.lap_count ≡ max a.lap_count (largest_number ls)

  pub Grown-same :
      (a b : CarState F)
      → b.lap_samples ≡ a.lap_samples
      → b.lap_total_ms ≡ a.lap_total_ms
      → b.best_lap_ms ≡ a.best_lap_ms
      → b.latest_lap_ms ≡ a.latest_lap_ms
      → b.lap_count ≡ a.lap_count
      → Grown a b []
  Grown-same a b p q r s t = record {
    samples = omega arith;
    total = omega arith;
    best = ground arith;
    latest = s;
    count = ground arith;
  }

  pub Grown-refl : (a : CarState F) → Grown a a []
  Grown-refl a = Grown-same a a refl refl refl refl refl

  pub Grown-lap : (a : CarState F) (n t now : ℕ) → Grown a (lap_in_car n t now a) ((n, t) ∷ [])
  unfolding lap_in_car
  Grown-lap a n t now = record {
    samples = refl;
    total = omega arith;
    best = ground arith;
    latest = refl;
    count = ground arith;
  }

  pub Grown-trans :
      (a b c : CarState F) (l : Option (ℕ × ℕ)) (ls : List (ℕ × ℕ))
      → Grown a b (cons_some l [])
      → Grown b c ls
      → Grown a c (cons_some l ls)
  Grown-trans a b c none ls g h = record {
    samples = ground (arith, g.samples, h.samples);
    total = ground (arith, g.total, h.total);
    best = ground (arith, g.best, h.best);
    latest = ground (arith, g.latest, h.latest);
    count = ground (arith, g.count, h.count);
  }
  Grown-trans a b c (some (n, t)) ls g h = record {
    samples = ground (arith, g.samples, h.samples);
    total = ground (arith, g.total, h.total);
    best = ground (arith, g.best, h.best);
    latest = ground (arith, g.latest, h.latest);
    count = ground (arith, g.count, h.count);
  }

  -- A change of some car that leaves the aggregates of every car.
  pub change-Grown :
      (c : ℕ) (car : Option ℕ) (f : CarState F → CarState F) (s : StateManager F)
      → ((x : CarState F) → (f x).car_id ≡ x.car_id)
      → ((x : CarState F) → Grown x (f x) [])
      → Grown (car_at c s.cars) (car_at c (change_some car f s).cars) []
  change-Grown c none f s keeps g = Grown-refl (car_at c s.cars)
  change-Grown c (some d) f s keeps g = elim (Bool-cases (d == c)) [
    | inl is ↦
        let p : d ≡ c = ground arith in rw (p, with_car-here c f s.cars keeps) (g (car_at c s.cars))
    | inr other ↦ rw (with_car-other d c f s.cars keeps other) (Grown-refl (car_at c s.cars))
  ]
