-- ===== src/State/Snapshot.antt =====
-- `StateManager.snapshot`: the cars with their positions, and the metrics of the race. (The other
-- entries of the snapshot copy the state.)
use carrera_monitor.Prelude.{
  ℕ, ◌+◌, ◌*◌, ◌==◌, Bool, ◌&&◌, ◌||◌, Option, none, some, List, [], ◌∷◌, length, ltb, leb,
  if◌then◌else◌,
}
use carrera_monitor.Prelude.Sort.{sort_by}
use carrera_monitor.Event.{RaceState, TelemetryEvent}
use carrera_monitor.Continuity.{active_car_ids}
use carrera_monitor.State.Model.{CarState, ConnectionStateRecord, FloatOps, StateManager}

-- A dictionary of `_car_to_dict`, with the position that `_build_race_metrics` writes into it.
pub record CarView (F : Type 0) : Type 0 where
  pub car : CarState F
  pub average_lap_ms : Option F
  pub position : ℕ

pub record RaceMetrics (F : Type 0) : Type 0 where
  pub status : RaceState
  pub leader_car_id : Option ℕ
  pub fastest_lap_ms : Option ℕ
  pub total_laps : ℕ
  pub cars : List (CarView F)
  pub processed_lap_events : ℕ
  pub dropped_lap_events : ℕ

pub record Snapshot (F : Type 0) : Type 0 where
  pub connection : ConnectionStateRecord
  pub race : RaceState
  pub race_metrics : RaceMetrics F
  pub active_ids : List ℕ
  pub active_car_count : ℕ
  pub cars : List (CarView F)
  pub recent_events : List (TelemetryEvent F)

abbrev pub no_best_lap : ℕ
no_best_lap = 1000000 * 1000000

module _ {F : Type 0} where
  abbrev pub best_lap_key : CarState F → ℕ
  best_lap_key c = elim c.best_lap_ms [ none ↦ no_best_lap | some t ↦ t ]

  -- The order of the keys `(-lap_count, best_lap, car_id)`.
  unfoldable pub ranks_before : CarState F → CarState F → Bool
  ranks_before a b =
      ltb b.lap_count a.lap_count
      || a.lap_count == b.lap_count
        && (ltb (best_lap_key a) (best_lap_key b)
            || best_lap_key a == best_lap_key b && leb a.car_id b.car_id)

  unfoldable pub average_lap : FloatOps F → CarState F → Option F
  average_lap ops c =
      if ltb 0 c.lap_samples
      then some (ops.divide (ops.of_nat c.lap_total_ms) (ops.of_nat c.lap_samples))
      else none

  -- `for idx, car in enumerate(ranked, start=...)`
  unfoldable pub number_from : FloatOps F → ℕ → List (CarState F) → List (CarView F)
  unfolding average_lap
  number_from ops n [] = []
  number_from ops n (c ∷ cs) =
      (record { car = c; average_lap_ms = average_lap ops c; position = n })
      ∷ number_from ops (n + 1) cs

  unfoldable pub ranked : List (CarState F) → List (CarState F)
  unfolding ranks_before
  ranked cars = sort_by ranks_before (sort_by (λ a b. leb a.car_id b.car_id) cars)

  unfoldable pub fastest : List (CarState F) → Option ℕ
  fastest [] = none
  fastest (c ∷ cs) =
      let rest = fastest cs in
      elim c.best_lap_ms [
        | none ↦ rest
        | some t ↦ elim rest [ none ↦ some t | some r ↦ some (if ltb r t then r else t) ]
      ]

  unfoldable pub sum_laps : List (CarState F) → ℕ
  sum_laps [] = 0
  sum_laps (c ∷ cs) = c.lap_count + sum_laps cs

  abbrev pub first_id : List (CarState F) → Option ℕ
  first_id [] = none
  first_id (c ∷ cs) = some c.car_id

  unfoldable pub race_metrics : FloatOps F → StateManager F → RaceMetrics F
  unfolding ranked number_from fastest sum_laps
  race_metrics ops s =
      let order = ranked s.cars in
      record {
        status = s.race_state;
        leader_car_id = first_id order;
        fastest_lap_ms = fastest order;
        total_laps = sum_laps order;
        cars = number_from ops 1 order;
        processed_lap_events = s.processed_lap_events;
        dropped_lap_events = s.dropped_lap_events;
      }

  -- `now` is the reading of the monotonic clock. The list of the cars by number shares its
  -- dictionaries with the ranked list, positions included.
  unfoldable pub snapshot : FloatOps F → ℕ → StateManager F → Snapshot F
  unfolding race_metrics
  snapshot ops now s =
      let metrics = race_metrics ops s in
      let ids = active_car_ids s.active_detector now in
      record {
        connection = s.connection;
        race = s.race_state;
        race_metrics = metrics;
        active_ids = ids;
        active_car_count = length ids;
        cars = sort_by (λ a b. leb a.car.car_id b.car.car_id) metrics.cars;
        recent_events = s.recent;
      }
