-- ===== src/Race/Exclusive/Telemetry.antt =====
-- The safety car, the telemetry ingest and the recovery after a restart keep the invariant of the
-- running race.
use carrera_monitor.Prelude.{
  ℕ, Bool, ◌≡◌, refl, ◌∙◌, inl, inr, Option, some, leb, arith, Bool-cases,
}
use carrera_monitor.Event.{TelemetryEvent}
use carrera_monitor.Race.Model.{Race, Driver, RaceMode, fixed_laps, TriggeredBy}
use carrera_monitor.Race.Repository.{add_event, max_count, lap_count_by_car}
use carrera_monitor.Race.App.{App, RaceManagementConfig, drop_safety_car}
use carrera_monitor.Race.SafetyCar.{
  cache_safety_car, is_safety_car_active, toggle_row, set_safety_car,
}
use carrera_monitor.Race.Reporting.{FloatEnv}
use carrera_monitor.Race.Ingest.{
  maybe_auto_finish, finish_by, record_crossing, lap_of_race, record_lap, record_event,
  extract_cu_timestamp,
}
use carrera_monitor.Race.Crossing.{crossing_cases, crossing_races, lap_cases, record_lap_cases}
use carrera_monitor.Race.Rows.{status-same_races, status-missing}
use carrera_monitor.Race.Exclusive.{IsExclusive}
use carrera_monitor.Race.Exclusive.Leaving.{finish_race-IsExclusive}

module _ {F : Type 0} where
  -- A write to other tables than `races`.
  same_races-IsExclusive :
      (s t : App F) → t.db.races ≡ s.db.races → t.active ≡ s.active → IsExclusive s → IsExclusive t
  same_races-IsExclusive s t r a x = record {
    only = λ j h. a ∙ x.only j (rw (status-same_races t.db s.db j r) at h);
  }

  module _ (cfg : RaceManagementConfig) (env : FloatEnv) (now : ℕ) (s : App F)
      (x : IsExclusive s) where
    pub record_event-IsExclusive : (e : TelemetryEvent F) → IsExclusive (record_event cfg e s)
    record_event-IsExclusive e =
        same_races-IsExclusive s (record_event cfg e s)
          (unfold record_event add_event in ground arith)
          (unfold record_event add_event in ground arith) x

    pub set_safety_car-IsExclusive : (k : ℕ) (b : Bool) → IsExclusive (set_safety_car now k b s).1
    set_safety_car-IsExclusive k b =
        same_races-IsExclusive s (set_safety_car now k b s).1
          (unfold set_safety_car is_safety_car_active toggle_row cache_safety_car drop_safety_car
              add_event in
            ground arith)
          (unfold set_safety_car is_safety_car_active toggle_row cache_safety_car drop_safety_car
              add_event in
            ground arith)
          x

    pub is_safety_car_active-IsExclusive : (k : ℕ) → IsExclusive (is_safety_car_active k s).1
    is_safety_car_active-IsExclusive k =
        same_races-IsExclusive s (is_safety_car_active k s).1
          (unfold is_safety_car_active cache_safety_car drop_safety_car in ground arith)
          (unfold is_safety_car_active cache_safety_car drop_safety_car in ground arith) x

  module _ (cfg : RaceManagementConfig) (env : FloatEnv) (now : ℕ) where
    maybe_auto_finish-IsExclusive :
        (k target : ℕ) (s : App F)
        → IsExclusive s
        → IsExclusive (maybe_auto_finish cfg env now k target s)
    unfolding maybe_auto_finish
    maybe_auto_finish-IsExclusive k target s x =
        elim (Bool-cases (leb target (max_count (lap_count_by_car s.db k)))) [
          | inl done ↦ rw done (finish_race-IsExclusive cfg now k s x env TriggeredBy.auto)
          | inr more ↦ rw more x
        ]

    finish_by-IsExclusive :
        (k : ℕ) (mode : RaceMode) (target : Option ℕ) (s : App F)
        → IsExclusive s
        → IsExclusive (finish_by cfg env now k mode target s)
    unfolding finish_by
    finish_by-IsExclusive k fixed_laps (some target) s x =
        maybe_auto_finish-IsExclusive k target s x
    finish_by-IsExclusive k _ _ s x = x

    record_crossing-IsExclusive :
        (race : Race) (d : Driver) (cu time stamp : ℕ) (s : App F)
        → IsExclusive s
        → IsExclusive (record_crossing cfg env now race d cu time stamp s)
    record_crossing-IsExclusive race d cu time stamp s x =
        elim (crossing_cases cfg env now race d cu time stamp s) [
          | inl (inl dup) ↦ rw dup.1 x
          | inl (inr rolled_back) ↦ rw rolled_back.2 x
          | inr (db', fresh, wrote, eq) ↦ rw eq (
              finish_by-IsExclusive race.id race.mode race.lap_target _ (
                same_races-IsExclusive s _ (crossing_races now race d cu time stamp s.db db' wrote)
                  refl x))
        ]

    lap_of_race-IsExclusive :
        (k c time : ℕ) (e : TelemetryEvent F) (s : App F)
        → s.active ≡ some k
        → IsExclusive s
        → IsExclusive (lap_of_race cfg env now k c time e s)
    lap_of_race-IsExclusive k c time e s a x = elim (lap_cases cfg env k c time e s) [
      | inl (inl (gone, eq)) ↦
          rw (eq now)
            (record { only = λ j r. absurd (ground (arith, x.only j, status-missing s.db k gone)) })
      | inl (inr eq) ↦ rw (eq now) x
      | inr (race, d, found, runs_now, driver, eq) ↦
          rw (eq now)
            (record_crossing-IsExclusive race d (extract_cu_timestamp e) time e.timestamp_iso s x)
    ]

    pub record_lap-IsExclusive :
        (e : TelemetryEvent F) (s : App F)
        → IsExclusive s
        → IsExclusive (record_lap cfg env now e s)
    record_lap-IsExclusive e s x = elim (record_lap_cases cfg env e s) [
      | inl same ↦ rw (same now) x
      | inr (k, c, time, a, car, t, eq) ↦ rw (eq now) (lap_of_race-IsExclusive k c time e s a x)
    ]
