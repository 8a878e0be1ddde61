-- ===== src/Race/Runner.antt =====
-- race_runner.py: `RaceTelemetryRunner`, which hands the events of the bus to the race service and
-- finishes races of fixed duration. A body of its two loops is one step; an exception of the
-- service is logged and dropped. Times are microseconds, in UTC.
pub mod Ticking
mod Tests
use carrera_monitor.Prelude.{
  ℕ, ◌+◌, ◌*◌, Bool, true, false, ◌&&◌, Option, none, some, leb, if◌then◌else◌,
}
use carrera_monitor.Event.{TelemetryEvent, Payload, RaceState}
use carrera_monitor.Race.Model.{Race, RaceMode, fixed_laps, fixed_duration, running, TriggeredBy}
use carrera_monitor.Race.Repository.{get_race, same_status}
use carrera_monitor.Race.App.{App, RaceManagementConfig}
use carrera_monitor.Race.Reporting.{FloatEnv}
use carrera_monitor.Race.Lifecycle.{finish_race}
use carrera_monitor.Race.Ingest.{record_lap, record_event}

-- The service with the runner's own state.
pub record Runner (F : Type 0) : Type 0 where
  pub service : App F
  pub latest_race_state : Option RaceState

abbrev pub is_timed : RaceMode → Bool
is_timed fixed_duration = true
is_timed fixed_laps = false

-- `elapsed >= race.duration_seconds`
abbrev pub elapsed : ℕ → Option ℕ → Option ℕ → Bool
elapsed now (some started) (some seconds) = leb (started + seconds * 1000000) now
elapsed now _ _ = false

unfoldable pub is_due : ℕ → Race → Bool
is_due now race =
    same_status race.status running
    && is_timed race.mode
    && elapsed now race.started_at race.duration_seconds

module _ {F : Type 0} where
  abbrev pub seen_state : Payload F → Option RaceState → Option RaceState
  seen_state (Payload.race_state r) old = some r
  seen_state _ old = old

  abbrev pub pass_on :
      RaceManagementConfig → FloatEnv → Bool → ℕ → TelemetryEvent F → Payload F → App F → App F
  pass_on cfg env persist_all now e (Payload.lap _ _ _) s = record_lap cfg env now e s
  pass_on cfg env persist_all now e _ s = if persist_all then record_event cfg e s else s

  -- `_dispatch`
  unfoldable pub dispatch :
      RaceManagementConfig → FloatEnv → Bool → ℕ → TelemetryEvent F → Runner F → Runner F
  dispatch cfg env persist_all now e r =
      let seen = seen_state e.payload r.latest_race_state in
      elim r.service.active [
        | none ↦ record { service = r.service; latest_race_state = seen }
        | some k ↦ record {
          service = pass_on cfg env persist_all now e e.payload r.service;
          latest_race_state = seen;
        }
      ]

  -- A round of `_fixed_duration_ticker`.
  unfoldable pub tick : RaceManagementConfig → FloatEnv → ℕ → App F → App F
  unfolding is_due
  tick cfg env now s = elim s.active [
    | none ↦ s
    | some k ↦ elim (get_race s.db k) [
      | none ↦ s
      | some race ↦ if is_due now race then (finish_race cfg env now TriggeredBy.auto k s).1 else s
    ]
  ]
