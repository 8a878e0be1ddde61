-- ===== src/Race/Tests.antt =====
-- Race management at concrete data: runs that can be followed in the source, and the theorems at
-- inputs where their hypotheses hold.
use carrera_monitor.Prelude.{
  ℕ, ◌+◌, ◌-◌, ◌/◌, ◌≡◌, ◌↔◌, ◌≤◌, refl, true, false, none, some, List, [], ◌∷◌, ◌++◌, arith,
}
use carrera_monitor.Prelude.Int.{pos}
use carrera_monitor.Event.{TelemetryEvent, Payload, Source}
use carrera_monitor.Race.Model.{
  Race, RaceStatus, draft, running, paused, finished, fixed_laps, Driver, Database, parse_status,
}
use carrera_monitor.Race.Repository.{
  get_race, to_read, find_race, has_lap, count_laps, has_identity, find_driver, put_race, save_race,
  add_event, find_checkpoint, accepts_names,
}
use carrera_monitor.Race.App.{App, RaceManagementConfig, ok, err, invalid_race_state, set_active}
use carrera_monitor.Race.Reporting.{FloatEnv}
use carrera_monitor.Race.Lifecycle.{
  start_race, transition, check_transition, valid_transitions, log_method, moved, auto_pause,
}
use carrera_monitor.Race.Recovery.{HasKeys}
use carrera_monitor.Race.Restart.{restarted, restarted-IsExclusive}
use carrera_monitor.Race.Ingest.{record_lap, recover_on_startup, lap_row, extract_cu_timestamp}
use carrera_monitor.Race.Rows.{status_of}
use carrera_monitor.Race.Exclusive.{IsExclusive}
use carrera_monitor.Race.Exclusive.Editing.{StartsIdle}
use carrera_monitor.Race.Runs.{Call, Reaches, perform}
use carrera_monitor.Race.Runs.OneRunning.{one_running}
use carrera_monitor.Race.Runs.LapNumbers.{laps_numbered}
use carrera_monitor.Race.Numbering.{IsNumbered}
use carrera_monitor.Race.Numbering.Recorded.{record_lap_appends}
use carrera_monitor.Race.Duplicates.{record_lap_twice}
use carrera_monitor.Race.SafetyCar.{set_safety_car, is_safety_car_active}
use carrera_monitor.Race.SafetyCar.Reading.{set_safety_car_reads}
use mathlib.Core.List.{Perm}
use carrera_monitor.Race.Crud.{repeat_race, copy_row, new_row, copy_form, copy_name}
use carrera_monitor.Race.Schema.{is_valid}
use carrera_monitor.Prelude.Sort.{sort_by}
use carrera_monitor.Race.Crud.Repeating.{limit, repeat_race_copies}
use carrera_monitor.Race.StartFailure.{refused_start_pauses}

abbrev cfg : RaceManagementConfig
cfg = record {
  persist_all_events = true;
  allow_edit_running_race = false;
  default_race_status_after_create = "draft";
  recover_running_race = true;
}

abbrev env : FloatEnv
env = record { round_average = λ t n. t / n; elapsed_ms = λ a b. pos ((b - a) / 1000) }

abbrev ada : Driver
ada = record { car_id = 1; driver_name = "Ada" }

abbrev bob : Driver
bob = record { car_id = 2; driver_name = "Bob" }

abbrev sprint : ℕ → RaceStatus → Race
sprint k st = record {
  id = k;
  name = "sprint";
  mode = fixed_laps;
  lap_target = some 3;
  duration_seconds = none;
  driver_count = 2;
  status = st;
  notes = none;
  source_race_id = none;
  created_at = 10;
  updated_at = 10;
  started_at = none;
  finished_at = none;
  drivers = ada ∷ bob ∷ [];
}

abbrev tables : List Race → Database ℕ
tables rs = record {
  races = rs;
  laps = [];
  checkpoints = [];
  identities = [];
  events = [];
  reports = [];
}

-- Two races, neither started.
abbrev paddock : App ℕ
paddock = record {
  db = tables (sprint 1 draft ∷ sprint 2 draft ∷ []);
  active = none;
  safety_car_active = [];
}

-- The first race runs, the second is over.
abbrev track : App ℕ
track = record {
  db = tables (sprint 1 running ∷ sprint 2 finished ∷ []);
  active = some 1;
  safety_car_active = [];
}

abbrev lap_event : ℕ → ℕ → TelemetryEvent ℕ
lap_event c cu = record {
  timestamp_iso = 5000;
  timestamp_monotonic_ms = 5;
  source = Source.mock;
  car_id = some c;
  controller_id = none;
  payload = Payload.lap 1 6400 (some cu);
}

paddock-IsExclusive : IsExclusive paddock
unfolding status_of get_race find_race
paddock-IsExclusive = record { only = λ j r. absurd (ground arith) }

empty-IsNumbered : (rs : List Race) → IsNumbered (tables rs)
unfolding has_lap count_laps find_checkpoint
empty-IsNumbered rs = record { numbers = λ k c n. ground arith; counted = λ k c p h. cc }

cfg-StartsIdle : StartsIdle cfg
unfolding parse_status
cfg-StartsIdle e = cc

-- Both races are started, one after the other.
abbrev started : App ℕ
started = perform cfg env 30 (Call.start_race 2) (perform cfg env 20 (Call.start_race 1) paddock)

started-Reaches : Reaches cfg env paddock started
started-Reaches =
    Reaches.next 30 (Call.start_race 2) (Reaches.next 20 (Call.start_race 1) Reaches.here tt) tt

second_runs : status_of started.db 2 ≡ some running
unfolding status_of get_race find_race perform start_race transition auto_pause set_active
    check_transition valid_transitions save_race put_race log_method moved add_event
second_runs = refl

one_running_example : (◌≡◌ {A = ℕ} 2 2) × (started.active ≡ some 2)
one_running_example =
    one_running cfg env cfg-StartsIdle paddock-IsExclusive started-Reaches 2 2 second_runs
      second_runs

refused_start_pauses_example :
    let (r, t) = start_race cfg 40 2 track in
    (r ≡ err invalid_race_state) × (status_of t.db 1 ≡ some paused) × (t.active ≡ some 1)
unfolding status_of get_race find_race check_transition valid_transitions
refused_start_pauses_example =
    refused_start_pauses cfg 40 1 2 track finished refl refl refl refl (omega arith)

-- The state after the first crossing of car 1.
abbrev one_lap : App ℕ
one_lap = record_lap cfg env 50 (lap_event 1 900) track

record_lap_appends_example :
    one_lap.db.laps
    ≡ track.db.laps ++ lap_row 1 ada (count_laps 1 1 track.db.laps + 1) 6400 5000 ∷ []
unfolding get_race find_race find_driver has_identity extract_cu_timestamp
record_lap_appends_example =
    record_lap_appends cfg env 50 (lap_event 1 900) track 1 1 1 6400 (some 900) (sprint 1 running)
      ada (empty-IsNumbered track.db.races) refl refl refl refl refl refl (omega arith)
      (omega arith) (omega arith) refl

record_lap_twice_example : record_lap cfg env 60 (lap_event 1 900) one_lap ≡ one_lap
record_lap_twice_example =
    record_lap_twice cfg env 50 60 (lap_event 1 900) track (empty-IsNumbered track.db.races)

abbrev two_cars : App ℕ
two_cars =
    perform cfg env 60 (Call.record_lap (lap_event 2 950))
      (perform cfg env 50 (Call.record_lap (lap_event 1 900)) track)

two_cars-Reaches : Reaches cfg env track two_cars
two_cars-Reaches =
    Reaches.next 60 (Call.record_lap (lap_event 2 950))
      (Reaches.next 50 (Call.record_lap (lap_event 1 900)) Reaches.here tt) tt

laps_numbered_example :
    (has_lap 1 2 1 two_cars.db.laps ≡ true) ↔ ((1 ≤ 1) × (1 ≤ count_laps 1 2 two_cars.db.laps))
laps_numbered_example =
    laps_numbered cfg env (empty-IsNumbered track.db.races) two_cars-Reaches 1 2 1

set_safety_car_reads_example :
    let (r, t) = set_safety_car 70 1 true track in
    (r ≡ ok true) × ((is_safety_car_active 1 t).0 ≡ true)
unfolding get_race find_race
set_safety_car_reads_example = set_safety_car_reads 70 1 true (sprint 1 running) track refl refl

-- A race of Ada and Bob that is repeated under another name.
abbrev rerun : Race
rerun = to_read (copy_row 3 80 (some "rerun") draft (sprint 2 finished))

repeat_race_copies_example :
    (rerun.mode ≡ fixed_laps)
    × (limit rerun ≡ some 3)
    × (rerun.driver_count ≡ 2)
    × (rerun.notes ≡ none)
    × (rerun.source_race_id ≡ some 2)
    × (rerun.status ≡ draft)
    × Perm rerun.drivers (ada ∷ bob ∷ [])
unfolding get_race find_race repeat_race parse_status is_valid copy_form copy_name sort_by
    accepts_names copy_row new_row
repeat_race_copies_example =
    repeat_race_copies cfg 3 80 2 (some "rerun") (sprint 2 finished) draft track rerun refl refl
      refl

track-IsExclusive : IsExclusive track
unfolding status_of get_race find_race
track-IsExclusive = record { only = λ j r. ground arith }

track-HasKeys : HasKeys track.db
unfolding get_race find_race
track-HasKeys = (refl, (refl, tt))

-- The process stops while the first race runs.
restarted-IsExclusive_example : IsExclusive (recover_on_startup cfg 90 (restarted track))
restarted-IsExclusive_example =
    restarted-IsExclusive cfg env 90 track track-IsExclusive track-HasKeys
