-- ===== src/Race/Runner/Tests.antt =====
-- A race of one minute at a tick after its end.
use carrera_monitor.Prelude.{ℕ, ◌-◌, ◌/◌, ◌≡◌, refl, true, false, none, some, [], ◌∷◌}
use carrera_monitor.Prelude.Int.{pos}
use carrera_monitor.Race.Model.{Race, running, finished, fixed_duration}
use carrera_monitor.Race.Repository.{get_race, find_race}
use carrera_monitor.Race.App.{App, RaceManagementConfig}
use carrera_monitor.Race.Reporting.{FloatEnv}
use carrera_monitor.Race.Rows.{status_of}
use carrera_monitor.Race.Runner.{tick}
use carrera_monitor.Race.Runner.Ticking.{tick_finishes}

abbrev cfg : RaceManagementConfig
cfg = record {
  persist_all_events = false;
  allow_edit_running_race = false;
  default_race_status_after_create = "draft";
  recover_running_race = true;
}

abbrev env : FloatEnv
env = record { round_average = λ t n. t / n; elapsed_ms = λ a b. pos ((b - a) / 1000) }

abbrev minute : Race
minute = record {
  id = 4;
  name = "minute";
  mode = fixed_duration;
  lap_target = none;
  duration_seconds = some 60;
  driver_count = 1;
  status = running;
  notes = none;
  source_race_id = none;
  created_at = 10;
  updated_at = 20;
  started_at = some 20;
  finished_at = none;
  drivers = (record { car_id = 3; driver_name = "Eve" }) ∷ [];
}

abbrev timed : App ℕ
timed = record {
  db = record {
    races = minute ∷ [];
    laps = [];
    checkpoints = [];
    identities = [];
    events = [];
    reports = [];
  };
  active = some 4;
  safety_car_active = [];
}

tick_finishes_example :
    (status_of (tick cfg env 60000020 timed).db 4 ≡ some finished)
    × ((tick cfg env 60000020 timed).active ≡ none)
unfolding get_race find_race
tick_finishes_example =
    tick_finishes cfg env 60000020 4 timed minute 20 60 refl refl refl refl refl refl
