-- ===== src/Race/Runs.antt =====
-- Any sequence of calls of `RaceService`, from the user interface and from the telemetry runner.
pub mod OneRunning
pub mod LapNumbers
use carrera_monitor.Prelude.{ℕ, String, Bool, ◌≡◌, Option, none, List, [], ◌∷◌}
use carrera_monitor.Event.{TelemetryEvent}
use carrera_monitor.Race.Model.{TriggeredBy, Database}
use carrera_monitor.Race.Repository.{get_race}
use carrera_monitor.Race.App.{App, RaceManagementConfig}
use carrera_monitor.Race.Schema.{RaceForm}
use carrera_monitor.Race.Reporting.{FloatEnv}
use carrera_monitor.Race.Lifecycle
use carrera_monitor.Race.Crud
use carrera_monitor.Race.SafetyCar
use carrera_monitor.Race.Ingest
use carrera_monitor.Race.Recovery.{HasKeys}

-- A call, with the key that the database would give the row that it inserts.
pub data Call (F : Type 0) : Type 0 where
  create_race : ℕ → RaceForm → Call F
  update_race : ℕ → RaceForm → Call F
  delete_race : ℕ → Call F
  repeat_race : ℕ → ℕ → Option String → Call F
  mark_ready start_race pause_race resume_race cancel_race : ℕ → Call F
  finish_race : TriggeredBy → ℕ → Call F
  set_safety_car : ℕ → Bool → Call F
  is_safety_car_active : ℕ → Call F
  record_lap record_event : TelemetryEvent F → Call F
  recover_on_startup : Call F

module _ {F : Type 0} where
  unfoldable pub perform : RaceManagementConfig → FloatEnv → ℕ → Call F → App F → App F
  perform cfg env now (create_race id f) s = (Crud.create_race cfg id now f s).1
  perform cfg env now (update_race k f) s = (Crud.update_race cfg now k f s).1
  perform cfg env now (delete_race k) s = (Crud.delete_race k s).1
  perform cfg env now (repeat_race id k name) s = (Crud.repeat_race cfg id now k name s).1
  perform cfg env now (mark_ready k) s = (Lifecycle.mark_ready cfg now k s).1
  perform cfg env now (start_race k) s = (Lifecycle.start_race cfg now k s).1
  perform cfg env now (pause_race k) s = (Lifecycle.pause_race cfg now k s).1
  perform cfg env now (resume_race k) s = (Lifecycle.resume_race cfg now k s).1
  perform cfg env now (cancel_race k) s = (Lifecycle.cancel_race cfg env now k s).1
  perform cfg env now (finish_race by k) s = (Lifecycle.finish_race cfg env now by k s).1
  perform cfg env now (set_safety_car k b) s = (SafetyCar.set_safety_car now k b s).1
  perform cfg env now (is_safety_car_active k) s = (SafetyCar.is_safety_car_active k s).1
  perform cfg env now (record_lap e) s = Ingest.record_lap cfg env now e s
  perform cfg env now (record_event e) s = Ingest.record_event cfg e s
  perform cfg env now recover_on_startup s = Ingest.recover_on_startup cfg now s

  -- Primary keys are unique: the database gives a new row a key that no row has, and the key of a
  -- row that the recovery lists finds that row.
  abbrev pub RespectsKeys : Call F → App F → Type 0
  RespectsKeys (create_race id f) s = get_race s.db id ≡ none
  RespectsKeys (repeat_race id k name) s = get_race s.db id ≡ none
  RespectsKeys recover_on_startup s = HasKeys s.db
  RespectsKeys _ s = Unit

  -- The states that calls lead to, at any times.
  pub data Reaches (cfg : RaceManagementConfig) (env : FloatEnv) (s : App F) : App F → Type 0 where
    here : Reaches cfg env s s
    next :
        {t : App F} (now : ℕ) (c : Call F)
        → Reaches cfg env s t
        → RespectsKeys c t
        → Reaches cfg env s (perform cfg env now c t)
