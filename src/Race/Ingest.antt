-- ===== src/Race/Ingest.antt =====
-- services/race_service.py: `record_lap`, `record_event`, the automatic finish and the recovery
-- after a restart, with the checkpoint helpers of services/live_continuity.py.
use carrera_monitor.Prelude.{
  ℕ, ◌+◌, Bool, true, false, Option, none, some, List, [], ◌∷◌, leb, if◌then◌else◌,
}
use carrera_monitor.Event.{TelemetryEvent, event_type, lap_time_ms, cu_timestamp}
use carrera_monitor.Event
use mathlib.Core.Option
use carrera_monitor.Race.Model.{
  Race, Driver, Lap, running, RaceMode, fixed_laps, Checkpoint, RowType, RowPayload, TriggeredBy,
  Database,
}
use carrera_monitor.Race.Repository.{
  get_race, find_driver, insert_lap_identity_if_new, get_lap_checkpoint, upsert_lap_checkpoint,
  count_laps_for_car, add_lap, add_event, lap_count_by_car, max_count, list_races, is_live,
}
use carrera_monitor.Race.Reporting.{FloatEnv}
use carrera_monitor.Race.App.{App, RaceManagementConfig, set_active}
use carrera_monitor.Race.Lifecycle.{finish_race, pause_race}

-- `_extract_cu_timestamp`
unfoldable pub extract_cu_timestamp : {F : Type 0} → TelemetryEvent F → ℕ
extract_cu_timestamp e = elim (cu_timestamp e.payload) [
  | some t ↦ t
  | none ↦ e.timestamp_monotonic_ms
]

abbrev is_lap : Event.EventType → Bool
is_lap Event.EventType.lap = true
is_lap _ = false

abbrev lap_count_of : Option Checkpoint → ℕ
lap_count_of none = 0
lap_count_of (some p) = p.lap_count

abbrev pub lap_row : ℕ → Driver → ℕ → ℕ → ℕ → Lap
lap_row k d n time_ms stamp = record {
  race_id = k;
  car_id = d.car_id;
  driver_name = d.driver_name;
  lap_number = n;
  lap_time_ms = time_ms;
  timestamp_iso = stamp;
}

abbrev pub checkpoint_row : ℕ → ℕ → Driver → ℕ → ℕ → Checkpoint
checkpoint_row now k d cu_ts n = record {
  race_id = k;
  car_id = d.car_id;
  last_cu_timestamp_ms = cu_ts;
  lap_count = n;
  updated_at = now;
}

module _ {F : Type 0} where
  abbrev pub seed_row : ℕ → Database F → ℕ → ℕ → Checkpoint
  seed_row now db k c = record {
    race_id = k;
    car_id = c;
    last_cu_timestamp_ms = 0;
    lap_count = count_laps_for_car db k c;
    updated_at = now;
  }

  -- `LiveContinuityService.seed_from_existing_laps`
  unfoldable pub seed_from_existing_laps : ℕ → Database F → ℕ → ℕ → Database F
  seed_from_existing_laps now db k c = upsert_lap_checkpoint db (seed_row now db k c)

  -- The checkpoint is seeded from the lap table where there is none.
  unfoldable pub ensure_checkpoint : ℕ → Database F → ℕ → ℕ → Database F
  ensure_checkpoint now db k c = elim (get_lap_checkpoint db k c) [
    | none ↦ seed_from_existing_laps now db k c
    | some p ↦ db
  ]

  -- The number of the lap that a crossing completes.
  unfoldable pub next_number : Database F → ℕ → ℕ → ℕ
  next_number db k c = lap_count_of (get_lap_checkpoint db k c) + 1

  -- The lap row and the checkpoint of one crossing; `none` is an `SQLAlchemyError`, after which the
  -- session is rolled back.
  unfoldable pub write_lap : ℕ → ℕ → Driver → ℕ → ℕ → ℕ → Database F → Option (Database F)
  write_lap now k d cu_ts time_ms stamp db =
      let n = next_number db k d.car_id in
      Option.map (λ db'. upsert_lap_checkpoint db' (checkpoint_row now k d cu_ts n))
        (add_lap db (lap_row k d n time_ms stamp))

  -- `_maybe_auto_finish`; an `InvalidRaceStateError` is suppressed.
  unfoldable pub maybe_auto_finish : RaceManagementConfig → FloatEnv → ℕ → ℕ → ℕ → App F → App F
  maybe_auto_finish cfg env now k target s =
      if leb target (max_count (lap_count_by_car s.db k))
      then (finish_race cfg env now TriggeredBy.auto k s).1
      else s

  -- `if race.mode == "fixed_laps" and race.lap_target is not None`
  unfoldable pub finish_by :
      RaceManagementConfig → FloatEnv → ℕ → ℕ → RaceMode → Option ℕ → App F → App F
  finish_by cfg env now k fixed_laps (some target) s = maybe_auto_finish cfg env now k target s
  finish_by cfg env now k _ _ s = s

  abbrev pub finish_after : RaceManagementConfig → FloatEnv → ℕ → Race → App F → App F
  finish_after cfg env now race s = finish_by cfg env now race.id race.mode race.lap_target s

  -- From the registration of the crossing on, for a running race and a driver of it.
  unfoldable pub record_crossing :
      RaceManagementConfig → FloatEnv → ℕ → Race → Driver → ℕ → ℕ → ℕ → App F → App F
  record_crossing cfg env now race d cu_ts time_ms stamp s =
      let (db, is_new) =
        insert_lap_identity_if_new s.db
          (record { race_id = race.id; car_id = d.car_id; cu_timestamp_ms = cu_ts }) in
      if is_new
      then (elim (write_lap now race.id d cu_ts time_ms stamp
          (ensure_checkpoint now db race.id d.car_id)) [
            | none ↦ s
            | some db' ↦ finish_after cfg env now race (record s { db = db' })
          ])
      else record s { db = db }

  -- The body of `record_lap` once its event is known for a lap of car `c`.
  unfoldable pub lap_of_race :
      RaceManagementConfig → FloatEnv → ℕ → ℕ → ℕ → ℕ → TelemetryEvent F → App F → App F
  lap_of_race cfg env now k c time_ms e s = elim (get_race s.db k) [
    | none ↦ record s { active = none }
    | some race ↦ elim race.status [
      | running ↦ elim (find_driver c race.drivers) [
        | none ↦ s
        | some d ↦
            record_crossing cfg env now race d (extract_cu_timestamp e) time_ms e.timestamp_iso s
      ]
      | _ ↦ s
    ]
  ]

  unfoldable pub record_lap : RaceManagementConfig → FloatEnv → ℕ → TelemetryEvent F → App F → App F
  record_lap cfg env now e s = elim s.active [
    | none ↦ s
    | some k ↦ elim (lap_time_ms e.payload) [
      | none ↦ s
      | some time_ms ↦ elim e.car_id [ none ↦ s | some c ↦ lap_of_race cfg env now k c time_ms e s ]
    ]
  ]

  unfoldable pub record_event : RaceManagementConfig → TelemetryEvent F → App F → App F
  record_event cfg e s =
      if cfg.persist_all_events
      then (elim s.active [
        | none ↦ s
        | some k ↦ elim (get_race s.db k) [
          | none ↦ s
          | some race ↦
              if is_live race.status
              then record s {
                db = add_event s.db (record {
                  race_id = k;
                  timestamp_iso = e.timestamp_iso;
                  event_type = RowType.telemetry (event_type e);
                  car_id = e.car_id;
                  payload = RowPayload.telemetry e.payload;
                });
              }
              else s
        ]
      ])
      else s

  unfoldable pub seed_drivers : ℕ → ℕ → List Driver → Database F → Database F
  seed_drivers now k [] db = db
  seed_drivers now k (d ∷ ds) db = seed_drivers now k ds (seed_from_existing_laps now db k d.car_id)

  unfoldable pub seed_race : ℕ → ℕ → App F → App F
  seed_race now k s = elim (get_race s.db k) [
    | none ↦ s
    | some race ↦ record s { db = seed_drivers now k race.drivers s.db }
  ]

  -- One race of the loop in `recover_on_startup`.
  unfoldable pub recover_one : RaceManagementConfig → ℕ → ℕ → App F → App F
  recover_one cfg now k s =
      let t = seed_race now k s in
      if cfg.recover_running_race then set_active k t else (pause_race cfg now k t).1

  unfoldable pub recover_all : RaceManagementConfig → ℕ → List Race → App F → App F
  recover_all cfg now [] s = s
  recover_all cfg now (r ∷ rs) s = recover_all cfg now rs (recover_one cfg now r.id s)

  -- The repository lists a hundred races at most.
  unfoldable pub recover_on_startup : RaceManagementConfig → ℕ → App F → App F
  recover_on_startup cfg now s = recover_all cfg now (list_races s.db (some running) 100 0) s
