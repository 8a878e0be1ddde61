-- ===== src/Storage/Tests.antt =====
-- A writer at concrete data.
use carrera_monitor.Prelude.{ℕ, true, ◌≡◌, refl, none, some, List, [], ◌∷◌}
use carrera_monitor.Event.{TelemetryEvent, Payload, Source}
use carrera_monitor.Storage.{
  JsonlEventWriter, stop, lap_rows, run_once, collect_batch, take_up_to, write_batch,
}
use carrera_monitor.Queue.{get_nowait, offer, put_nowait}
use carrera_monitor.Storage.Batches.{IsOpen, no_faults}
use carrera_monitor.Storage.Written.{Action, publishes, iterates, act_all, FindRoom, stop-logged}

abbrev lap_event : ℕ → ℕ → TelemetryEvent ℕ
lap_event car n = record {
  timestamp_iso = 10;
  timestamp_monotonic_ms = 10;
  source = Source.mock;
  car_id = some car;
  controller_id = none;
  payload = Payload.lap n 7000 none;
}

abbrev speed_event : TelemetryEvent ℕ
speed_event = record {
  timestamp_iso = 11;
  timestamp_monotonic_ms = 11;
  source = Source.mock;
  car_id = some 1;
  controller_id = none;
  payload = Payload.speed 40;
}

-- Its queue has room for two events.
abbrev writer : JsonlEventWriter ℕ
writer = record {
  queue = record { maxsize = 2; items = [] };
  jsonl_enabled = true;
  csv_enabled = true;
  is_jsonl_open = true;
  is_csv_open = true;
  jsonl_lines = [];
  csv_rows = [];
}

abbrev actions : List (Action ℕ)
actions =
    publishes (lap_event 1 1) ∷ publishes speed_event ∷ iterates ∷ publishes (lap_event 2 1) ∷ []

writer-IsOpen : IsOpen writer
unfolding IsOpen
writer-IsOpen = (refl, refl)

-- Three events are published; the task empties the queue before the last.
actions-FindRoom : FindRoom actions writer
unfolding run_once collect_batch take_up_to get_nowait offer put_nowait write_batch
actions-FindRoom = (refl, (refl, (refl, tt)))

stop-logged_example :
    ((stop no_faults (act_all actions writer)).queue.items ≡ [])
    × (((stop no_faults (act_all actions writer)).jsonl_lines
          ≡ lap_event 1 1 ∷ speed_event ∷ lap_event 2 1 ∷ [])
        × ((stop no_faults (act_all actions writer)).csv_rows
            ≡ (record { car_id = 1; lap_number = 1; lap_time_ms = 7000; timestamp_iso = 10 })
              ∷ (record { car_id = 2; lap_number = 1; lap_time_ms = 7000; timestamp_iso = 10 })
              ∷ []))
unfolding lap_rows
stop-logged_example = stop-logged actions writer writer-IsOpen actions-FindRoom
