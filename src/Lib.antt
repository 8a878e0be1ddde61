-- ===== src/Lib.antt =====
-- carrera-monitor: a telemetry pipeline and race manager for the Carrera Digital slot-car track.
--
-- A producer (live adapter or mock) translates raw frames into canonical events; an event bus fans
-- them out to a state manager, a log writer and the race runner; the race runner hands laps and
-- other events to the race service, which keeps races, laps and their reports in an SQLite database.
--
-- Race/ models the race management:
--   Race.Model, Race.Schema   the rows of src/models.py and the forms of src/schemas/race_schema.py
--   Race.Repository           src/repositories/race_repository.py with the constraints of the tables
--   Race.Reporting            src/services/reporting_service.py (statistics, standings, summary)
--   Race.App                  the state of `RaceService`: database, `ActiveRaceContext`
--                             (src/race_context.py), safety-car cache; errors and configuration
--   Race.Lifecycle, Race.Crud, Race.SafetyCar, Race.Ingest
--                             the methods of `RaceService` (src/services/race_service.py), with the
--                             checkpoint helpers of src/services/live_continuity.py
--   Race.Runner               `RaceTelemetryRunner` of src/race_runner.py
--   Race.Runs                 any sequence of calls of the service
--   Race.Transition, Race.Rows, Race.LapRows, Race.Crossing, Race.Exclusive, Race.Numbering,
--   Race.Recovery, Race.Restart, Race.Duplicates, Race.StartFailure, Race.Standings,
--   Race.SafetyCar.Reading, Race.Crud.Repeating, Race.Runner.Ticking   proofs
--   Race.Tests, Race.Standings.Tests, Race.Runner.Tests   runs at concrete data
-- Queue and Bus model src/event_bus.py: asyncio's bounded queue, `EventBus` with its subscriptions
-- and warnings, and (Bus.Steps) any interleaving of publishes, reads, subscriptions and closes.
-- Continuity models src/services/live_continuity.py: `CarSlotMapping`, `ActiveCarDetector` and
-- `LinkHealthTracker`. State models src/state_manager.py and src/telemetry_processor.py: State.Model
-- (the state), State.Apply (`StateManager.apply`), State.Snapshot (`StateManager.snapshot`), and the
-- proofs in State.Cars, State.Grown, State.Aggregates, State.Counts and State.Recent. Tests has
-- runs of these at concrete data.
-- Event models src/event_model.py: events as they are once they are validated, the payload of each
-- event type as a constructor; Event.Validation is the validator on a payload dictionary, and
-- Event.Typed reads the typed payload from an accepted dictionary (Event.Typed.Accepted: proofs).
-- Value has the values of such a dictionary, and what Python's numbers and texts do, as the
-- functions of `Python`.
-- Client models src/carrera_client.py:
--   Client.Frames             `translate_raw_frame`; `none` is an exception
--   Client.Adapter            `LiveCarreraAdapter` with `_translate_timer`, and
--                             (Client.Adapter.Frames) `_translate_status`, and
--                             (Client.Adapter.Connect) `connect`
--   Client.ReadLoop           a round of `_read_loop`: one `cu.poll`, its timeout or its frame
--   Client.Runner             `CarreraClientRunner`: `_run` cut at its waits, and any steps of it
--                             (Client.Runner.Reachable)
--   Client.Frames.Laps, Client.Adapter.Connect.Target, Client.Adapter.Mapping,
--   Client.Adapter.Cars, Client.Adapter.Timers, Client.ReadLoop.Watchdog,
--   Client.ReadLoop.LapEvents, Client.ReadLoop.Crossings, Client.ReadLoop.Rounds,
--   Client.Runner.Backoff   proofs
-- Bluetooth models the files src/state/bluetooth_state.py, src/schemas/bluetooth_schema.py,
-- `BluetoothConfig` of src/config.py and:
--   Bluetooth.Settings        src/services/runtime_settings.py, the file as a record
--   Bluetooth.Supervisor      src/services/bluetooth_connection_supervisor.py: the state, scans and
--                             events; Bluetooth.Supervisor.Connecting is `_connect_cycle`,
--                             Bluetooth.Supervisor.Pumping `_pump_live_events_once`,
--                             Bluetooth.Supervisor.Rounds an iteration of `_run`,
--                             Bluetooth.Supervisor.Calls the public methods
--   Bluetooth.Service         src/services/bluetooth_service.py: the requests and the buttons
--   Bluetooth.Payload         the dictionary of an event of the supervisor
--   Bluetooth.Settings.Commands, Bluetooth.Supervisor.Holding, Bluetooth.Supervisor.Adapters,
--   Bluetooth.Supervisor.Delays, Bluetooth.Service.Requests, Bluetooth.Service.Connect,
--   Bluetooth.Service.Recovery, Bluetooth.Service.ScanButton   proofs
-- Storage models src/storage.py: `JsonlEventWriter`, its batches and files (Storage.Batches and
-- Storage.Written have the proofs). Client.Tests, Bluetooth.Tests, Storage.Tests and
-- Event.Tests have runs at concrete data.
-- Prelude holds shared helpers.
--
-- The parts meet in the events: the frames of Client become the events that Bus delivers to the
-- queues of Storage, State and Race.Runner; Bluetooth.Supervisor reads the adapter's events and the
-- settings that Bluetooth.Service writes.
--
-- A method of the service is a function from a state to a result or an error, and a state. Each
-- database session is one step: what a session writes before an exception is rolled back, and a
-- statement that the constraints of the tables refuse is an error value; an event row that they
-- refuse leaves the tables as they were, as `record_event` logs the error and rolls back. Other
-- database failures (a locked or broken file) are not modelled. Primary keys of new rows and the wall clock are
-- arguments; a call reads the clock once. Python's floats enter as arguments: where the reports
-- divide and measure a duration, as the two functions of `FloatEnv`, and where the live aggregate
-- clamps and divides, as those of `FloatOps`. JSON columns hold the values
-- that they encode. No function of the model uses fuel: every loop runs over a list, and
-- `_collect_batch` over its bound of 512 events. A loop of asyncio is a list of its rounds or a step
-- relation: what the adapter, the scan and the clock do in a round is an argument of it. The public
-- methods of the supervisor fall between two iterations of its loop.
--
-- Not modelled: the scheduling of asyncio's tasks and what falls inside a round, what carreralib
-- does with the hardware, the mock adapter, the entry points, the Streamlit
-- pages and the dashboard server, log messages, the names of log files, the reading and writing of
-- the settings and state files, the `metadata` and `raw_data` of events, and the libraries
-- (SQLAlchemy, pydantic, carreralib, asyncio).
pub mod Prelude
pub mod Value
pub mod Event
pub mod Queue
pub mod Bus
pub mod Continuity
pub mod Client
pub mod Bluetooth
pub mod Storage
pub mod State
pub mod Race
pub mod Tests
