-- ===== src/State/Model.antt =====
-- The state of `StateManager`, and the helpers of telemetry_processor.py.
use carrera_monitor.Prelude.{
  ℕ, String, Bool, true, false, not, Option, none, some, List, [], ltb, if◌then◌else◌,
}
use carrera_monitor.Prelude.Int.{ℤ}
use carrera_monitor.Event.{TelemetryEvent, Payload, RaceState, ConnectionState}
use carrera_monitor.Continuity.{ActiveCarDetector}

pub record FloatOps (F : Type 0) : Type 0 where
  pub of_nat : ℕ → F
  pub less : F → F → Bool
  pub divide : F → F → F

pub record CarState (F : Type 0) : Type 0 where
  pub car_id : ℕ
  pub lap_count : ℕ
  pub lap_samples : ℕ
  pub lap_total_ms : ℕ
  pub best_lap_ms : Option ℕ
  pub latest_lap_ms : Option ℕ
  pub fuel_percent : Option F
  pub in_pit : Bool
  pub last_speed_kmh : Option F
  pub last_event_at_ms : Option ℕ

pub record ConnectionStateRecord : Type 0 where
  pub state : ConnectionState
  pub since_ms : ℕ
  pub last_error : Option String
  pub reason : Option String
  pub timeout_streak : Option ℕ
  pub event : Option String
  pub desired_connected : Bool
  pub device_id : Option String
  pub device_name : Option String
  pub mac_address : Option String
  pub rssi : Option ℤ
  pub connected_at : Option String
  pub disconnected_at : Option String
  pub last_seen_at : Option String
  pub last_rx_monotonic_ms : Option ℕ
  pub reconnect_attempts : ℕ

pub record StateManager (F : Type 0) : Type 0 where
  pub cars : List (CarState F)
  pub race_state : RaceState
  pub connection : ConnectionStateRecord
  pub recent : List (TelemetryEvent F)
  pub active_detector : ActiveCarDetector
  pub processed_lap_events : ℕ
  pub dropped_lap_events : ℕ
  pub last_lap_payload : Option (Payload F)
  pub last_telemetry_at_iso : Option ℕ
  pub last_state_update_at_iso : Option ℕ

abbrev pub recent_events_max : ℕ
recent_events_max = 100

-- `None` is no record yet. A lap time is a natural number, so the `ValueError` does not occur.
unfoldable pub update_best_lap : Option ℕ → ℕ → ℕ
update_best_lap none t = t
update_best_lap (some best) t = if ltb t best then t else best

module _ {F : Type 0} where
  -- `CarState(car_id=car_id)`
  abbrev pub new_car : ℕ → CarState F
  new_car c = record {
    car_id = c;
    lap_count = 0;
    lap_samples = 0;
    lap_total_ms = 0;
    best_lap_ms = none;
    latest_lap_ms = none;
    fuel_percent = none;
    in_pit = false;
    last_speed_kmh = none;
    last_event_at_ms = none;
  }

  -- `StateManager(queue, state_file, active_car_window_ms=window)` at a time.
  abbrev pub new_manager : ℕ → ℕ → StateManager F
  new_manager window now = record {
    cars = [];
    race_state = RaceState.idle;
    connection = record {
      state = ConnectionState.disconnected;
      since_ms = now;
      last_error = none;
      reason = none;
      timeout_streak = none;
      event = none;
      desired_connected = false;
      device_id = none;
      device_name = none;
      mac_address = none;
      rssi = none;
      connected_at = none;
      disconnected_at = none;
      last_seen_at = none;
      last_rx_monotonic_ms = none;
      reconnect_attempts = 0;
    };
    recent = [];
    active_detector = record { window_ms = window; last_seen_ms = [] };
    processed_lap_events = 0;
    dropped_lap_events = 0;
    last_lap_payload = none;
    last_telemetry_at_iso = none;
    last_state_update_at_iso = none;
  }

  unfoldable pub clamp_fuel : FloatOps F → F → F
  clamp_fuel ops x =
      if ops.less x (ops.of_nat 0)
      then ops.of_nat 0
      else if ops.less (ops.of_nat 100) x
      then ops.of_nat 100
      else x

  -- `max(0.0, x)`
  abbrev pub max_zero : FloatOps F → F → F
  max_zero ops x = if ops.less (ops.of_nat 0) x then x else ops.of_nat 0

abbrev pub same {ℓ} : {A : Type ℓ} → (A → A → Bool) → Option A → Option A → Bool
same eq none none = true
same eq (some a) (some b) = eq a b
same eq _ _ = false

abbrev pub bool_eq : Bool → Bool → Bool
bool_eq true b = b
bool_eq false b = not b

abbrev pub state_number : ConnectionState → ℕ
state_number ConnectionState.disconnected = 0
state_number ConnectionState.manually_disconnected = 1
state_number ConnectionState.scanning = 2
state_number ConnectionState.connecting = 3
state_number ConnectionState.connected = 4
state_number ConnectionState.subscribing = 5
state_number ConnectionState.ready = 6
state_number ConnectionState.stale = 7
state_number ConnectionState.degraded = 8
state_number ConnectionState.stalled = 9
state_number ConnectionState.reconnecting = 10
state_number ConnectionState.error = 11
