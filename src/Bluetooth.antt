-- ===== src/Bluetooth.antt =====
-- state/bluetooth_state.py, schemas/bluetooth_schema.py and the `BluetoothConfig` of config.py.
-- A time is a natural number, and an empty device id counts as none where the code tests it.
pub mod Settings
pub mod Payload
pub mod Supervisor
pub mod Service
pub mod Tests
use mathlib.Core.Option
use carrera_monitor.Prelude.{
  ℕ, ◌+◌, String, str_eq, Bool, true, false, not, ◌&&◌, ◌||◌, Option, none, some, List, [], ◌∷◌,
  leb, ltb, if◌then◌else◌,
}
use carrera_monitor.Prelude.Int.{ℤ}
use carrera_monitor.Event.{ConnectionState, ConnectionPayload}

pub data BluetoothState : Type 0 where
  disconnected scanning connecting connected subscribing : BluetoothState
  ready stale reconnecting error manually_disconnected : BluetoothState

unfoldable pub is_connecting_state : BluetoothState → Bool
is_connecting_state BluetoothState.scanning = true
is_connecting_state BluetoothState.connecting = true
is_connecting_state BluetoothState.subscribing = true
is_connecting_state BluetoothState.reconnecting = true
is_connecting_state _ = false

unfoldable pub is_connected_state : BluetoothState → Bool
is_connected_state BluetoothState.connected = true
is_connected_state BluetoothState.subscribing = true
is_connected_state BluetoothState.ready = true
is_connected_state BluetoothState.stale = true
is_connected_state _ = false

-- `state.value`, read as the state of an event.
abbrev pub to_connection_state : BluetoothState → ConnectionState
to_connection_state BluetoothState.disconnected = ConnectionState.disconnected
to_connection_state BluetoothState.scanning = ConnectionState.scanning
to_connection_state BluetoothState.connecting = ConnectionState.connecting
to_connection_state BluetoothState.connected = ConnectionState.connected
to_connection_state BluetoothState.subscribing = ConnectionState.subscribing
to_connection_state BluetoothState.ready = ConnectionState.ready
to_connection_state BluetoothState.stale = ConnectionState.stale
to_connection_state BluetoothState.reconnecting = ConnectionState.reconnecting
to_connection_state BluetoothState.error = ConnectionState.error
to_connection_state BluetoothState.manually_disconnected = ConnectionState.manually_disconnected

pub record BluetoothDevice : Type 0 where
  pub device_id : String
  pub device_name : Option String
  pub mac_address : Option String
  pub rssi : Option ℤ

pub record BluetoothConnectionStatus : Type 0 where
  pub state : BluetoothState
  pub desired_connected : Bool
  pub device_id : Option String
  pub device_name : Option String
  pub mac_address : Option String
  pub rssi : Option ℤ
  pub connected_at : Option ℕ
  pub disconnected_at : Option ℕ
  pub last_seen_at : Option ℕ
  pub last_rx_monotonic_ms : Option ℕ
  pub reconnect_attempts : ℕ
  pub last_error : Option String
  pub updated_at : ℕ

pub record BluetoothConfig : Type 0 where
  pub mac_address : Option String
  pub reconnect_interval_seconds : ℕ
  pub max_reconnect_interval_seconds : ℕ
  pub reconnect_backoff_seconds : List ℕ
  pub idle_timeout_seconds : ℕ
  pub idle_warning_seconds : ℕ
  pub stale_timeout_seconds : ℕ
  pub reconnect_on_stale : Bool
  pub allow_manual_connect : Bool
  pub allow_manual_disconnect : Bool
  pub prefer_scan_device_object : Bool

abbrev pub is_empty : List ℕ → Bool
is_empty [] = true
is_empty (n ∷ ns) = false

abbrev pub all_positive : List ℕ → Bool
all_positive [] = true
all_positive (n ∷ ns) = ltb 0 n && all_positive ns

-- The lower bounds of the fields, and `_validate_backoff_and_watchdog`.
unfoldable pub is_valid_config : BluetoothConfig → Bool
is_valid_config c =
    leb 1 c.reconnect_interval_seconds
    && leb 1 c.max_reconnect_interval_seconds
    && leb 3 c.idle_timeout_seconds
    && leb 1 c.idle_warning_seconds
    && leb 1 c.stale_timeout_seconds
    && leb c.reconnect_interval_seconds c.max_reconnect_interval_seconds
    && not (is_empty c.reconnect_backoff_seconds)
    && all_positive c.reconnect_backoff_seconds
    && ltb c.idle_warning_seconds c.idle_timeout_seconds

abbrev pub or_else : Option String → Option String → Option String
or_else none b = b
or_else (some a) b = some a

-- `raw if isinstance(raw, str) and raw else None`
abbrev pub non_empty : Option String → Option String
non_empty none = none
non_empty (some s) = if str_eq s "" then none else some s

-- `to_connection_payload`, with `datetime.isoformat`.
unfoldable pub to_connection_payload :
    (ℕ → String)
    → String
    → Option String
    → Option String
    → BluetoothConnectionStatus
    → ConnectionPayload
to_connection_payload isoformat event reason text s = record {
  state = to_connection_state s.state;
  error = or_else text s.last_error;
  reason = reason;
  timeout_streak = none;
  event = some event;
  desired_connected = some s.desired_connected;
  device_id = s.device_id;
  device_name = s.device_name;
  mac_address = s.mac_address;
  rssi = s.rssi;
  connected_at = Option.map isoformat s.connected_at;
  disconnected_at = Option.map isoformat s.disconnected_at;
  last_seen_at = Option.map isoformat s.last_seen_at;
  last_rx_monotonic_ms = s.last_rx_monotonic_ms;
  reconnect_attempts = some s.reconnect_attempts;
}
