-- ===== src/Bluetooth/Service.antt =====
-- services/bluetooth_service.py: the requests of `BluetoothService` without a supervisor, where it
-- writes to the settings that the supervisor of another process reads, and what the buttons show.
pub mod Requests
pub mod Connect
pub mod Recovery
pub mod ScanButton
use carrera_monitor.Prelude.{ℕ, String, Bool, true, false, not, ◌&&◌, ◌||◌, Option, none, some}
use carrera_monitor.Bluetooth.{BluetoothState, BluetoothConnectionStatus, is_connected_state}
use carrera_monitor.Bluetooth.Settings.{
  RuntimeSettings, BluetoothCommand, request, set_bluetooth_desired_connected,
  set_bluetooth_selected_device_id,
}

abbrev is_busy : BluetoothState → Bool
is_busy BluetoothState.scanning = true
is_busy BluetoothState.connecting = true
is_busy BluetoothState.subscribing = true
is_busy BluetoothState.reconnecting = true
is_busy _ = false

abbrev is_down : BluetoothState → Bool
is_down BluetoothState.disconnected = true
is_down BluetoothState.manually_disconnected = true
is_down BluetoothState.error = true
is_down _ = false

abbrev is_retryable : BluetoothState → Bool
is_retryable BluetoothState.error = true
is_retryable BluetoothState.stale = true
is_retryable BluetoothState.disconnected = true
is_retryable _ = false

-- The buttons that are disabled.
pub record Buttons : Type 0 where
  pub connect : Bool
  pub scan : Bool
  pub disconnect : Bool
  pub retry : Bool

unfoldable pub compute_button_disabled_state : BluetoothConnectionStatus → Buttons
unfolding is_connected_state
compute_button_disabled_state status = record {
  connect = is_busy status.state;
  scan = is_busy status.state || is_connected_state status.state;
  disconnect = is_down status.state;
  retry = not (status.desired_connected && is_retryable status.state);
}

abbrev is_live : BluetoothState → Bool
is_live BluetoothState.connecting = true
is_live BluetoothState.connected = true
is_live BluetoothState.subscribing = true
is_live BluetoothState.ready = true
is_live BluetoothState.reconnecting = true
is_live BluetoothState.stale = true
is_live _ = false

-- Whether `simulator_warning_message` returns its message.
unfoldable pub has_simulator_warning : Bool → BluetoothConnectionStatus → Bool
has_simulator_warning mock_mode status = mock_mode && is_live status.state

abbrev select_if_some : Option String → RuntimeSettings → RuntimeSettings
select_if_some none s = s
select_if_some (some d) s = set_bluetooth_selected_device_id (some d) s

unfoldable pub request_connect : Option String → RuntimeSettings → RuntimeSettings
unfolding request set_bluetooth_desired_connected set_bluetooth_selected_device_id
request_connect device s =
    select_if_some device
      (request BluetoothCommand.connect device (set_bluetooth_desired_connected true s))

unfoldable pub request_disconnect : RuntimeSettings → RuntimeSettings
unfolding request set_bluetooth_desired_connected
request_disconnect s =
    request BluetoothCommand.disconnect none (set_bluetooth_desired_connected false s)

unfoldable pub request_scan : RuntimeSettings → RuntimeSettings
unfolding request
request_scan s = request BluetoothCommand.scan none s

unfoldable pub request_retry : RuntimeSettings → RuntimeSettings
unfolding request set_bluetooth_desired_connected
request_retry s = request BluetoothCommand.retry none (set_bluetooth_desired_connected true s)
