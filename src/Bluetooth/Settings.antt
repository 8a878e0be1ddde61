-- ===== src/Bluetooth/Settings.antt =====
-- services/runtime_settings.py: `RuntimeSettings`. The record is what the file holds, with the
-- defaults for what it lacks; a save that fails is not modelled.
pub mod Commands
use carrera_monitor.Prelude.{
  ℕ, ◌+◌, String, str_eq, Bool, true, false, Option, none, some, leb, if◌then◌else◌,
}
use carrera_monitor.Bluetooth.{non_empty}

-- `_BLUETOOTH_COMMANDS`
pub data BluetoothCommand : Type 0 where
  connect disconnect scan retry : BluetoothCommand

unfoldable pub parse_command : String → Option BluetoothCommand
parse_command s =
    if str_eq s "connect"
    then some BluetoothCommand.connect
    else if str_eq s "disconnect"
    then some BluetoothCommand.disconnect
    else if str_eq s "scan"
    then some BluetoothCommand.scan
    else if str_eq s "retry"
    then some BluetoothCommand.retry
    else none

pub record RuntimeSettings : Type 0 where
  pub mock_mode : Bool
  pub bluetooth_desired_connected : Bool
  pub bluetooth_selected_device_id : Option String
  pub bluetooth_command_seq : ℕ
  pub bluetooth_pending_command : Option BluetoothCommand
  pub bluetooth_pending_command_device_id : Option String

-- `_DEFAULTS`
abbrev pub default_settings : RuntimeSettings
default_settings = record {
  mock_mode = false;
  bluetooth_desired_connected = false;
  bluetooth_selected_device_id = none;
  bluetooth_command_seq = 0;
  bluetooth_pending_command = none;
  bluetooth_pending_command_device_id = none;
}

unfoldable pub set_mock_mode : Bool → RuntimeSettings → RuntimeSettings
set_mock_mode value s = record s { mock_mode = value }

unfoldable pub set_bluetooth_desired_connected : Bool → RuntimeSettings → RuntimeSettings
set_bluetooth_desired_connected value s = record s { bluetooth_desired_connected = value }

unfoldable pub get_bluetooth_selected_device_id : RuntimeSettings → Option String
get_bluetooth_selected_device_id s = non_empty s.bluetooth_selected_device_id

unfoldable pub set_bluetooth_selected_device_id : Option String → RuntimeSettings → RuntimeSettings
set_bluetooth_selected_device_id value s = record s { bluetooth_selected_device_id = value }

-- What a command makes of the desired connection.
abbrev pub desired_after : BluetoothCommand → Bool → Bool
desired_after BluetoothCommand.connect b = true
desired_after BluetoothCommand.disconnect b = false
desired_after _ b = b

abbrev pub selected_after : Option String → Option String → Option String
selected_after none old = old
selected_after (some d) old = some d

-- `request_bluetooth_command` of a command that is known.
unfoldable pub request : BluetoothCommand → Option String → RuntimeSettings → RuntimeSettings
request command device s = record s {
  bluetooth_command_seq = s.bluetooth_command_seq + 1;
  bluetooth_pending_command = some command;
  bluetooth_pending_command_device_id = device;
  bluetooth_desired_connected = desired_after command s.bluetooth_desired_connected;
  bluetooth_selected_device_id = selected_after device s.bluetooth_selected_device_id;
}

-- With `str.strip` and `str.lower` as one function; `none` is a `ValueError`.
unfoldable pub request_bluetooth_command :
    (String → String) → String → Option String → RuntimeSettings → Option RuntimeSettings
unfolding parse_command request
request_bluetooth_command normalize text device s = elim (parse_command (normalize text)) [
  | none ↦ none
  | some command ↦ some (request command device s)
]

unfoldable pub consume_bluetooth_command :
    ℕ → RuntimeSettings → ℕ × (Option BluetoothCommand × Option String)
consume_bluetooth_command last s =
    if leb s.bluetooth_command_seq last then (s.bluetooth_command_seq, (none, none)) else (
      s.bluetooth_command_seq,
      (s.bluetooth_pending_command, non_empty s.bluetooth_pending_command_device_id),
    )
