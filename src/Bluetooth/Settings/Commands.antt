-- ===== src/Bluetooth/Settings/Commands.antt =====
-- Commands that the user interface leaves for the supervisor.
use carrera_monitor.Prelude.{ℕ, ◌+◌, ◌≤◌, String, ◌≡◌, Option, none, some, arith}
use carrera_monitor.Bluetooth.{non_empty}
use carrera_monitor.Bluetooth.Settings.{
  BluetoothCommand, RuntimeSettings, request, consume_bluetooth_command,
}

-- Where the last number read is not above that of the settings, a command that is requested is
-- returned with a number above it, with its device unless that is the empty text, and once that
-- number has been read, no command is returned.
pub consume-request :
    (command : BluetoothCommand) (device : Option String) (last : ℕ) (s : RuntimeSettings)
    → last ≤ s.bluetooth_command_seq
    → (consume_bluetooth_command last (request command device s)
        ≡ (s.bluetooth_command_seq + 1, (some command, non_empty device)))
      × (consume_bluetooth_command (s.bluetooth_command_seq + 1) (request command device s)
          ≡ (s.bluetooth_command_seq + 1, (none, none)))
unfolding consume_bluetooth_command request
consume-request command device last s h = (ground arith, ground arith)
