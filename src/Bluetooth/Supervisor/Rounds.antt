-- ===== src/Bluetooth/Supervisor/Rounds.antt =====
-- bluetooth_connection_supervisor.py: one iteration of `_run`.
use carrera_monitor.Prelude.{ℕ, String, Bool, true, false, Option, none, some, leb, if◌then◌else◌}
use carrera_monitor.Client.Frames.{Stamp}
use carrera_monitor.Bluetooth.{BluetoothState, or_else}
use carrera_monitor.Bluetooth.Settings.{BluetoothCommand, consume_bluetooth_command}
use carrera_monitor.Bluetooth.Supervisor.{
  BluetoothConnectionSupervisor, Scan, with_updates, set_state, disconnect_current, set_error,
  scan_devices,
}
use carrera_monitor.Bluetooth.Supervisor.Connecting.{Opening, connect_cycle}
use carrera_monitor.Bluetooth.Supervisor.Pumping.{Arrival, pump_live_events_once}

-- What is outside the supervisor in an iteration.
pub record Surroundings (F : Type 0) : Type 0 where
  pub now : Stamp
  pub command_scan : Scan
  pub target_scan : Scan
  pub opening : Opening
  pub arrival : Arrival F

module _ {F : Type 0} (isoformat show : ℕ → String) where
  -- What a command does; the exception it raises is that of the scan.
  unfoldable pub apply_command :
      Stamp
      → Scan
      → Option BluetoothCommand
      → Option String
      → BluetoothConnectionSupervisor F
      → Option String × BluetoothConnectionSupervisor F
  unfolding disconnect_current scan_devices
  apply_command now scan none device b = (none, b)
  apply_command now scan (some BluetoothCommand.connect) device b = (
    none,
    record b {
      desired_connected = true;
      manual_disconnect = false;
      selected_device_id = or_else device b.selected_device_id;
    },
  )
  apply_command now scan (some BluetoothCommand.disconnect) device b = (
    none,
    disconnect_current isoformat now true "ui_disconnect"
        (record b { desired_connected = false; manual_disconnect = true }),
  )
  apply_command now scan (some BluetoothCommand.retry) device b = (
    none,
    set_state now BluetoothState.reconnecting (
        disconnect_current isoformat now false "ui_retry"
          (record b { desired_connected = true; manual_disconnect = false })),
  )
  apply_command now scan (some BluetoothCommand.scan) device b =
      scan_devices isoformat show now scan b

  abbrev pub consumed :
      Stamp
      → Scan
      → ℕ × (Option BluetoothCommand × Option String)
      → BluetoothConnectionSupervisor F
      → Option String × BluetoothConnectionSupervisor F
  consumed now scan (seq, (command, device)) b =
      if leb seq b.last_command_seq
      then (none, b)
      else apply_command now scan command device (record b { last_command_seq = seq })

  -- `desired_connected` as the settings have it.
  abbrev pub read_desired :
      Stamp → BluetoothConnectionSupervisor F → BluetoothConnectionSupervisor F
  read_desired now b =
      let d = b.runtime.bluetooth_desired_connected in
      with_updates now (λ s. record s { desired_connected = d })
        (record b { desired_connected = d })

  unfoldable pub sync_runtime_requests :
      Stamp
      → Scan
      → BluetoothConnectionSupervisor F
      → Option String × BluetoothConnectionSupervisor F
  unfolding apply_command consume_bluetooth_command
  sync_runtime_requests now scan b =
      consumed now scan (consume_bluetooth_command b.last_command_seq b.runtime)
        (read_desired now b)

  abbrev pub drive_adapter :
      Surroundings F
      → Option Bool
      → BluetoothConnectionSupervisor F
      → BluetoothConnectionSupervisor F
  drive_adapter w none b = connect_cycle isoformat show w.now w.target_scan w.opening b
  drive_adapter w (some a) b = pump_live_events_once isoformat show w.now w.arrival b

  -- The rest of the iteration.
  unfoldable pub drive :
      Surroundings F → BluetoothConnectionSupervisor F → BluetoothConnectionSupervisor F
  unfolding connect_cycle pump_live_events_once
  drive w b = if b.desired_connected then drive_adapter w b.adapter b else b

  abbrev pub after_sync :
      Surroundings F
      → Option String × BluetoothConnectionSupervisor F
      → BluetoothConnectionSupervisor F
  after_sync w (none, b) = drive w b
  after_sync w (some text, b) = set_error isoformat w.now "supervisor loop failure" b

  -- One iteration of `_run`.
  unfoldable pub run_once :
      Surroundings F → BluetoothConnectionSupervisor F → BluetoothConnectionSupervisor F
  unfolding sync_runtime_requests drive set_error
  run_once w b = after_sync w (sync_runtime_requests w.now w.command_scan b)
