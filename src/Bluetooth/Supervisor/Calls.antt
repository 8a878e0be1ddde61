-- ===== src/Bluetooth/Supervisor/Calls.antt =====
-- bluetooth_connection_supervisor.py: the public methods, but for `scan_devices`.
use carrera_monitor.Prelude.{
  ℕ, String, Bool, true, false, not, ◌&&◌, Option, none, some, [], if◌then◌else◌,
}
use carrera_monitor.Client.Frames.{Stamp}
use carrera_monitor.Bluetooth.{BluetoothState, BluetoothConfig}
use carrera_monitor.Bluetooth.Settings.{
  RuntimeSettings, BluetoothCommand, request, set_bluetooth_desired_connected,
  set_bluetooth_selected_device_id, get_bluetooth_selected_device_id,
}
use carrera_monitor.Bluetooth.Supervisor.{
  BluetoothConnectionSupervisor, with_updates, emit_lifecycle_event, disconnect_current,
}

abbrev unless_manual : BluetoothState → BluetoothState
unless_manual BluetoothState.manually_disconnected = BluetoothState.disconnected
unless_manual state = state

abbrev disconnect_reason : Bool → String
disconnect_reason true = "manual_disconnect"
disconnect_reason false = "desired_disconnected"

-- `__init__`: commands that were requested before are taken as read.
unfoldable pub new_supervisor :
    {F : Type 0} → Stamp → BluetoothConfig → RuntimeSettings → BluetoothConnectionSupervisor F
unfolding get_bluetooth_selected_device_id
new_supervisor now cfg runtime = record {
  cfg = cfg;
  runtime = runtime;
  status = record {
    state = BluetoothState.disconnected;
    desired_connected = runtime.bluetooth_desired_connected;
    device_id = none;
    device_name = none;
    mac_address = none;
    rssi = none;
    connected_at = none;
    disconnected_at = none;
    last_seen_at = none;
    last_rx_monotonic_ms = none;
    reconnect_attempts = 0;
    last_error = none;
    updated_at = now.iso;
  };
  desired_connected = runtime.bluetooth_desired_connected;
  selected_device_id = get_bluetooth_selected_device_id runtime;
  events = record { maxsize = 4096; items = [] };
  has_task = false;
  adapter = none;
  known_devices = [];
  last_command_seq = runtime.bluetooth_command_seq;
  manual_disconnect = false;
  has_connected_once = false;
}

module _ {F : Type 0} (isoformat : ℕ → String) where
  -- A call that the configuration forbids.
  abbrev forbidden :
      Stamp → String → String → BluetoothConnectionSupervisor F → BluetoothConnectionSupervisor F
  forbidden now text reason b =
      emit_lifecycle_event isoformat now "bluetooth_error" reason (
        with_updates now (λ s. record s { state = BluetoothState.error; last_error = some text }) b)

  abbrev select_device :
      Option String → BluetoothConnectionSupervisor F → BluetoothConnectionSupervisor F
  select_device none b = b
  select_device (some d) b = record b {
    selected_device_id = some d;
    runtime = set_bluetooth_selected_device_id (some d) b.runtime;
  }

  unfoldable pub connect :
      Stamp → Option String → BluetoothConnectionSupervisor F → BluetoothConnectionSupervisor F
  unfolding emit_lifecycle_event set_bluetooth_desired_connected set_bluetooth_selected_device_id
  connect now device b =
      if b.cfg.allow_manual_connect
      then (let c = select_device device b in
          with_updates now
            (λ s. record s {
              desired_connected = true;
              state = unless_manual s.state;
              last_error = none;
            })
            (record c {
              desired_connected = true;
              manual_disconnect = false;
              runtime = set_bluetooth_desired_connected true c.runtime;
              has_task = true;
            }))
      else forbidden now "manual connect is disabled by configuration" "manual_connect_disabled" b

  unfoldable pub disconnect :
      Stamp → Bool → BluetoothConnectionSupervisor F → BluetoothConnectionSupervisor F
  unfolding emit_lifecycle_event disconnect_current set_bluetooth_desired_connected
  disconnect now manual b =
      if manual && not b.cfg.allow_manual_disconnect
      then forbidden now "manual disconnect is disabled by configuration"
          "manual_disconnect_disabled" b
      else disconnect_current isoformat now manual (disconnect_reason manual) (record b {
        desired_connected = false;
        manual_disconnect = manual;
        runtime = set_bluetooth_desired_connected false b.runtime;
      })

  unfoldable pub retry_now :
      Stamp → BluetoothConnectionSupervisor F → BluetoothConnectionSupervisor F
  unfolding emit_lifecycle_event disconnect_current set_bluetooth_desired_connected request
  retry_now now b =
      let c = emit_lifecycle_event isoformat now "bluetooth_reconnecting" "manual_retry" (
        with_updates now
          (λ s. record s { desired_connected = true; state = BluetoothState.reconnecting })
          (record b {
            desired_connected = true;
            manual_disconnect = false;
            runtime =
                request BluetoothCommand.retry none
                  (set_bluetooth_desired_connected true b.runtime);
          })) in
      record (disconnect_current isoformat now false "manual_retry" c) { has_task = true }

  -- `shutdown`, after the task has ended.
  unfoldable pub shutdown :
      Stamp → BluetoothConnectionSupervisor F → BluetoothConnectionSupervisor F
  unfolding disconnect_current
  shutdown now b = record (disconnect_current isoformat now false "shutdown" b) { has_task = false }
