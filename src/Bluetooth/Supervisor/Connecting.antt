-- ===== src/Bluetooth/Supervisor/Connecting.antt =====
-- bluetooth_connection_supervisor.py: `_connect_cycle`.
use carrera_monitor.Prelude.{ℕ, ◌+◌, String, true, not, Option, none, some, List, if◌then◌else◌}
use carrera_monitor.Client.Frames.{Stamp}
use carrera_monitor.Bluetooth.{
  BluetoothState, BluetoothDevice, BluetoothConnectionStatus, non_empty,
}
use carrera_monitor.Bluetooth.Settings.{set_bluetooth_selected_device_id}
use carrera_monitor.Bluetooth.Supervisor.{
  BluetoothConnectionSupervisor, Scan, rows, scan_raised, to_devices, pick_device, with_updates,
  set_state, emit_lifecycle_event,
}

-- What the connection of a new adapter comes to.
pub data Opening : Type 0 where
  opened : Opening
  refused : String → Opening

abbrev named_target : Option String → Option BluetoothDevice
named_target none = none
named_target (some a) =
    some (record { device_id = a; device_name = none; mac_address = some a; rssi = none })

abbrev or_target : Option BluetoothDevice → Option BluetoothDevice → Option BluetoothDevice
or_target none e = e
or_target (some d) e = some d

module _ {F : Type 0} (isoformat show : ℕ → String) where
  -- The device to connect to where no scan finds one.
  abbrev pub fallback_target : BluetoothConnectionSupervisor F → Option BluetoothDevice
  fallback_target b =
      or_target (named_target (non_empty b.selected_device_id))
        (named_target (non_empty b.cfg.mac_address))

  abbrev select :
      BluetoothDevice → BluetoothConnectionSupervisor F → BluetoothConnectionSupervisor F
  select d b = record b {
    selected_device_id = some d.device_id;
    runtime = set_bluetooth_selected_device_id (some d.device_id) b.runtime;
  }

  -- What a resolved target leaves.
  abbrev resolved :
      Option BluetoothDevice
      → BluetoothConnectionSupervisor F
      → Option BluetoothDevice × BluetoothConnectionSupervisor F
  resolved none b = (fallback_target b, b)
  resolved (some d) b = (some d, select d b)

  -- `_resolve_target_device_locked` after its scan.
  abbrev pub after_scan :
      List BluetoothDevice
      → BluetoothConnectionSupervisor F
      → Option BluetoothDevice × BluetoothConnectionSupervisor F
  after_scan ds b = resolved (pick_device b.selected_device_id ds) (record b { known_devices = ds })

  -- The updates of a connection that begins.
  abbrev target_status :
      Option BluetoothDevice
      → BluetoothConnectionSupervisor F
      → BluetoothConnectionStatus
      → BluetoothConnectionStatus
  target_status none b s = record s {
    state = BluetoothState.connecting;
    desired_connected = b.desired_connected;
    device_id = b.selected_device_id;
    device_name = none;
    mac_address = b.cfg.mac_address;
    last_error = none;
  }
  target_status (some d) b s = record s {
    state = BluetoothState.connecting;
    desired_connected = b.desired_connected;
    device_id = some d.device_id;
    device_name = d.device_name;
    mac_address = d.mac_address;
    last_error = none;
  }

  -- The part of `_connect_once_locked` after the adapter is connected.
  unfoldable pub establish :
      Stamp → BluetoothConnectionSupervisor F → BluetoothConnectionSupervisor F
  unfolding emit_lifecycle_event
  establish now b =
      let c = emit_lifecycle_event isoformat now "bluetooth_connected" "transport_connected" (
        with_updates now
          (λ s. record s {
            state = BluetoothState.connected;
            connected_at = some now.iso;
            disconnected_at = none;
            desired_connected = true;
          })
          (record b { adapter = some (not b.has_connected_once); has_connected_once = true })) in
      let d =
        emit_lifecycle_event isoformat now "bluetooth_subscribing" "subscribe_notifications"
          (set_state now BluetoothState.subscribing c) in
      emit_lifecycle_event isoformat now "bluetooth_ready" "subscriptions_ready" (
        with_updates now
          (λ s. record s {
            state = BluetoothState.ready;
            reconnect_attempts = 0;
            last_error = none;
            last_seen_at = some now.iso;
            last_rx_monotonic_ms = some now.monotonic_ms;
          })
          d)

  -- The status and the event of a connection that begins.
  unfoldable pub announce :
      Stamp
      → Option BluetoothDevice
      → BluetoothConnectionSupervisor F
      → BluetoothConnectionSupervisor F
  unfolding emit_lifecycle_event
  announce now target b =
      emit_lifecycle_event isoformat now "bluetooth_connecting" "desired_connected"
        (with_updates now (target_status target b) b)

  -- `_connect_once_locked` once its target is resolved, with the exception it raises.
  unfoldable pub open_target :
      Stamp
      → Opening
      → Option BluetoothDevice × BluetoothConnectionSupervisor F
      → Option String × BluetoothConnectionSupervisor F
  unfolding establish announce
  open_target now opened (target, b) = (none, establish now (announce now target b))
  open_target now (refused text) (target, b) = (some text, announce now target b)

  abbrev pub connect_scanned :
      Stamp
      → Opening
      → Scan
      → BluetoothConnectionSupervisor F
      → Option String × BluetoothConnectionSupervisor F
  connect_scanned now outcome (scan_raised text) b = (some text, b)
  connect_scanned now outcome (rows rs) b = open_target now outcome (after_scan (to_devices rs) b)

  -- `_connect_once_locked`
  unfoldable pub connect_once :
      Stamp
      → Scan
      → Opening
      → BluetoothConnectionSupervisor F
      → Option String × BluetoothConnectionSupervisor F
  unfolding open_target to_devices pick_device set_bluetooth_selected_device_id
  connect_once now scan outcome b =
      if b.cfg.prefer_scan_device_object
      then connect_scanned now outcome scan b
      else open_target now outcome (fallback_target b, b)

  -- The `except` clause of `_connect_cycle`.
  unfoldable pub connect_failed :
      Stamp → String → BluetoothConnectionSupervisor F → BluetoothConnectionSupervisor F
  unfolding emit_lifecycle_event
  connect_failed now text b =
      let c = emit_lifecycle_event isoformat now "bluetooth_error" "connect_failed" (
        with_updates now
          (λ s. record s {
            state = BluetoothState.error;
            last_error = some text;
            reconnect_attempts = s.reconnect_attempts + 1;
            desired_connected = b.desired_connected;
          })
          b) in
      if b.desired_connected
      then emit_lifecycle_event isoformat now "bluetooth_reconnecting" "connect_failed"
          (set_state now BluetoothState.reconnecting c)
      else c

  abbrev pub finish_cycle :
      Stamp → Option String × BluetoothConnectionSupervisor F → BluetoothConnectionSupervisor F
  finish_cycle now (none, b) = b
  finish_cycle now (some text, b) = connect_failed now text b

  unfoldable pub connect_cycle :
      Stamp → Scan → Opening → BluetoothConnectionSupervisor F → BluetoothConnectionSupervisor F
  unfolding connect_once connect_failed
  connect_cycle now scan outcome b = finish_cycle now (connect_once now scan outcome b)
