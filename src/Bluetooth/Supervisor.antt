-- ===== src/Bluetooth/Supervisor.antt =====
-- services/bluetooth_connection_supervisor.py: `BluetoothConnectionSupervisor`. One iteration of
-- `_run` is a function of what the adapter and the scan do in it, and calls of the public methods
-- stand between iterations. `isoformat` is `datetime.isoformat`.
pub mod Calls
pub mod Connecting
pub mod Pumping
pub mod Rounds
pub mod Holding
pub mod Adapters
pub mod Delays
use Prim.Native.String.{◌++◌ as append}
use carrera_monitor.Prelude.{
  ℕ, zero, suc, ◌+◌, ◌-◌, ◌*◌, String, str_eq, Bool, true, false, not, ◌&&◌, ◌||◌, Option, none,
  some, is_some, List, [], ◌∷◌, leb, ltb, if◌then◌else◌,
}
use carrera_monitor.Event.{TelemetryEvent, Payload, Source}
use carrera_monitor.Queue.{Queue, offer}
use carrera_monitor.Client.Frames.{Stamp}
use carrera_monitor.Bluetooth.{
  BluetoothState, BluetoothDevice, BluetoothConnectionStatus, BluetoothConfig,
  to_connection_payload, non_empty, or_else,
}
use carrera_monitor.Bluetooth.Settings.{
  RuntimeSettings, BluetoothCommand, request, set_bluetooth_desired_connected,
  set_bluetooth_selected_device_id,
}

-- `adapter` is the adapter that is connected, of which `_reset_on_connect` is kept.
pub record BluetoothConnectionSupervisor (F : Type 0) : Type 0 where
  pub cfg : BluetoothConfig
  pub runtime : RuntimeSettings
  pub status : BluetoothConnectionStatus
  pub desired_connected : Bool
  pub selected_device_id : Option String
  pub events : Queue (TelemetryEvent F)
  pub has_task : Bool
  pub adapter : Option Bool
  pub known_devices : List BluetoothDevice
  pub last_command_seq : ℕ
  pub manual_disconnect : Bool
  pub has_connected_once : Bool

-- What the scan returns or raises.
pub data Scan : Type 0 where
  rows : List (String × Option String) → Scan
  scan_raised : String → Scan

-- `str(name) if name else None`
abbrev pub to_device : String × Option String → BluetoothDevice
to_device (address, name) = record {
  device_id = address;
  device_name = non_empty name;
  mac_address = some address;
  rssi = none;
}

-- `_perform_scan_locked`, of the rows.
unfoldable pub to_devices : List (String × Option String) → List BluetoothDevice
to_devices [] = []
to_devices (row ∷ more) = to_device row ∷ to_devices more

unfoldable pub find_id : String → List BluetoothDevice → Option BluetoothDevice
find_id key [] = none
find_id key (d ∷ ds) = if str_eq d.device_id key then some d else find_id key ds

abbrev pub is_control_unit : Option String → Bool
is_control_unit none = false
is_control_unit (some s) = str_eq s "Control_Unit"

unfoldable pub find_control_unit : List BluetoothDevice → Option BluetoothDevice
find_control_unit [] = none
find_control_unit (d ∷ ds) = if is_control_unit d.device_name then some d else find_control_unit ds

abbrev pub first_device : List BluetoothDevice → Option BluetoothDevice
first_device [] = none
first_device (d ∷ ds) = some d

abbrev pub or_device : Option BluetoothDevice → Option BluetoothDevice → Option BluetoothDevice
or_device none e = e
or_device (some d) e = some d

abbrev pub selected_among : Option String → List BluetoothDevice → Option BluetoothDevice
selected_among none ds = none
selected_among (some key) ds = find_id key ds

-- `_pick_device`
unfoldable pub pick_device : Option String → List BluetoothDevice → Option BluetoothDevice
unfolding find_id find_control_unit
pick_device selected ds =
    or_device (selected_among selected ds) (or_device (find_control_unit ds) (first_device ds))

-- A list's entry, or its last entry where the index lies past it.
abbrev pub entry_or_last : ℕ → ℕ → List ℕ → ℕ
entry_or_last i last [] = last
entry_or_last zero last (n ∷ ns) = n
entry_or_last (suc i) last (n ∷ ns) = entry_or_last i n ns

-- `_next_backoff_delay`
unfoldable pub next_backoff_delay : BluetoothConfig → ℕ → ℕ
next_backoff_delay cfg attempts =
    entry_or_last (attempts - 1) cfg.reconnect_interval_seconds cfg.reconnect_backoff_seconds

module _ {F : Type 0} where
  -- `self._status = self._status.with_updates(...)`
  abbrev pub with_updates :
      Stamp
      → (BluetoothConnectionStatus → BluetoothConnectionStatus)
      → BluetoothConnectionSupervisor F
      → BluetoothConnectionSupervisor F
  with_updates now f b = record b { status = record (f b.status) { updated_at = now.iso } }

  abbrev pub set_state :
      Stamp → BluetoothState → BluetoothConnectionSupervisor F → BluetoothConnectionSupervisor F
  set_state now state b = with_updates now (λ s. record s { state = state }) b

abbrev pub disconnected_state : Bool → BluetoothState
disconnected_state true = BluetoothState.manually_disconnected
disconnected_state false = BluetoothState.disconnected

abbrev pub disconnect_event : Bool → String
disconnect_event true = "bluetooth_manual_disconnect"
disconnect_event false = "bluetooth_disconnected"

-- The states in which `scan_devices` returns the devices that are known.
unfoldable pub keeps_devices : BluetoothState → Bool
keeps_devices BluetoothState.connecting = true
keeps_devices BluetoothState.connected = true
keeps_devices BluetoothState.subscribing = true
keeps_devices BluetoothState.reconnecting = true
keeps_devices BluetoothState.ready = true
keeps_devices _ = false

abbrev pub count : List BluetoothDevice → ℕ
count [] = 0
count (d ∷ ds) = count ds + 1

module _ {F : Type 0} (isoformat : ℕ → String) where
  unfoldable pub emit_lifecycle_event :
      Stamp → String → String → BluetoothConnectionSupervisor F → BluetoothConnectionSupervisor F
  unfolding offer to_connection_payload
  emit_lifecycle_event now event reason b = record b {
    events = offer b.events (record {
      timestamp_iso = now.iso;
      timestamp_monotonic_ms = now.monotonic_ms;
      source = Source.system;
      car_id = none;
      controller_id = none;
      payload =
          Payload.connection_state
            (to_connection_payload isoformat event (some reason) b.status.last_error b.status);
    });
  }

  -- `_disconnect_current_locked`
  unfoldable pub disconnect_current :
      Stamp → Bool → String → BluetoothConnectionSupervisor F → BluetoothConnectionSupervisor F
  unfolding emit_lifecycle_event
  disconnect_current now manual reason b =
      emit_lifecycle_event now (disconnect_event manual) reason (
        with_updates now
          (λ s. record s {
            state = disconnected_state manual;
            desired_connected = b.desired_connected;
            disconnected_at = some now.iso;
          })
          (record b { adapter = none }))

  unfoldable pub set_error :
      Stamp → String → BluetoothConnectionSupervisor F → BluetoothConnectionSupervisor F
  unfolding emit_lifecycle_event
  set_error now message b = emit_lifecycle_event now "bluetooth_error" "supervisor_error" (
      with_updates now
        (λ s. record s {
          state = BluetoothState.error;
          last_error = some message;
          reconnect_attempts = s.reconnect_attempts + 1;
        })
        b)

  -- `scan_devices` after its scan, and the exception it raises; `show` writes a number.
  unfoldable pub scan_completed :
      (ℕ → String)
      → Stamp
      → Scan
      → BluetoothConnectionSupervisor F
      → Option String × BluetoothConnectionSupervisor F
  unfolding emit_lifecycle_event to_devices
  scan_completed show now (scan_raised text) b = (some text, b)
  scan_completed show now (rows rs) b =
      let c : BluetoothConnectionSupervisor F = record b { known_devices = to_devices rs } in
      let d : BluetoothConnectionSupervisor F =
        if b.desired_connected then c else set_state now BluetoothState.disconnected c in
      (
        none,
        emit_lifecycle_event now "bluetooth_scan_completed"
            (append "found_" (append (show (count (to_devices rs))) "_devices")) d,
      )

  unfoldable pub scan_devices :
      (ℕ → String)
      → Stamp
      → Scan
      → BluetoothConnectionSupervisor F
      → Option String × BluetoothConnectionSupervisor F
  unfolding keeps_devices emit_lifecycle_event scan_completed
  scan_devices show now scan b =
      if keeps_devices b.status.state
      then (none, b)
      else scan_completed show now scan (
          emit_lifecycle_event now "bluetooth_scan_started" "manual_scan" (
            with_updates now (λ s. record s { state = BluetoothState.scanning; last_error = none })
              b))
