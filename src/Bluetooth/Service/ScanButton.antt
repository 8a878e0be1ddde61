-- ===== src/Bluetooth/Service/ScanButton.antt =====
-- The buttons of the user interface against what the supervisor does.
use carrera_monitor.Prelude.{false, ◌≡◌, refl, arith}
use carrera_monitor.Bluetooth.{
  BluetoothState, BluetoothConnectionStatus, is_connected_state, is_connecting_state,
}
use carrera_monitor.Bluetooth.Supervisor.{keeps_devices}
use carrera_monitor.Bluetooth.Service.{compute_button_disabled_state}

by_state :
    (state : BluetoothState) (s : BluetoothConnectionStatus)
    → (compute_button_disabled_state (record s { state = state })).scan ≡ false
    → (keeps_devices state ≡ false)
      × ((is_connected_state state ≡ false) × (is_connecting_state state ≡ false))
unfolding compute_button_disabled_state keeps_devices is_connected_state is_connecting_state
by_state BluetoothState.disconnected s h = (refl, (refl, refl))
by_state BluetoothState.manually_disconnected s h = (refl, (refl, refl))
by_state BluetoothState.error s h = (refl, (refl, refl))
by_state BluetoothState.scanning s h = ground arith
by_state BluetoothState.connecting s h = ground arith
by_state BluetoothState.connected s h = ground arith
by_state BluetoothState.subscribing s h = ground arith
by_state BluetoothState.ready s h = ground arith
by_state BluetoothState.stale s h = ground arith
by_state BluetoothState.reconnecting s h = ground arith

-- Where the button to scan is enabled for a status, the supervisor in that state does not answer a
-- scan with the devices it knows, and the state is neither a connected nor a connecting one.
pub scan_enabled :
    (s : BluetoothConnectionStatus)
    → (compute_button_disabled_state s).scan ≡ false
    → (keeps_devices s.state ≡ false)
      × ((is_connected_state s.state ≡ false) × (is_connecting_state s.state ≡ false))
scan_enabled s h = by_state s.state s h
