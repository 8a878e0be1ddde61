-- ===== src/Bluetooth/Tests.antt =====
-- The Bluetooth supervisor and its requests at concrete data.
use carrera_monitor.Prelude.{
  ℕ, ◌-◌, ◌≤◌, String, true, false, ◌≡◌, refl, ap, none, some, is_some, [], ◌∷◌, length, arith,
}
use Prim.Native.Nat.{min}
use carrera_monitor.Event.{EventType, Payload}
use carrera_monitor.Event.Validation.{payload_shape}
use carrera_monitor.Event.Typed.{typed}
use carrera_monitor.Event.Tests.{whole_floats}
use carrera_monitor.Bluetooth.Payload.{connection_dict, connection_dict-accepted}
use carrera_monitor.Bluetooth.Service.ScanButton.{scan_enabled}
use carrera_monitor.Bluetooth.{
  is_connecting_state, to_connection_payload, BluetoothState, BluetoothConfig, is_connected_state,
  is_valid_config,
}
use carrera_monitor.Bluetooth.Settings.{
  BluetoothCommand, default_settings, request, consume_bluetooth_command,
  get_bluetooth_selected_device_id,
}
use carrera_monitor.Bluetooth.Settings.Commands.{consume-request}
use carrera_monitor.Bluetooth.Supervisor.{
  BluetoothConnectionSupervisor, rows, next_backoff_delay, keeps_devices,
}
use carrera_monitor.Bluetooth.Supervisor.Connecting.{opened}
use carrera_monitor.Bluetooth.Supervisor.Pumping.{timeout, read_error}
use carrera_monitor.Bluetooth.Supervisor.Rounds.{Surroundings, run_once}
use carrera_monitor.Bluetooth.Supervisor.Calls.{new_supervisor}
use carrera_monitor.Bluetooth.Supervisor.Adapters.{
  requests, runs, done, step, reachable-HoldsAdapter,
}
use carrera_monitor.Bluetooth.Supervisor.Delays.{get_elem?, next_backoff_delay-scheduled}
use carrera_monitor.Bluetooth.Service.{
  compute_button_disabled_state, request_connect, request_disconnect, request_scan,
}
use carrera_monitor.Bluetooth.Service.Requests.{
  with_runtime, run_all, request_disconnect-lasts, request_disconnect-lost,
}
use carrera_monitor.Bluetooth.Service.Recovery.{IsWanted, read_error-recovers}
use carrera_monitor.Bluetooth.Service.Connect.{IsReadyWith, request_connect-ready}

abbrev as_text : ℕ → String
as_text n = "t"

abbrev config : BluetoothConfig
config = record {
  mac_address = none;
  reconnect_interval_seconds = 5;
  max_reconnect_interval_seconds = 30;
  reconnect_backoff_seconds = 1 ∷ 2 ∷ 5 ∷ [];
  idle_timeout_seconds = 15;
  idle_warning_seconds = 5;
  stale_timeout_seconds = 10;
  reconnect_on_stale = true;
  allow_manual_connect = true;
  allow_manual_disconnect = true;
  prefer_scan_device_object = true;
}

next_backoff_delay-scheduled_example :
    (1 ≤ next_backoff_delay config 7)
    × (get_elem? (1 ∷ 2 ∷ 5 ∷ []) (min (7 - 1) (length {A = ℕ} (1 ∷ 2 ∷ 5 ∷ []) - 1))
        ≡ some (next_backoff_delay config 7))
unfolding is_valid_config
next_backoff_delay-scheduled_example = next_backoff_delay-scheduled config 7 refl

consume-request_example :
    (consume_bluetooth_command 0 (request BluetoothCommand.connect (some "AA:BB") default_settings)
      ≡ (1, (some BluetoothCommand.connect, some "AA:BB")))
    × (consume_bluetooth_command 1
          (request BluetoothCommand.connect (some "AA:BB") default_settings)
        ≡ (1, (none, none)))
consume-request_example =
    consume-request BluetoothCommand.connect (some "AA:BB") 0 default_settings (omega arith)

abbrev moment : Surroundings ℕ
moment = record {
  now = record { iso = 1; monotonic_ms = 1000 };
  command_scan = rows [];
  target_scan = rows (("AA:BB", some "Control_Unit") ∷ []);
  opening = opened;
  arrival = timeout;
}

abbrev supervisor : BluetoothConnectionSupervisor ℕ
supervisor = new_supervisor moment.now config default_settings

abbrev connected_supervisor : BluetoothConnectionSupervisor ℕ
connected_supervisor =
    run_once as_text as_text moment
      (with_runtime as_text as_text (request_connect none default_settings) supervisor)

request_connect-ready_example : IsReadyWith as_text as_text true connected_supervisor
unfolding new_supervisor get_bluetooth_selected_device_id
request_connect-ready_example =
    request_connect-ready as_text as_text moment none (("AA:BB", some "Control_Unit") ∷ [])
      supervisor (omega arith) refl refl refl

connected_supervisor_ready : IsReadyWith as_text as_text true connected_supervisor
unfolding new_supervisor get_bluetooth_selected_device_id
connected_supervisor_ready =
    request_connect-ready as_text as_text moment none (("AA:BB", some "Control_Unit") ∷ [])
      supervisor (omega arith) refl refl refl

reachable-HoldsAdapter_example : is_some connected_supervisor.adapter ≡ true
unfolding is_connected_state new_supervisor get_bluetooth_selected_device_id
reachable-HoldsAdapter_example =
    reachable-HoldsAdapter as_text as_text moment.now config default_settings connected_supervisor
      (step (requests (request_connect none default_settings)) (step (runs moment) done))
      (ap is_connected_state connected_supervisor_ready.0)

-- A supervisor that is ready.
abbrev ready_supervisor : BluetoothConnectionSupervisor ℕ
ready_supervisor = record supervisor {
  status = record supervisor.status { state = BluetoothState.ready };
  adapter = some true;
}

request_disconnect-lasts_example :
    ((run_all as_text as_text (moment ∷ moment ∷ []) (
        with_runtime as_text as_text
          (request_disconnect ready_supervisor.runtime)
          ready_supervisor)).adapter
      ≡ none)
    × ((run_all as_text as_text (moment ∷ moment ∷ []) (
          with_runtime as_text as_text
            (request_disconnect ready_supervisor.runtime)
            ready_supervisor)).status.state
        ≡ BluetoothState.manually_disconnected)
unfolding new_supervisor
request_disconnect-lasts_example =
    request_disconnect-lasts as_text as_text moment (moment ∷ []) ready_supervisor (omega arith)

request_disconnect-lost_example :
    ((run_all as_text as_text (moment ∷ moment ∷ []) (
        with_runtime as_text as_text
          (request_scan (request_disconnect ready_supervisor.runtime))
          ready_supervisor)).adapter
      ≡ ready_supervisor.adapter)
    × ((run_all as_text as_text (moment ∷ moment ∷ []) (
          with_runtime as_text as_text
            (request_scan (request_disconnect ready_supervisor.runtime))
            ready_supervisor)).status.state
        ≡ BluetoothState.ready)
unfolding new_supervisor
request_disconnect-lost_example =
    request_disconnect-lost as_text as_text moment (moment ∷ []) ready_supervisor (omega arith) refl

-- A supervisor that is ready and wanted.
abbrev wanted_supervisor : BluetoothConnectionSupervisor ℕ
wanted_supervisor = record ready_supervisor {
  runtime = record default_settings { bluetooth_desired_connected = true };
  has_connected_once = true;
}

abbrev broken : Surroundings ℕ
broken = record moment { arrival = read_error "link idle" }

wanted_supervisor-IsWanted : IsWanted as_text as_text wanted_supervisor
unfolding IsWanted new_supervisor
wanted_supervisor-IsWanted = (refl, refl)

read_error-recovers_example :
    IsReadyWith as_text as_text false
      (run_all as_text as_text (broken ∷ moment ∷ []) wanted_supervisor)
unfolding new_supervisor
read_error-recovers_example =
    read_error-recovers as_text as_text broken moment "link idle"
      (("AA:BB", some "Control_Unit") ∷ []) true wanted_supervisor wanted_supervisor-IsWanted refl
      refl refl refl refl

connection_dict-accepted_example :
    (payload_shape whole_floats EventType.connection_state
        (connection_dict as_text "bluetooth_ready" none none supervisor.status)
      ≡ some (connection_dict as_text "bluetooth_ready" none none supervisor.status))
    × (typed whole_floats EventType.connection_state
          (connection_dict as_text "bluetooth_ready" none none supervisor.status)
        ≡ some (
            Payload.connection_state
              (to_connection_payload as_text "bluetooth_ready" none none supervisor.status)))
connection_dict-accepted_example =
    connection_dict-accepted ℕ whole_floats as_text "bluetooth_ready" none none supervisor.status

scan_enabled_example :
    (keeps_devices supervisor.status.state ≡ false)
    × ((is_connected_state supervisor.status.state ≡ false)
        × (is_connecting_state supervisor.status.state ≡ false))
unfolding new_supervisor compute_button_disabled_state
scan_enabled_example = scan_enabled supervisor.status refl
