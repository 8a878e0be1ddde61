-- ===== src/Bluetooth/Service/Connect.antt =====
-- A supervisor that is asked to connect becomes ready.
use carrera_monitor.Prelude.{
  ℕ, ◌≤◌, String, Bool, true, false, not, ◌≡◌, refl, sym, ap, ◌∙◌, Option, none, some, List, leb,
  arith, Option-cases, if_elim, inl, inr,
}
use mathlib.Core.Path.{subst}
use carrera_monitor.Client.Frames.{Stamp}
use carrera_monitor.Bluetooth.{BluetoothState, BluetoothDevice, non_empty, or_else}
use carrera_monitor.Bluetooth.Settings.{
  BluetoothCommand, RuntimeSettings, request, set_bluetooth_desired_connected,
  set_bluetooth_selected_device_id,
}
use carrera_monitor.Bluetooth.Supervisor.{
  BluetoothConnectionSupervisor, rows, emit_lifecycle_event, pick_device, to_devices,
}
use carrera_monitor.Bluetooth.Supervisor.Connecting.{
  opened, connect_cycle, connect_once, open_target, establish, announce, finish_cycle,
  fallback_target, after_scan,
}
use carrera_monitor.Bluetooth.Supervisor.Rounds.{
  Surroundings, run_once, drive, drive_adapter, after_sync, read_desired, apply_command,
}
use carrera_monitor.Bluetooth.Service.{request_connect}
use carrera_monitor.Bluetooth.Service.Requests.{with_runtime, sync-new}

is_connect :
    (device : Option String) (s : RuntimeSettings)
    → (request_connect device s).bluetooth_pending_command ≡ some BluetoothCommand.connect
unfolding request_connect request set_bluetooth_desired_connected set_bluetooth_selected_device_id
is_connect none s = refl
is_connect (some d) s = refl

module _ {F : Type 0} (isoformat show : ℕ → String) where
  abbrev pub IsReadyWith : Bool → BluetoothConnectionSupervisor F → Type 0
  IsReadyWith clock b =
      (b.status.state ≡ BluetoothState.ready)
      × ((b.adapter ≡ some clock) × (b.status.reconnect_attempts ≡ 0))

  open_target-ready :
      (now : Stamp) (target : Option BluetoothDevice) (b : BluetoothConnectionSupervisor F)
      → IsReadyWith
          (not b.has_connected_once)
          (finish_cycle isoformat show now (open_target isoformat show now opened (target, b)))
  unfolding open_target establish announce emit_lifecycle_event
  open_target-ready now target b = (refl, (refl, refl))

  after_scan-once :
      (ds : List BluetoothDevice) (b : BluetoothConnectionSupervisor F)
      → (after_scan isoformat show ds b).1.has_connected_once ≡ b.has_connected_once
  after_scan-once ds b = elim (Option-cases (pick_device b.selected_device_id ds)) [
    | inl nothing ↦ rw (nothing) refl
    | inr (d, found) ↦ rw (found) refl
  ]

  pub connect_cycle-ready :
      (now : Stamp) (rs : List (String × Option String)) (b : BluetoothConnectionSupervisor F)
      → IsReadyWith (not b.has_connected_once) (connect_cycle isoformat show now (rows rs) opened b)
  unfolding connect_cycle connect_once
  connect_cycle-ready now rs b =
      if_elim
        (λ (r : Option String × BluetoothConnectionSupervisor F).
          IsReadyWith (not b.has_connected_once) (finish_cycle isoformat show now r))
        b.cfg.prefer_scan_device_object
        (λ t.
          subst
            (λ x. IsReadyWith (not x) (
              finish_cycle isoformat show now (
                open_target isoformat show now opened
                  (after_scan isoformat show (to_devices rs) b))))
            (after_scan-once (to_devices rs) b)
            (open_target-ready now (after_scan isoformat show (to_devices rs) b).0
              (after_scan isoformat show (to_devices rs) b).1))
        (λ t. open_target-ready now (fallback_target isoformat show b) b)

  -- The supervisor after a connect command is read, before it connects.
  abbrev wanting :
      Surroundings F → BluetoothConnectionSupervisor F → BluetoothConnectionSupervisor F
  wanting w b = record (read_desired isoformat show w.now b) {
    last_command_seq = b.runtime.bluetooth_command_seq;
    desired_connected = true;
    manual_disconnect = false;
    selected_device_id =
        or_else (non_empty b.runtime.bluetooth_pending_command_device_id) b.selected_device_id;
  }

  run_once-connect :
      (w : Surroundings F) (b : BluetoothConnectionSupervisor F)
      → leb b.runtime.bluetooth_command_seq b.last_command_seq ≡ false
      → b.runtime.bluetooth_pending_command ≡ some BluetoothCommand.connect
      → run_once isoformat show w b ≡ drive_adapter isoformat show w b.adapter (wanting w b)
  unfolding run_once drive apply_command
  run_once-connect w b new is =
      let device = non_empty b.runtime.bluetooth_pending_command_device_id in
      let c : BluetoothConnectionSupervisor F = record (read_desired isoformat show w.now b) {
        last_command_seq = b.runtime.bluetooth_command_seq;
      } in
      ap (after_sync isoformat show w) (
        sync-new isoformat show w.now w.command_scan b new
        ∙ ap (λ x. apply_command isoformat show w.now w.command_scan x device c) is)

  newer :
      (device : Option String) (b : BluetoothConnectionSupervisor F)
      → b.last_command_seq ≤ b.runtime.bluetooth_command_seq
      → leb (request_connect device b.runtime).bluetooth_command_seq b.last_command_seq ≡ false
  unfolding request_connect request set_bluetooth_desired_connected set_bluetooth_selected_device_id
  newer none b h = ground arith
  newer (some d) b h = ground arith

  -- Where no command number is ahead of the settings and the supervisor has no adapter, the next
  -- iteration after a request to connect, if its scan returns and its adapter opens, leaves the
  -- supervisor ready, with no failed attempts, and with an adapter that resets the clock of the
  -- control unit only if the supervisor had never been connected.
  pub request_connect-ready :
      (w : Surroundings F) (device : Option String) (rs : List (String × Option String))
      → (b : BluetoothConnectionSupervisor F) → b.last_command_seq ≤ b.runtime.bluetooth_command_seq
      → b.adapter ≡ none
      → w.target_scan ≡ rows rs
      → w.opening ≡ opened
      → IsReadyWith (not b.has_connected_once) (
          run_once isoformat show w
            (with_runtime isoformat show (request_connect device b.runtime) b))
  request_connect-ready w device rs b h empty found opens =
      let s = request_connect device b.runtime in
      let c = wanting w (with_runtime isoformat show s b) in
      subst (IsReadyWith (not b.has_connected_once))
        (sym (
          run_once-connect w (with_runtime isoformat show s b) (newer device b h)
            (is_connect device b.runtime)
          ∙ ap (λ a. drive_adapter isoformat show w a c) empty
          ∙ ap (λ x. connect_cycle isoformat show w.now x w.opening c) found
          ∙ ap (λ x. connect_cycle isoformat show w.now (rows rs) x c) opens))
        (connect_cycle-ready w.now rs c)
