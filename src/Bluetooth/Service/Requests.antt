-- ===== src/Bluetooth/Service/Requests.antt =====
-- What an iteration of the supervisor makes of the requests of the user interface.
use carrera_monitor.Prelude.{
  ℕ, ◌≤◌, String, true, false, ◌≡◌, refl, ap, ◌∙◌, none, some, List, [], ◌∷◌, leb, arith,
}
use carrera_monitor.Client.Frames.{Stamp}
use carrera_monitor.Bluetooth.{BluetoothState, non_empty}
use carrera_monitor.Bluetooth.Settings.{
  BluetoothCommand, RuntimeSettings, request, consume_bluetooth_command,
  set_bluetooth_desired_connected,
}
use carrera_monitor.Bluetooth.Supervisor.{
  BluetoothConnectionSupervisor, Scan, emit_lifecycle_event, disconnect_current, scan_devices,
  keeps_devices,
}
use carrera_monitor.Bluetooth.Supervisor.Rounds.{
  Surroundings, run_once, drive, after_sync, read_desired, sync_runtime_requests, apply_command,
}
use carrera_monitor.Bluetooth.Service.{request_disconnect, request_scan}

module _ {F : Type 0} (isoformat show : ℕ → String) where
  -- Iterations in turn, with no request in between.
  abbrev pub run_all :
      List (Surroundings F) → BluetoothConnectionSupervisor F → BluetoothConnectionSupervisor F
  run_all [] b = b
  run_all (w ∷ ws) b = run_all ws (run_once isoformat show w b)

  -- The supervisor when the settings have been written.
  abbrev pub with_runtime :
      RuntimeSettings → BluetoothConnectionSupervisor F → BluetoothConnectionSupervisor F
  with_runtime runtime b = record b { runtime = runtime }

  pub sync-old :
      (now : Stamp) (scan : Scan) (b : BluetoothConnectionSupervisor F)
      → leb b.runtime.bluetooth_command_seq b.last_command_seq ≡ true
      → sync_runtime_requests isoformat show now scan b ≡ (none, read_desired isoformat show now b)
  unfolding sync_runtime_requests consume_bluetooth_command
  sync-old now scan b old = rw (old, old) refl

  pub sync-new :
      (now : Stamp) (scan : Scan) (b : BluetoothConnectionSupervisor F)
      → leb b.runtime.bluetooth_command_seq b.last_command_seq ≡ false
      → sync_runtime_requests isoformat show now scan b
        ≡ apply_command isoformat show now scan b.runtime.bluetooth_pending_command
            (non_empty b.runtime.bluetooth_pending_command_device_id)
            (record (read_desired isoformat show now b) {
              last_command_seq = b.runtime.bluetooth_command_seq;
            })
  unfolding sync_runtime_requests consume_bluetooth_command
  sync-new now scan b new = rw (new, new) refl

  -- No request is unread, and none is for a connection.
  IsUnwanted : BluetoothConnectionSupervisor F → Type 0
  IsUnwanted b =
      (leb b.runtime.bluetooth_command_seq b.last_command_seq ≡ true)
      × (b.runtime.bluetooth_desired_connected ≡ false)

  run_once-IsUnwanted :
      (w : Surroundings F) (b : BluetoothConnectionSupervisor F)
      → IsUnwanted b
      → run_once isoformat show w b ≡ read_desired isoformat show w.now b
  unfolding run_once drive IsUnwanted
  run_once-IsUnwanted w b (old, off) =
      ap (after_sync isoformat show w) (sync-old w.now w.command_scan b old) ∙ rw (off) refl

  run_all-IsUnwanted :
      (ws : List (Surroundings F)) (b : BluetoothConnectionSupervisor F)
      → IsUnwanted b
      → ((run_all ws b).adapter ≡ b.adapter) × ((run_all ws b).status.state ≡ b.status.state)
  unfolding IsUnwanted
  run_all-IsUnwanted [] b h = (refl, refl)
  run_all-IsUnwanted (w ∷ ws) b h =
      let c = read_desired isoformat show w.now b in
      let (a, s) = run_all-IsUnwanted ws c h in
      let e = run_once-IsUnwanted w b h in
      (ap (λ x. (run_all ws x).adapter) e ∙ a, ap (λ x. (run_all ws x).status.state) e ∙ s)

  -- An iteration that leaves an unwanted connection, and those after it.
  run_all-after :
      (w : Surroundings F) (ws : List (Surroundings F)) (b c : BluetoothConnectionSupervisor F)
      → run_once isoformat show w b ≡ c
      → IsUnwanted c
      → ((run_all (w ∷ ws) b).adapter ≡ c.adapter)
        × ((run_all (w ∷ ws) b).status.state ≡ c.status.state)
  run_all-after w ws b c e h =
      let (a, s) = run_all-IsUnwanted ws c h in
      (ap (λ x. (run_all ws x).adapter) e ∙ a, ap (λ x. (run_all ws x).status.state) e ∙ s)

  -- The supervisor after an iteration that reads a disconnect request.
  abbrev disconnected_by :
      Surroundings F → BluetoothConnectionSupervisor F → BluetoothConnectionSupervisor F
  disconnected_by w b =
      disconnect_current isoformat w.now true "ui_disconnect"
        (record (read_desired isoformat show w.now b) {
          last_command_seq = b.runtime.bluetooth_command_seq;
          desired_connected = false;
          manual_disconnect = true;
        })

  run_once-disconnect :
      (w : Surroundings F) (b : BluetoothConnectionSupervisor F)
      → b.last_command_seq ≤ b.runtime.bluetooth_command_seq
      → run_once isoformat show w (with_runtime (request_disconnect b.runtime) b)
        ≡ disconnected_by w (with_runtime (request_disconnect b.runtime) b)
  unfolding run_once request_disconnect request apply_command drive disconnect_current
      emit_lifecycle_event
  run_once-disconnect w b h =
      ap (after_sync isoformat show w) (
        sync-new w.now w.command_scan (with_runtime (request_disconnect b.runtime) b)
          (ground arith))

  -- Where no command number is ahead of the settings, a request to disconnect is carried out in
  -- the next iteration, whatever the state, and lasts: after any further iterations without a new
  -- request, the supervisor holds no adapter and its state is manually disconnected.
  pub request_disconnect-lasts :
      (w : Surroundings F) (ws : List (Surroundings F)) (b : BluetoothConnectionSupervisor F)
      → b.last_command_seq ≤ b.runtime.bluetooth_command_seq
      → ((run_all (w ∷ ws) (with_runtime (request_disconnect b.runtime) b)).adapter ≡ none)
        × ((run_all (w ∷ ws) (with_runtime (request_disconnect b.runtime) b)).status.state
            ≡ BluetoothState.manually_disconnected)
  unfolding IsUnwanted disconnect_current emit_lifecycle_event request_disconnect request
      set_bluetooth_desired_connected
  request_disconnect-lasts w ws b h =
      run_all-after w ws (with_runtime (request_disconnect b.runtime) b)
        (disconnected_by w (with_runtime (request_disconnect b.runtime) b))
        (run_once-disconnect w b h) (ground arith, refl)

  -- The supervisor after an iteration that reads the request to scan while it is ready.
  abbrev scanned_by :
      Surroundings F → BluetoothConnectionSupervisor F → BluetoothConnectionSupervisor F
  scanned_by w b = record (read_desired isoformat show w.now b) {
    last_command_seq = b.runtime.bluetooth_command_seq;
  }

  run_once-scan :
      (w : Surroundings F) (b : BluetoothConnectionSupervisor F)
      → leb b.runtime.bluetooth_command_seq b.last_command_seq ≡ false
      → b.runtime.bluetooth_pending_command ≡ some BluetoothCommand.scan
      → b.runtime.bluetooth_desired_connected ≡ false
      → keeps_devices b.status.state ≡ true
      → run_once isoformat show w b ≡ scanned_by w b
  unfolding run_once drive apply_command scan_devices
  run_once-scan w b new is off ready =
      ap (after_sync isoformat show w) (sync-new w.now w.command_scan b new) ∙ ground arith

  -- Where no command number is ahead of the settings, a request to disconnect that is followed by a
  -- request to scan before the next iteration is lost: where the supervisor is ready, after any
  -- iterations without a new request it is still ready with its adapter.
  pub request_disconnect-lost :
      (w : Surroundings F) (ws : List (Surroundings F)) (b : BluetoothConnectionSupervisor F)
      → b.last_command_seq ≤ b.runtime.bluetooth_command_seq
      → b.status.state ≡ BluetoothState.ready
      → ((run_all (w ∷ ws) (with_runtime (request_scan (request_disconnect b.runtime)) b)).adapter
          ≡ b.adapter)
        × ((run_all
              (w ∷ ws)
              (with_runtime (request_scan (request_disconnect b.runtime)) b)).status.state
            ≡ BluetoothState.ready)
  unfolding request_scan request_disconnect request set_bluetooth_desired_connected IsUnwanted
      keeps_devices
  request_disconnect-lost w ws b h ready =
      let c = with_runtime (request_scan (request_disconnect b.runtime)) b in
      let (a, s) =
        run_all-after w ws c (scanned_by w c)
          (run_once-scan w c (ground arith) refl refl (ap keeps_devices ready))
          (ground arith, refl) in
      (a, s ∙ ready)
