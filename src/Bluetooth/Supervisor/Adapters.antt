-- ===== src/Bluetooth/Supervisor/Adapters.antt =====
-- A supervisor that says it is connected holds an adapter.
use carrera_monitor.Prelude.{
  ℕ, String, Bool, true, ◌≡◌, refl, ap, Option, none, some, is_some, arith, if_elim, leb,
}
use carrera_monitor.Client.Frames.{Stamp}
use carrera_monitor.Bluetooth.{BluetoothConfig, is_connected_state}
use carrera_monitor.Bluetooth.Settings.{
  RuntimeSettings, BluetoothCommand, consume_bluetooth_command,
}
use carrera_monitor.Bluetooth.Supervisor.{BluetoothConnectionSupervisor, Scan, scan_devices}
use carrera_monitor.Bluetooth.Supervisor.Connecting.{connect_cycle, connect_once}
use carrera_monitor.Bluetooth.Supervisor.Rounds.{
  consumed, read_desired, drive_adapter, after_sync, Surroundings, run_once, drive,
  sync_runtime_requests,
}
use carrera_monitor.Bluetooth.Supervisor.Calls.{
  connect, disconnect, retry_now, shutdown, new_supervisor,
}
use carrera_monitor.Bluetooth.Supervisor.Holding.{
  HoldsAdapter, same-HoldsAdapter, connect-HoldsAdapter, disconnect-HoldsAdapter,
  retry_now-HoldsAdapter, shutdown-HoldsAdapter, scan_devices-HoldsAdapter,
  apply_command-HoldsAdapter, set_error-HoldsAdapter, pump-HoldsAdapter, finish_cycle-HoldsAdapter,
  connect_once-HoldsAdapter,
}

module _ {F : Type 0} (isoformat show : ℕ → String) where
  -- A call of a public method, or an iteration of the loop.
  pub data SupervisorStep
      : BluetoothConnectionSupervisor F → BluetoothConnectionSupervisor F → Type 0 where
    connects :
        (now : Stamp) (device : Option String) {b : BluetoothConnectionSupervisor F}
        → SupervisorStep b (connect isoformat now device b)
    disconnects :
        (now : Stamp) (manual : Bool) {b : BluetoothConnectionSupervisor F}
        → SupervisorStep b (disconnect isoformat now manual b)
    retries :
        (now : Stamp) {b : BluetoothConnectionSupervisor F}
        → SupervisorStep b (retry_now isoformat now b)
    scans :
        (now : Stamp) (scan : Scan) {b : BluetoothConnectionSupervisor F}
        → SupervisorStep b (scan_devices isoformat show now scan b).1
    shuts_down :
        (now : Stamp) {b : BluetoothConnectionSupervisor F}
        → SupervisorStep b (shutdown isoformat now b)
    requests :
        (runtime : RuntimeSettings) {b : BluetoothConnectionSupervisor F}
        → SupervisorStep b (record b { runtime = runtime })
    runs :
        (w : Surroundings F) {b : BluetoothConnectionSupervisor F}
        → SupervisorStep b (run_once isoformat show w b)

  infix 40 ◌⟶*◌
  pub data ◌⟶*◌ : BluetoothConnectionSupervisor F → BluetoothConnectionSupervisor F → Type 0 where
    done : {b : BluetoothConnectionSupervisor F} → b ⟶* b
    step : {b c d : BluetoothConnectionSupervisor F} → SupervisorStep b c → c ⟶* d → b ⟶* d

  drive_adapter-HoldsAdapter :
      (w : Surroundings F) (a : Option Bool) (b : BluetoothConnectionSupervisor F)
      → b.adapter ≡ a
      → HoldsAdapter (drive_adapter isoformat show w a b)
  unfolding connect_cycle
  drive_adapter-HoldsAdapter w none b e =
      finish_cycle-HoldsAdapter isoformat show w.now
        (connect_once isoformat show w.now w.target_scan w.opening b)
        (connect_once-HoldsAdapter isoformat show w.now w.target_scan w.opening b)
  drive_adapter-HoldsAdapter w (some a) b e =
      pump-HoldsAdapter isoformat show w.now w.arrival b (ap is_some e)

  drive-HoldsAdapter :
      (w : Surroundings F) (b : BluetoothConnectionSupervisor F)
      → HoldsAdapter b
      → HoldsAdapter (drive isoformat show w b)
  unfolding drive
  drive-HoldsAdapter w b h =
      if_elim HoldsAdapter b.desired_connected (λ t. drive_adapter-HoldsAdapter w b.adapter b refl)
        (λ t. h)

  consumed-HoldsAdapter :
      (now : Stamp) (scan : Scan) (r : ℕ × (Option BluetoothCommand × Option String))
      → (b : BluetoothConnectionSupervisor F) → HoldsAdapter b
      → HoldsAdapter (consumed isoformat show now scan r b).1
  consumed-HoldsAdapter now scan (seq, (command, device)) b h =
      if_elim (λ (r : Option String × BluetoothConnectionSupervisor F). HoldsAdapter r.1)
        (leb seq b.last_command_seq) (λ t. h)
        (λ t.
          apply_command-HoldsAdapter isoformat show now scan command device
            (record b { last_command_seq = seq })
            (same-HoldsAdapter isoformat show b (record b { last_command_seq = seq }) refl refl h))

  sync-HoldsAdapter :
      (now : Stamp) (scan : Scan) (b : BluetoothConnectionSupervisor F)
      → HoldsAdapter b
      → HoldsAdapter (sync_runtime_requests isoformat show now scan b).1
  unfolding sync_runtime_requests
  sync-HoldsAdapter now scan b h =
      consumed-HoldsAdapter now scan (consume_bluetooth_command b.last_command_seq b.runtime)
        (read_desired isoformat show now b)
        (same-HoldsAdapter isoformat show b (read_desired isoformat show now b) refl refl h)

  after_sync-HoldsAdapter :
      (w : Surroundings F) (r : Option String × BluetoothConnectionSupervisor F)
      → HoldsAdapter r.1
      → HoldsAdapter (after_sync isoformat show w r)
  after_sync-HoldsAdapter w (none, b) h = drive-HoldsAdapter w b h
  after_sync-HoldsAdapter w (some text, b) h =
      set_error-HoldsAdapter isoformat show w.now "supervisor loop failure" b

  run_once-HoldsAdapter :
      (w : Surroundings F) (b : BluetoothConnectionSupervisor F)
      → HoldsAdapter b
      → HoldsAdapter (run_once isoformat show w b)
  unfolding run_once
  run_once-HoldsAdapter w b h =
      after_sync-HoldsAdapter w (sync_runtime_requests isoformat show w.now w.command_scan b)
        (sync-HoldsAdapter w.now w.command_scan b h)

  step-HoldsAdapter :
      {b c : BluetoothConnectionSupervisor F} → SupervisorStep b c → HoldsAdapter b → HoldsAdapter c
  step-HoldsAdapter (connects now device {b}) h = connect-HoldsAdapter isoformat show now device b h
  step-HoldsAdapter (disconnects now manual {b}) h =
      disconnect-HoldsAdapter isoformat show now manual b
  step-HoldsAdapter (retries now {b}) h = retry_now-HoldsAdapter isoformat show now b
  step-HoldsAdapter (scans now scan {b}) h = scan_devices-HoldsAdapter isoformat show now scan b h
  step-HoldsAdapter (shuts_down now {b}) h = shutdown-HoldsAdapter isoformat show now b
  step-HoldsAdapter (requests runtime {b}) h =
      same-HoldsAdapter isoformat show b (record b { runtime = runtime }) refl refl h
  step-HoldsAdapter (runs w {b}) h = run_once-HoldsAdapter w b h

  steps-HoldsAdapter :
      {b c : BluetoothConnectionSupervisor F} → b ⟶* c → HoldsAdapter b → HoldsAdapter c
  steps-HoldsAdapter done h = h
  steps-HoldsAdapter (step x xs) h = steps-HoldsAdapter xs (step-HoldsAdapter x h)

  -- After any calls of its methods, requests written to the settings and iterations of its loop,
  -- a new supervisor whose state is connected, subscribing, ready or stale holds an adapter.
  pub reachable-HoldsAdapter :
      (now : Stamp) (cfg : BluetoothConfig) (runtime : RuntimeSettings)
      → (b : BluetoothConnectionSupervisor F) → new_supervisor now cfg runtime ⟶* b
      → is_connected_state b.status.state ≡ true
      → is_some b.adapter ≡ true
  unfolding HoldsAdapter new_supervisor is_connected_state
  reachable-HoldsAdapter now cfg runtime b steps h = steps-HoldsAdapter steps (λ e. ground arith) h
