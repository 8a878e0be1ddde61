-- ===== src/Bluetooth/Supervisor/Holding.antt =====
-- Each operation of the supervisor, and the adapter it holds.
use carrera_monitor.Prelude.{
  ℕ, String, Bool, true, ◌≡◌, refl, sym, ap, ◌∙◌, Option, none, some, is_some, arith, if_elim,
}
use mathlib.Core.Option.{some-ne-none}
use carrera_monitor.Event.{TelemetryEvent, Payload}
use carrera_monitor.Queue.{offer}
use carrera_monitor.Client.Frames.{Stamp}
use carrera_monitor.Bluetooth.{BluetoothDevice, is_connected_state}
use carrera_monitor.Bluetooth.Settings.{BluetoothCommand}
use carrera_monitor.Bluetooth.Supervisor.{
  BluetoothConnectionSupervisor, Scan, rows, scan_raised, emit_lifecycle_event, disconnect_current,
  set_error, scan_devices, scan_completed,
}
use carrera_monitor.Bluetooth.Supervisor.Connecting.{
  Opening, opened, refused, connect_once, connect_failed, open_target, establish, announce,
  finish_cycle, connect_scanned, fallback_target,
}
use carrera_monitor.Bluetooth.Supervisor.Pumping.{
  Arrival, arrives, timeout, stream_ended, read_error, pump_raised, pump_live_events_once,
  ingest_connection_event, telemetry_received, handle_unexpected_disconnect, maybe_mark_stale,
}
use carrera_monitor.Bluetooth.Supervisor.Rounds.{apply_command}
use carrera_monitor.Bluetooth.Supervisor.Calls.{connect, disconnect, retry_now, shutdown}

-- The supervisor holds an adapter where its state is a connected one.
unfoldable pub HoldsAdapter : {F : Type 0} → BluetoothConnectionSupervisor F → Type 0
HoldsAdapter b = is_connected_state b.status.state ≡ true → is_some b.adapter ≡ true

module _ {F : Type 0} (isoformat show : ℕ → String) where
  pub same-HoldsAdapter :
      (b c : BluetoothConnectionSupervisor F)
      → b.status.state ≡ c.status.state
      → b.adapter ≡ c.adapter
      → HoldsAdapter b
      → HoldsAdapter c
  unfolding HoldsAdapter
  same-HoldsAdapter b c s a h = λ e. ap is_some (sym a) ∙ h (ap is_connected_state s ∙ e)

  pub connect-HoldsAdapter :
      (now : Stamp) (device : Option String) (b : BluetoothConnectionSupervisor F)
      → HoldsAdapter b
      → HoldsAdapter (connect isoformat now device b)
  unfolding connect HoldsAdapter is_connected_state emit_lifecycle_event
  connect-HoldsAdapter now device b h = ground arith

  pub disconnect-HoldsAdapter :
      (now : Stamp) (manual : Bool) (b : BluetoothConnectionSupervisor F)
      → HoldsAdapter (disconnect isoformat now manual b)
  unfolding disconnect HoldsAdapter is_connected_state emit_lifecycle_event disconnect_current
  disconnect-HoldsAdapter now manual b = ground arith

  pub retry_now-HoldsAdapter :
      (now : Stamp) (b : BluetoothConnectionSupervisor F) → HoldsAdapter (retry_now isoformat now b)
  unfolding retry_now HoldsAdapter is_connected_state emit_lifecycle_event disconnect_current
  retry_now-HoldsAdapter now b = λ e. ground arith

  pub shutdown-HoldsAdapter :
      (now : Stamp) (b : BluetoothConnectionSupervisor F) → HoldsAdapter (shutdown isoformat now b)
  unfolding shutdown HoldsAdapter is_connected_state emit_lifecycle_event disconnect_current
  shutdown-HoldsAdapter now b = λ e. ground arith

  pub scan_devices-HoldsAdapter :
      (now : Stamp) (scan : Scan) (b : BluetoothConnectionSupervisor F)
      → HoldsAdapter b
      → HoldsAdapter (scan_devices isoformat show now scan b).1
  unfolding scan_devices scan_completed HoldsAdapter is_connected_state emit_lifecycle_event
  scan_devices-HoldsAdapter now scan b h = ground arith

  pub apply_command-HoldsAdapter :
      (now : Stamp) (scan : Scan) (command : Option BluetoothCommand) (device : Option String)
      → (b : BluetoothConnectionSupervisor F) → HoldsAdapter b
      → HoldsAdapter (apply_command isoformat show now scan command device b).1
  unfolding apply_command disconnect_current emit_lifecycle_event HoldsAdapter is_connected_state
  apply_command-HoldsAdapter now scan none device b h = h
  apply_command-HoldsAdapter now scan (some BluetoothCommand.connect) device b h = h
  apply_command-HoldsAdapter now scan (some BluetoothCommand.disconnect) device b h =
      λ e. ground arith
  apply_command-HoldsAdapter now scan (some BluetoothCommand.retry) device b h = λ e. ground arith
  apply_command-HoldsAdapter now scan (some BluetoothCommand.scan) device b h =
      scan_devices-HoldsAdapter now scan b h

  maybe_mark_stale-HoldsAdapter :
      (now : Stamp) (b : BluetoothConnectionSupervisor F)
      → HoldsAdapter b
      → HoldsAdapter (maybe_mark_stale isoformat show now b)
  unfolding maybe_mark_stale HoldsAdapter is_connected_state emit_lifecycle_event disconnect_current
  maybe_mark_stale-HoldsAdapter now b h = ground arith

  handle-HoldsAdapter :
      (now : Stamp) (text : String) (b : BluetoothConnectionSupervisor F)
      → HoldsAdapter b
      → HoldsAdapter (handle_unexpected_disconnect isoformat show now text b)
  unfolding handle_unexpected_disconnect HoldsAdapter is_connected_state emit_lifecycle_event
      disconnect_current
  handle-HoldsAdapter now text b h = ground arith

  pub set_error-HoldsAdapter :
      (now : Stamp) (text : String) (b : BluetoothConnectionSupervisor F)
      → HoldsAdapter (set_error isoformat now text b)
  unfolding set_error HoldsAdapter is_connected_state emit_lifecycle_event
  set_error-HoldsAdapter now text b = λ e. ground arith

  holding : (b : BluetoothConnectionSupervisor F) → is_some b.adapter ≡ true → HoldsAdapter b
  unfolding HoldsAdapter
  holding b held = λ e. held

  telemetry_received-adapter :
      (now : Stamp) (ev : TelemetryEvent F) (b : BluetoothConnectionSupervisor F)
      → (telemetry_received isoformat show now ev b).adapter ≡ b.adapter
  unfolding telemetry_received emit_lifecycle_event
  telemetry_received-adapter now ev b = ground arith

  ingest_connection_event-adapter :
      (now : Stamp) (p : Payload F) (b : BluetoothConnectionSupervisor F)
      → (ingest_connection_event isoformat show now p b).adapter ≡ b.adapter
  unfolding ingest_connection_event
  ingest_connection_event-adapter now p b = ground arith

  pub pump-HoldsAdapter :
      (now : Stamp) (x : Arrival F) (b : BluetoothConnectionSupervisor F)
      → is_some b.adapter ≡ true
      → HoldsAdapter (pump_live_events_once isoformat show now x b)
  unfolding pump_live_events_once
  pump-HoldsAdapter now timeout b held = maybe_mark_stale-HoldsAdapter now b (holding b held)
  pump-HoldsAdapter now stream_ended b held =
      handle-HoldsAdapter now "stream_ended" b (holding b held)
  pump-HoldsAdapter now (read_error text) b held = handle-HoldsAdapter now text b (holding b held)
  pump-HoldsAdapter now pump_raised b held = set_error-HoldsAdapter now "supervisor loop failure" b
  pump-HoldsAdapter now (arrives ev) b held =
      let c =
        ingest_connection_event isoformat show now ev.payload
          (telemetry_received isoformat show now ev b) in
      let same : c.adapter ≡ b.adapter =
        ingest_connection_event-adapter now ev.payload (telemetry_received isoformat show now ev b)
        ∙ telemetry_received-adapter now ev b in
      maybe_mark_stale-HoldsAdapter now (record c { events = offer c.events ev })
        (holding (record c { events = offer c.events ev }) (ap is_some same ∙ held))

  establish-HoldsAdapter :
      (now : Stamp) (b : BluetoothConnectionSupervisor F)
      → HoldsAdapter (establish isoformat show now b)
  unfolding establish HoldsAdapter emit_lifecycle_event
  establish-HoldsAdapter now b = λ e. refl

  connect_failed-HoldsAdapter :
      (now : Stamp) (text : String) (b : BluetoothConnectionSupervisor F)
      → HoldsAdapter (connect_failed isoformat show now text b)
  unfolding connect_failed HoldsAdapter is_connected_state emit_lifecycle_event
  connect_failed-HoldsAdapter now text b = ground arith

  pub finish_cycle-HoldsAdapter :
      (now : Stamp) (r : Option String × BluetoothConnectionSupervisor F)
      → (r.0 ≡ none → HoldsAdapter r.1)
      → HoldsAdapter (finish_cycle isoformat show now r)
  finish_cycle-HoldsAdapter now (none, b) h = h refl
  finish_cycle-HoldsAdapter now (some text, b) h = connect_failed-HoldsAdapter now text b

  open_target-HoldsAdapter :
      (now : Stamp) (outcome : Opening)
      (r : Option BluetoothDevice × BluetoothConnectionSupervisor F)
      → (open_target isoformat show now outcome r).0 ≡ none
      → HoldsAdapter (open_target isoformat show now outcome r).1
  unfolding open_target
  open_target-HoldsAdapter now opened (target, b) e =
      establish-HoldsAdapter now (announce isoformat show now target b)
  open_target-HoldsAdapter now (refused text) (target, b) e = absurd (some-ne-none text e)

  connect_scanned-HoldsAdapter :
      (now : Stamp) (outcome : Opening) (scan : Scan) (b : BluetoothConnectionSupervisor F)
      → (connect_scanned isoformat show now outcome scan b).0 ≡ none
      → HoldsAdapter (connect_scanned isoformat show now outcome scan b).1
  connect_scanned-HoldsAdapter now outcome (scan_raised text) b e = absurd (some-ne-none text e)
  connect_scanned-HoldsAdapter now outcome (rows rs) b e = open_target-HoldsAdapter now outcome _ e

  pub connect_once-HoldsAdapter :
      (now : Stamp) (scan : Scan) (outcome : Opening) (b : BluetoothConnectionSupervisor F)
      → (connect_once isoformat show now scan outcome b).0 ≡ none
      → HoldsAdapter (connect_once isoformat show now scan outcome b).1
  unfolding connect_once
  connect_once-HoldsAdapter now scan outcome b =
      if_elim
        (λ (r : Option String × BluetoothConnectionSupervisor F). r.0 ≡ none → HoldsAdapter r.1)
        b.cfg.prefer_scan_device_object (λ t. connect_scanned-HoldsAdapter now outcome scan b)
        (λ t. open_target-HoldsAdapter now outcome (fallback_target isoformat show b, b))
