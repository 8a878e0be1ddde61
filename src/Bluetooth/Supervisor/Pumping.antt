-- ===== src/Bluetooth/Supervisor/Pumping.antt =====
-- bluetooth_connection_supervisor.py: what the supervisor does with the events of its adapter.
use carrera_monitor.Prelude.{
  ℕ, ◌+◌, ◌-◌, ◌*◌, String, Bool, true, false, not, ◌&&◌, Option, none, some, leb, if◌then◌else◌,
}
use carrera_monitor.Event.{TelemetryEvent, Payload, Source, ConnectionState}
use carrera_monitor.Queue.{offer}
use carrera_monitor.Client.Frames.{Stamp}
use carrera_monitor.Bluetooth.{BluetoothState}
use carrera_monitor.Bluetooth.Supervisor.{
  BluetoothConnectionSupervisor, with_updates, set_state, emit_lifecycle_event, disconnect_current,
  set_error,
}

-- What the next event of the adapter comes to within half a second.
pub data Arrival (F : Type 0) : Type 0 where
  arrives : TelemetryEvent F → Arrival F
  timeout : Arrival F
  stream_ended : Arrival F
  read_error : String → Arrival F
  pump_raised : Arrival F

abbrev is_carrera : Source → Bool
is_carrera Source.carrera_appconnect = true
is_carrera _ = false

abbrev is_connection_event : {F : Type 0} → Payload F → Bool
is_connection_event (Payload.connection_state c) = true
is_connection_event _ = false

-- The states that telemetry brings back to ready.
abbrev is_waiting : BluetoothState → Bool
is_waiting BluetoothState.stale = true
is_waiting BluetoothState.connected = true
is_waiting BluetoothState.subscribing = true
is_waiting _ = false

abbrev is_ready : BluetoothState → Bool
is_ready BluetoothState.ready = true
is_ready _ = false

-- The states of the adapter that the supervisor takes over.
abbrev mapped_state : ConnectionState → Option BluetoothState
mapped_state ConnectionState.stale = some BluetoothState.stale
mapped_state ConnectionState.reconnecting = some BluetoothState.reconnecting
mapped_state ConnectionState.error = some BluetoothState.error
mapped_state _ = none

abbrev elapsed_past : ℕ → Option ℕ → ℕ → Bool
elapsed_past now_ms none limit = false
elapsed_past now_ms (some last) limit = leb limit (now_ms - last)

module _ {F : Type 0} (isoformat show : ℕ → String) where
  -- The reconnect of `_maybe_mark_stale`.
  abbrev stale_reconnect : Stamp → BluetoothConnectionSupervisor F → BluetoothConnectionSupervisor F
  stale_reconnect now b =
      emit_lifecycle_event isoformat now "bluetooth_reconnecting" "stale_reconnect" (
        with_updates now
          (λ s. record s {
            state = BluetoothState.reconnecting;
            reconnect_attempts = s.reconnect_attempts + 1;
          })
          (disconnect_current isoformat now false "stale_reconnect" b))

  unfoldable pub maybe_mark_stale :
      Stamp → BluetoothConnectionSupervisor F → BluetoothConnectionSupervisor F
  unfolding emit_lifecycle_event disconnect_current
  maybe_mark_stale now b =
      if is_ready b.status.state
        && elapsed_past now.monotonic_ms b.status.last_rx_monotonic_ms
            (b.cfg.stale_timeout_seconds * 1000)
      then (let c = emit_lifecycle_event isoformat now "bluetooth_stale" "telemetry_timeout" (
            with_updates now
              (λ s. record s {
                state = BluetoothState.stale;
                last_error = some "telemetry stale timeout";
              })
              b) in
          if b.cfg.reconnect_on_stale && b.desired_connected then stale_reconnect now c else c)
      else b

  unfoldable pub handle_unexpected_disconnect :
      Stamp → String → BluetoothConnectionSupervisor F → BluetoothConnectionSupervisor F
  unfolding emit_lifecycle_event disconnect_current
  handle_unexpected_disconnect now text b =
      if b.manual_disconnect && not b.desired_connected
      then b
      else (let c = disconnect_current isoformat now false "unexpected_disconnect" b in
          if b.desired_connected
          then emit_lifecycle_event isoformat now "bluetooth_reconnecting" "unexpected_disconnect" (
              with_updates now
                (λ s. record s {
                  state = BluetoothState.reconnecting;
                  reconnect_attempts = s.reconnect_attempts + 1;
                  last_error = some text;
                  desired_connected = true;
                })
                c)
          else c)

  -- What telemetry does to the status.
  unfoldable pub telemetry_received :
      Stamp → TelemetryEvent F → BluetoothConnectionSupervisor F → BluetoothConnectionSupervisor F
  unfolding emit_lifecycle_event
  telemetry_received now ev b =
      if is_carrera ev.source && not (is_connection_event ev.payload)
      then (let c =
            with_updates now
              (λ s. record s {
                last_seen_at = some now.iso;
                last_rx_monotonic_ms = some ev.timestamp_monotonic_ms;
              })
              b in
          if is_waiting b.status.state
          then emit_lifecycle_event isoformat now "bluetooth_ready" "telemetry_rx" (
              with_updates now
                (λ s. record s {
                  state = BluetoothState.ready;
                  last_error = none;
                  reconnect_attempts = 0;
                })
                c)
          else c)
      else b

  abbrev take_over :
      Stamp
      → Option BluetoothState
      → BluetoothConnectionSupervisor F
      → BluetoothConnectionSupervisor F
  take_over now none b = b
  take_over now (some state) b = set_state now state b

  -- `_ingest_connection_event`
  unfoldable pub ingest_connection_event :
      Stamp → Payload F → BluetoothConnectionSupervisor F → BluetoothConnectionSupervisor F
  ingest_connection_event now (Payload.connection_state c) b =
      take_over now (mapped_state c.state) b
  ingest_connection_event now _ b = b

  -- `_pump_live_events_once`, with the `except` clause of `_run`.
  unfoldable pub pump_live_events_once :
      Stamp → Arrival F → BluetoothConnectionSupervisor F → BluetoothConnectionSupervisor F
  unfolding maybe_mark_stale handle_unexpected_disconnect telemetry_received ingest_connection_event
      set_error offer
  pump_live_events_once now timeout b = maybe_mark_stale now b
  pump_live_events_once now stream_ended b = handle_unexpected_disconnect now "stream_ended" b
  pump_live_events_once now (read_error text) b = handle_unexpected_disconnect now text b
  pump_live_events_once now pump_raised b = set_error isoformat now "supervisor loop failure" b
  pump_live_events_once now (arrives ev) b =
      let c = ingest_connection_event now ev.payload (telemetry_received now ev b) in
      maybe_mark_stale now (record c { events = offer c.events ev })
