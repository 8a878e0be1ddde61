-- ===== src/Client/Runner.antt =====
-- carrera_client.py: `CarreraClientRunner`. `_run` is cut at its `await` points: a phase is where the
-- task waits, and a step is what runs from there to the next wait. Seconds and milliseconds are
-- natural numbers, and the elapsed time is compared in milliseconds.
pub mod Reachable
pub mod Backoff
use Prim.Native.Nat.{min, max}
use carrera_monitor.Prelude.{
  ℕ, zero, ◌+◌, ◌-◌, ◌*◌, ◌==◌, String, Bool, true, false, not, ◌&&◌, ◌||◌, ◌≡◌, Option, none, some,
  [], leb, ltb, if◌then◌else◌,
}
use carrera_monitor.Event.{
  TelemetryEvent, Payload, Source, RaceState, running, ConnectionState, connected, disconnected,
  scanning, connecting, reconnecting, error,
}
use carrera_monitor.Queue.{Queue, offer}
use carrera_monitor.Client.Frames.{Stamp}

-- Where the task waits: for `adapter.connect`, for the next event of the adapter, for
-- `adapter.disconnect`, for the sleep between two attempts, or no more.
pub data Phase : Type 0 where
  opening pumping closing sleeping ended : Phase

-- `current` is the adapter, of which only `_reset_on_connect` is kept.
pub record Runner (F : Type 0) : Type 0 where
  pub mac : Option String
  pub reconnect_initial : ℕ
  pub reconnect_max : ℕ
  pub periodic_forced_reconnect : ℕ
  pub periodic_only_when_not_running : Bool
  pub latest_race_state : Option RaceState
  pub queue : Queue (TelemetryEvent F)
  pub stop : Bool
  pub current : Option Bool
  pub state : ConnectionState
  pub phase : Phase
  pub backoff : ℕ
  pub attempt : ℕ
  pub connected_since_ms : ℕ

abbrev pub is_running : Option RaceState → Bool
is_running (some running) = true
is_running _ = false

-- The race state of a `race_state` event, or the one known before.
abbrev pub race_state_or : {F : Type 0} → Option RaceState → Payload F → Option RaceState
race_state_or known (Payload.race_state s) = some s
race_state_or known _ = known

-- The adapter, once a `finally` clause has run.
abbrev pub after_finally : Phase → Option Bool → Option Bool
after_finally Phase.pumping a = none
after_finally Phase.closing a = none
after_finally _ a = a

module _ {F : Type 0} where
  -- `__init__`: a runner before its first `connect`.
  unfoldable pub new_runner : Option String → ℕ → ℕ → ℕ → Bool → Runner F
  new_runner mac interval max_interval periodic only_idle = record {
    mac = mac;
    reconnect_initial = interval;
    reconnect_max = max interval max_interval;
    periodic_forced_reconnect = periodic;
    periodic_only_when_not_running = only_idle;
    latest_race_state = none;
    queue = record { maxsize = 4096; items = [] };
    stop = false;
    current = none;
    state = disconnected;
    phase = Phase.ended;
    backoff = interval;
    attempt = 0;
    connected_since_ms = 0;
  }

  abbrev pub connection_event :
      Stamp → ConnectionState → Option String → Option String → TelemetryEvent F
  connection_event now state text reason = record {
    timestamp_iso = now.iso;
    timestamp_monotonic_ms = now.monotonic_ms;
    source = Source.carrera_appconnect;
    car_id = none;
    controller_id = none;
    payload = Payload.connection_state (record {
      state = state;
      error = text;
      reason = reason;
      timeout_streak = none;
      event = none;
      desired_connected = none;
      device_id = none;
      device_name = none;
      mac_address = none;
      rssi = none;
      connected_at = none;
      disconnected_at = none;
      last_seen_at = none;
      last_rx_monotonic_ms = none;
      reconnect_attempts = none;
    });
  }

  unfoldable pub emit_connection :
      Stamp → ConnectionState → Option String → Option String → Runner F → Runner F
  unfolding offer
  emit_connection now state text reason r = record r {
    state = state;
    queue = offer r.queue (connection_event now state text reason);
  }

  unfoldable pub periodic_reconnect_due : ℕ → Runner F → Bool
  periodic_reconnect_due now_ms r =
      ltb 0 r.periodic_forced_reconnect
      && leb (r.periodic_forced_reconnect * 1000) (now_ms - r.connected_since_ms)
      && not (r.periodic_only_when_not_running && is_running r.latest_race_state)

  -- The `finally` of the task.
  abbrev pub finish : Stamp → Runner F → Runner F
  finish now r = record (emit_connection now disconnected none none r) { phase = Phase.ended }

  -- The top of the loop: it ends, or an adapter is made for the next attempt.
  unfoldable pub begin : Stamp → Runner F → Runner F
  unfolding emit_connection
  begin now r =
      if r.stop
      then finish now r
      else record (emit_connection now (elim r.mac [ none ↦ scanning | some m ↦ connecting ]) none
          none r) { current = some (r.attempt == 0); phase = Phase.opening }

  -- The task sleeps for `backoff`, unless it is to stop.
  unfoldable pub rest : Stamp → Runner F → Runner F
  unfolding emit_connection
  rest now r = if r.stop then finish now r else record r { phase = Phase.sleeping }

  -- `connect` of a runner whose task has ended.
  unfoldable pub start : Stamp → Option String → Runner F → Runner F
  unfolding begin
  start now mac r = begin now (record r {
    mac = elim mac [ none ↦ r.mac | some m ↦ some m ];
    stop = false;
    backoff = r.reconnect_initial;
    attempt = 0;
  })

  -- `disconnect`, up to the wait for the task.
  unfoldable pub request_stop : Runner F → Runner F
  request_stop r = record r { stop = true; current = none }

  unfoldable pub connect_succeeded : Stamp → Runner F → Runner F
  unfolding emit_connection
  connect_succeeded now r = record (emit_connection now connected none none r) {
    connected_since_ms = now.monotonic_ms;
    backoff = r.reconnect_initial;
    phase = Phase.pumping;
  }

  -- An `AdapterConnectionError`.
  unfoldable pub connect_failed : Stamp → String → Runner F → Runner F
  unfolding emit_connection rest
  connect_failed now text r =
      rest now (record (emit_connection now reconnecting (some text) (some "connect_failed") r) {
        current = none;
      })

  -- After the sleep of a failed attempt, or of a connection that ended.
  unfoldable pub slept : Stamp → Runner F → Runner F
  unfolding begin
  slept now r =
      begin now (record r {
        backoff = min (max 1 (r.backoff * 2)) r.reconnect_max;
        attempt = r.attempt + 1;
      })

  -- An event of the adapter.
  unfoldable pub pump_event : Stamp → TelemetryEvent F → Runner F → Runner F
  unfolding emit_connection offer periodic_reconnect_due
  pump_event now ev r =
      let s : Runner F = record r {
        latest_race_state = race_state_or r.latest_race_state ev.payload;
        queue = offer r.queue ev;
      } in
      if s.stop
      then record s { phase = Phase.closing }
      else if periodic_reconnect_due now.monotonic_ms s
      then record (emit_connection now reconnecting (some "periodic maintenance reconnect")
          (some "periodic_maintenance") s) { phase = Phase.closing }
      else s

  -- The adapter has no more events.
  unfoldable pub stream_ended : Runner F → Runner F
  stream_ended r = record r { phase = Phase.closing }

  -- An `AdapterReadError`.
  unfoldable pub read_failed : Stamp → String → Runner F → Runner F
  unfolding emit_connection
  read_failed now text r =
      record (emit_connection now reconnecting (some text) (some "adapter_read_error") r) {
        phase = Phase.closing;
      }

  -- Any other exception of the adapter.
  unfoldable pub pump_raised : Stamp → String → Runner F → Runner F
  unfolding emit_connection
  pump_raised now text r =
      record (emit_connection now error (some text) (some "unexpected_runner_error") r) {
        phase = Phase.closing;
      }

  -- `adapter.disconnect` is over.
  unfoldable pub closed : Stamp → Runner F → Runner F
  unfolding rest
  closed now r = rest now (record r { current = none })

  -- The task is cancelled, or `adapter.connect` raises another exception.
  unfoldable pub aborted : Stamp → Runner F → Runner F
  unfolding emit_connection
  aborted now r = finish now (record r { current = after_finally r.phase r.current })
