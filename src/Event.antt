-- ===== src/Event.antt =====
-- event_model.py: the canonical telemetry events, as they are once `TelemetryEvent` has validated
-- them. The payload dictionary of an event type is a constructor with that type's keys; `F` is the
-- type of Python floats. Times are naturals: microseconds for wall clocks, milliseconds for the
-- monotonic clock.
use carrera_monitor.Prelude.{ℕ, String, Bool, Option, none, some}
pub mod Validation
pub mod Typed
pub mod Tests
use carrera_monitor.Prelude.Int.{ℤ}

pub data EventType : Type 0 where
  lap race_state fuel controller_input speed brake pitlane connection_state raw not_supported :
      EventType

pub data RaceState : Type 0 where
  idle countdown running paused finished : RaceState

pub data ConnectionState : Type 0 where
  disconnected manually_disconnected scanning connecting connected subscribing : ConnectionState
  ready stale degraded stalled reconnecting error : ConnectionState

pub data PitlaneReason : Type 0 where
  manual fuel unknown : PitlaneReason

pub data Source : Type 0 where
  carrera_appconnect mock system : Source

-- The keys that a `connection_state` payload may have; a key that is absent reads as `None`.
pub record ConnectionPayload : Type 0 where
  pub state : ConnectionState
  pub error : Option String
  pub reason : Option String
  pub timeout_streak : Option ℕ
  pub event : Option String
  pub desired_connected : Option Bool
  pub device_id : Option String
  pub device_name : Option String
  pub mac_address : Option String
  pub rssi : Option ℤ
  pub connected_at : Option String
  pub disconnected_at : Option String
  pub last_seen_at : Option String
  pub last_rx_monotonic_ms : Option ℕ
  pub reconnect_attempts : Option ℕ

pub data Payload (F : Type 0) : Type 0 where
  lap : ℕ → ℕ → Option ℕ → Payload F
  race_state : RaceState → Payload F
  fuel : F → Payload F
  controller_input : F → F → Payload F
  speed : F → Payload F
  brake : F → Payload F
  pitlane : Bool → PitlaneReason → Payload F
  connection_state : ConnectionPayload → Payload F
  raw : Payload F
  not_supported : String → Payload F

abbrev pub payload_type : {F : Type 0} → Payload F → EventType
payload_type (Payload.lap _ _ _) = EventType.lap
payload_type (Payload.race_state _) = EventType.race_state
payload_type (Payload.fuel _) = EventType.fuel
payload_type (Payload.controller_input _ _) = EventType.controller_input
payload_type (Payload.speed _) = EventType.speed
payload_type (Payload.brake _) = EventType.brake
payload_type (Payload.pitlane _ _) = EventType.pitlane
payload_type (Payload.connection_state _) = EventType.connection_state
payload_type Payload.raw = EventType.raw
payload_type (Payload.not_supported _) = EventType.not_supported

pub record TelemetryEvent (F : Type 0) : Type 0 where
  pub timestamp_iso : ℕ
  pub timestamp_monotonic_ms : ℕ
  pub source : Source
  pub car_id : Option ℕ
  pub controller_id : Option ℕ
  pub payload : Payload F

abbrev pub event_type : {F : Type 0} → TelemetryEvent F → EventType
event_type e = payload_type e.payload

-- `event.payload["lap_time_ms"]` of a lap event.
abbrev pub lap_time_ms : {F : Type 0} → Payload F → Option ℕ
lap_time_ms (Payload.lap _ t _) = some t
lap_time_ms _ = none

-- `event.payload.get("cu_timestamp_ms")`
abbrev pub cu_timestamp : {F : Type 0} → Payload F → Option ℕ
cu_timestamp (Payload.lap _ _ t) = t
cu_timestamp _ = none
