-- ===== src/Event/Validation.antt =====
-- event_model.py: `TelemetryEvent._payload_shape`, on the payload as a dictionary, and the payload
-- that a dictionary stands for. `none` is a `ValueError`.
use carrera_monitor.Prelude.{
  ℕ, String, str_eq, Bool, true, false, not, ◌&&◌, ◌||◌, Option, none, some, is_some, List, [], ◌∷◌,
  ◌++◌, if◌then◌else◌,
}
use carrera_monitor.Prelude.Int.{ℤ, pos, negsuc, leb_ℤ}
use carrera_monitor.Value.{
  Value, null, int, Dict, Python, get, has, remove, as_int, as_text, as_bool, as_number, to_int,
}
use carrera_monitor.Event.{EventType, RaceState, ConnectionState, PitlaneReason}

unfoldable pub parse_race_state : String → Option RaceState
parse_race_state s =
    if str_eq s "idle"
    then some RaceState.idle
    else if str_eq s "countdown"
    then some RaceState.countdown
    else if str_eq s "running"
    then some RaceState.running
    else if str_eq s "paused"
    then some RaceState.paused
    else if str_eq s "finished"
    then some RaceState.finished
    else none

unfoldable pub parse_connection_state : String → Option ConnectionState
parse_connection_state s =
    if str_eq s "disconnected"
    then some ConnectionState.disconnected
    else if str_eq s "manually_disconnected"
    then some ConnectionState.manually_disconnected
    else if str_eq s "scanning"
    then some ConnectionState.scanning
    else if str_eq s "connecting"
    then some ConnectionState.connecting
    else if str_eq s "connected"
    then some ConnectionState.connected
    else if str_eq s "subscribing"
    then some ConnectionState.subscribing
    else if str_eq s "ready"
    then some ConnectionState.ready
    else if str_eq s "stale"
    then some ConnectionState.stale
    else if str_eq s "degraded"
    then some ConnectionState.degraded
    else if str_eq s "stalled"
    then some ConnectionState.stalled
    else if str_eq s "reconnecting"
    then some ConnectionState.reconnecting
    else if str_eq s "error"
    then some ConnectionState.error
    else none

unfoldable pub parse_pitlane_reason : String → Option PitlaneReason
parse_pitlane_reason s =
    if str_eq s "manual"
    then some PitlaneReason.manual
    else if str_eq s "fuel"
    then some PitlaneReason.fuel
    else if str_eq s "unknown"
    then some PitlaneReason.unknown
    else none

-- `_ALLOWED_PAYLOAD_KEYS`
unfoldable pub allowed_keys : EventType → List String
allowed_keys EventType.lap =
    "lap_number" ∷ "lap_time_ms" ∷ "lap" ∷ "time_ms" ∷ "cu_timestamp_ms" ∷ []
allowed_keys EventType.race_state = "state" ∷ []
allowed_keys EventType.fuel = "level_percent" ∷ []
allowed_keys EventType.controller_input = "throttle" ∷ "brake" ∷ []
allowed_keys EventType.speed = "speed_kmh" ∷ []
allowed_keys EventType.brake = "brake" ∷ []
allowed_keys EventType.pitlane = "in_pit" ∷ "reason" ∷ []
allowed_keys EventType.connection_state =
    "state" ∷ "error" ∷ "reason" ∷ "timeout_streak" ∷ "event" ∷ "desired_connected" ∷ "device_id"
    ∷ "device_name" ∷ "mac_address" ∷ "rssi" ∷ "connected_at" ∷ "disconnected_at" ∷ "last_seen_at"
    ∷ "last_rx_monotonic_ms" ∷ "reconnect_attempts" ∷ []
allowed_keys EventType.raw = []
allowed_keys EventType.not_supported = "reason" ∷ []

abbrev pub mem_text : String → List String → Bool
mem_text k [] = false
mem_text k (x ∷ xs) = str_eq x k || mem_text k xs

abbrev pub to_nat : ℤ → Option ℕ
to_nat (pos n) = some n
to_nat (negsuc n) = none

abbrev pub bind {ℓ κ} : {A : Type ℓ} {B : Type κ} → Option A → (A → Option B) → Option B
bind none f = none
bind (some a) f = f a

abbrev pub at_least : ℤ → Option ℤ → Bool
at_least n none = false
at_least n (some i) = leb_ℤ n i

abbrev pub all_hold : List Bool → Bool
all_hold [] = true
all_hold (b ∷ bs) = b && all_hold bs

abbrev pub is_raw : EventType → Bool
is_raw EventType.raw = true
is_raw _ = false

module _ {F : Type 0} where
  unfoldable pub known_keys : EventType → Dict F → Bool
  unfolding allowed_keys
  known_keys et [] = true
  known_keys et ((k, v) ∷ d) = mem_text k (allowed_keys et) && known_keys et d

  abbrev pub int_at : String → Dict F → Option ℤ
  int_at key d = bind (get key d) as_int

  abbrev pub nat_at : String → Dict F → Option ℕ
  nat_at key d = bind (int_at key d) to_nat

  abbrev pub text_at : String → Dict F → Option String
  text_at key d = bind (get key d) as_text

  abbrev pub bool_at : String → Dict F → Option Bool
  bool_at key d = bind (get key d) as_bool

  abbrev pub number_at : Python F → String → Dict F → Option F
  number_at py key d = bind (get key d) (as_number py)

  abbrev pub is_null : Value F → Bool
  is_null null = true
  is_null _ = false

  abbrev pub passes : (Value F → Bool) → Option (Value F) → Bool
  passes test none = true
  passes test (some v) = test v

  -- A key that is missing, or whose value passes a test.
  abbrev pub absent_or : (Value F → Bool) → String → Dict F → Bool
  absent_or test key d = passes test (get key d)

  abbrev pub text_or_null : Value F → Bool
  text_or_null v = is_null v || is_some (as_text v)

  abbrev pub is_nat : Value F → Bool
  is_nat v = is_some (bind (as_int v) to_nat)

  -- An alias that stands in for its key: `p[key] = int(p[alias])`.
  unfoldable pub take_alias : Python F → String → String → Dict F → Option (Dict F)
  unfolding to_int
  take_alias py key alias p = if has key p then some p else (elim (get alias p) [
    | none ↦ some p
    | some v ↦ elim (to_int py v) [ none ↦ none | some i ↦ some (p ++ (key, int i) ∷ []) ]
  ])

  -- The lap branch once the aliases are taken.
  unfoldable pub lap_shape : Dict F → Option (Dict F)
  lap_shape p =
      if at_least (pos 1) (int_at "lap_number" p) && at_least (pos 0) (int_at "lap_time_ms" p)
      then (let q = remove "time_ms" (remove "lap" p) in
          if absent_or is_nat "cu_timestamp_ms" q then some q else none)
      else none

  -- `lo <= x <= hi`
  abbrev pub within : Python F → ℕ → ℕ → Option F → Bool
  within py lo hi none = false
  within py lo hi (some x) =
      py.le_float (py.float_of_int (pos lo)) x && py.le_float x (py.float_of_int (pos hi))

  abbrev pub not_negative : Python F → Option F → Bool
  not_negative py none = false
  not_negative py (some x) = not (py.lt_float x (py.float_of_int (pos 0)))

  -- The optional keys of a connection event, one `if` after the other.
  unfoldable pub connection_entries : Dict F → Bool
  connection_entries p = all_hold (
      absent_or text_or_null "error" p
      ∷ absent_or text_or_null "reason" p
      ∷ absent_or is_nat "timeout_streak" p
      ∷ absent_or text_or_null "event" p
      ∷ absent_or (λ v. is_some (as_bool v)) "desired_connected" p
      ∷ absent_or text_or_null "device_id" p
      ∷ absent_or text_or_null "device_name" p
      ∷ absent_or text_or_null "mac_address" p
      ∷ absent_or text_or_null "connected_at" p
      ∷ absent_or text_or_null "disconnected_at" p
      ∷ absent_or text_or_null "last_seen_at" p
      ∷ absent_or (λ v. is_null v || is_some (as_int v)) "rssi" p
      ∷ absent_or (λ v. is_null v || is_nat v) "last_rx_monotonic_ms" p
      ∷ absent_or is_nat "reconnect_attempts" p
      ∷ [])

  unfoldable pub connection_shape : Dict F → Bool
  unfolding connection_entries
  connection_shape p =
      is_some (bind (text_at "state" p) parse_connection_state) && connection_entries p

  abbrev pub keep_if : Bool → Dict F → Option (Dict F)
  keep_if b p = if b then some p else none

  -- The branches by event type, after the check of the keys.
  unfoldable pub type_shape : Python F → EventType → Dict F → Option (Dict F)
  type_shape py EventType.lap p =
      bind (take_alias py "lap_number" "lap" p)
        λ q. bind (take_alias py "lap_time_ms" "time_ms" q) lap_shape
  type_shape py EventType.race_state p =
      keep_if (is_some (bind (text_at "state" p) parse_race_state)) p
  type_shape py EventType.fuel p = keep_if (within py 0 100 (number_at py "level_percent" p)) p
  type_shape py EventType.controller_input p =
      keep_if (within py 0 1 (number_at py "throttle" p) && within py 0 1 (number_at py "brake" p))
        p
  type_shape py EventType.speed p = keep_if (not_negative py (number_at py "speed_kmh" p)) p
  type_shape py EventType.brake p = keep_if (within py 0 1 (number_at py "brake" p)) p
  type_shape py EventType.pitlane p =
      keep_if
        (is_some (bool_at "in_pit" p) && is_some (bind (text_at "reason" p) parse_pitlane_reason)) p
  type_shape py EventType.connection_state p = keep_if (connection_shape p) p
  type_shape py EventType.raw p = some p
  type_shape py EventType.not_supported p = keep_if (is_some (text_at "reason" p)) p

  unfoldable pub payload_shape : Python F → EventType → Dict F → Option (Dict F)
  payload_shape py et p = if is_raw et || known_keys et p then type_shape py et p else none
