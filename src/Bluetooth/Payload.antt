-- ===== src/Bluetooth/Payload.antt =====
-- schemas/bluetooth_schema.py: the dictionary of `to_connection_payload`, which event_model.py
-- validates when the supervisor makes an event of it.
use carrera_monitor.Prelude.{ℕ, String, true, ◌||◌, ◌≡◌, refl, Option, none, some, is_some, [], ◌∷◌}
use mathlib.Core.Option
use carrera_monitor.Prelude.Int.{ℤ, pos}
use carrera_monitor.Value.{Value, null, bool, int, str, Dict, Python, get, as_text, as_int}
use carrera_monitor.Event.{EventType, Payload}
use carrera_monitor.Event.Validation.{
  payload_shape, known_keys, type_shape, allowed_keys, connection_shape, connection_entries,
  parse_connection_state, is_null, text_or_null, is_nat,
}
use carrera_monitor.Event.Typed.{typed, connection_payload, nullable, as_nat}
use carrera_monitor.Bluetooth.{
  BluetoothState, BluetoothConnectionStatus, to_connection_state, to_connection_payload, or_else,
}

-- `state.value`
unfoldable pub state_text : BluetoothState → String
state_text BluetoothState.disconnected = "disconnected"
state_text BluetoothState.scanning = "scanning"
state_text BluetoothState.connecting = "connecting"
state_text BluetoothState.connected = "connected"
state_text BluetoothState.subscribing = "subscribing"
state_text BluetoothState.ready = "ready"
state_text BluetoothState.stale = "stale"
state_text BluetoothState.reconnecting = "reconnecting"
state_text BluetoothState.error = "error"
state_text BluetoothState.manually_disconnected = "manually_disconnected"

parse-state_text :
    (s : BluetoothState) → parse_connection_state (state_text s) ≡ some (to_connection_state s)
unfolding parse_connection_state state_text
parse-state_text BluetoothState.disconnected = refl
parse-state_text BluetoothState.scanning = refl
parse-state_text BluetoothState.connecting = refl
parse-state_text BluetoothState.connected = refl
parse-state_text BluetoothState.subscribing = refl
parse-state_text BluetoothState.ready = refl
parse-state_text BluetoothState.stale = refl
parse-state_text BluetoothState.reconnecting = refl
parse-state_text BluetoothState.error = refl
parse-state_text BluetoothState.manually_disconnected = refl

module _ {F : Type 0} where
  abbrev text_value : Option String → Value F
  text_value none = null
  text_value (some s) = str s

  abbrev int_value : Option ℤ → Value F
  int_value none = null
  int_value (some i) = int i

  abbrev nat_value : Option ℕ → Value F
  nat_value none = null
  nat_value (some n) = int (pos n)

  -- `to_connection_payload`
  unfoldable pub connection_dict :
      (ℕ → String) → String → Option String → Option String → BluetoothConnectionStatus → Dict F
  unfolding state_text
  connection_dict isoformat event reason text s =
      ("event", str event)
      ∷ ("state", str (state_text s.state))
      ∷ ("desired_connected", bool s.desired_connected)
      ∷ ("device_id", text_value s.device_id)
      ∷ ("device_name", text_value s.device_name)
      ∷ ("mac_address", text_value s.mac_address)
      ∷ ("rssi", int_value s.rssi)
      ∷ ("connected_at", text_value (Option.map isoformat s.connected_at))
      ∷ ("disconnected_at", text_value (Option.map isoformat s.disconnected_at))
      ∷ ("last_seen_at", text_value (Option.map isoformat s.last_seen_at))
      ∷ ("last_rx_monotonic_ms", nat_value s.last_rx_monotonic_ms)
      ∷ ("reconnect_attempts", int (pos s.reconnect_attempts))
      ∷ ("reason", text_value reason)
      ∷ ("error", text_value (or_else text s.last_error))
      ∷ []

module _ (F : Type 0) where
  text_or_null-text_value : (o : Option String) → text_or_null {F = F} (text_value o) ≡ true
  text_or_null-text_value none = refl
  text_or_null-text_value (some s) = refl

  read-text_value : (o : Option String) → nullable {F = F} as_text (text_value o) ≡ some o
  read-text_value none = refl
  read-text_value (some s) = refl

  is_int-int_value :
      (o : Option ℤ)
      → (is_null {F = F} (int_value o) || is_some (as_int {F = F} (int_value o))) ≡ true
  is_int-int_value none = refl
  is_int-int_value (some i) = refl

  read-int_value : (o : Option ℤ) → nullable {F = F} as_int (int_value o) ≡ some o
  read-int_value none = refl
  read-int_value (some i) = refl

  is_nat-nat_value :
      (o : Option ℕ) → (is_null {F = F} (nat_value o) || is_nat {F = F} (nat_value o)) ≡ true
  is_nat-nat_value none = refl
  is_nat-nat_value (some n) = refl

  read-nat_value : (o : Option ℕ) → nullable {F = F} as_nat (nat_value o) ≡ some o
  read-nat_value none = refl
  read-nat_value (some n) = refl

  entries-accepted :
      (isoformat : ℕ → String) (event : String) (reason text : Option String)
      → (s : BluetoothConnectionStatus)
      → connection_entries (connection_dict {F = F} isoformat event reason text s) ≡ true
  unfolding connection_entries connection_dict get
  entries-accepted isoformat event reason text s =
      rw
        (
          text_or_null-text_value (or_else text s.last_error),
          text_or_null-text_value reason,
          text_or_null-text_value s.device_id,
          text_or_null-text_value s.device_name,
          text_or_null-text_value s.mac_address,
          text_or_null-text_value (Option.map isoformat s.connected_at),
          text_or_null-text_value (Option.map isoformat s.disconnected_at),
          text_or_null-text_value (Option.map isoformat s.last_seen_at),
          is_int-int_value s.rssi,
          is_nat-nat_value s.last_rx_monotonic_ms,
        )
        refl

  connection_payload-dict :
      (isoformat : ℕ → String) (event : String) (reason text : Option String)
      → (s : BluetoothConnectionStatus)
      → connection_payload (connection_dict {F = F} isoformat event reason text s)
        ≡ some (to_connection_payload isoformat event reason text s)
  unfolding connection_payload connection_dict get to_connection_payload
  connection_payload-dict isoformat event reason text s =
      rw
        (
          parse-state_text s.state,
          read-text_value (or_else text s.last_error),
          read-text_value reason,
          read-text_value s.device_id,
          read-text_value s.device_name,
          read-text_value s.mac_address,
          read-text_value (Option.map isoformat s.connected_at),
          read-text_value (Option.map isoformat s.disconnected_at),
          read-text_value (Option.map isoformat s.last_seen_at),
          read-int_value s.rssi,
          read-nat_value s.last_rx_monotonic_ms,
        )
        refl

  shape-accepted :
      (isoformat : ℕ → String) (event : String) (reason text : Option String)
      → (s : BluetoothConnectionStatus)
      → connection_shape (connection_dict {F = F} isoformat event reason text s) ≡ true
  unfolding connection_shape connection_dict get
  shape-accepted isoformat event reason text s =
      rw (parse-state_text s.state) (entries-accepted isoformat event reason text s)

  known-dict :
      (isoformat : ℕ → String) (event : String) (reason text : Option String)
      → (s : BluetoothConnectionStatus)
      → known_keys EventType.connection_state
          (connection_dict {F = F} isoformat event reason text s)
        ≡ true
  unfolding known_keys connection_dict allowed_keys
  known-dict isoformat event reason text s = refl

  -- The dictionary that the supervisor makes of any status with an event name, a reason and an
  -- error is accepted by the validation of connection events as it is, and stands for the typed
  -- payload that the events of the supervisor have.
  pub connection_dict-accepted :
      (py : Python F) (isoformat : ℕ → String) (event : String) (reason text : Option String)
      → (s : BluetoothConnectionStatus)
      → (payload_shape py EventType.connection_state (connection_dict isoformat event reason text s)
          ≡ some (connection_dict isoformat event reason text s))
        × (typed py EventType.connection_state (connection_dict isoformat event reason text s)
            ≡ some (Payload.connection_state (to_connection_payload isoformat event reason text s)))
  unfolding payload_shape type_shape typed
  connection_dict-accepted py isoformat event reason text s = (
    rw (known-dict isoformat event reason text s, shape-accepted isoformat event reason text s)
        refl,
    rw (connection_payload-dict isoformat event reason text s) refl,
  )
