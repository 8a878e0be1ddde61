-- ===== src/Event/Typed.antt =====
-- event_model.py: the payload that a validated dictionary stands for. `none` is a dictionary with a
-- value of another type.
pub mod Accepted
use carrera_monitor.Prelude.{
  ℕ, String, str_eq, eq_iff, Bool, true, false, ◌&&◌, ◌≡◌, refl, ap, ◌∙◌, inl, inr, Option, none,
  some, is_some, [], ◌∷◌, arith, Bool-cases, if◌then◌else◌,
}
use mathlib.Core.Option
use mathlib.Core.Option.{none-ne-some}
use carrera_monitor.Value.{Value, Dict, Python, get, remove, as_int, as_text, as_bool}
use carrera_monitor.Event.{EventType, ConnectionPayload, Payload, payload_type}
use carrera_monitor.Event.Validation.{
  bind, to_nat, is_null, int_at, nat_at, text_at, bool_at, number_at, parse_race_state,
  parse_connection_state, parse_pitlane_reason, take_alias, lap_shape, connection_entries,
  connection_shape, type_shape, payload_shape,
}

module _ {F : Type 0} where
  abbrev pub as_nat : Value F → Option ℕ
  as_nat v = bind (as_int v) to_nat

  abbrev pub plain : {A : Type 0} → (Value F → Option A) → Value F → Option (Option A)
  plain read v = bind (read v) (λ a. some (some a))

  abbrev pub nullable : {A : Type 0} → (Value F → Option A) → Value F → Option (Option A)
  nullable read v = if is_null v then some none else plain read v

  abbrev pub read_entry :
      {A : Type 0} → (Value F → Option (Option A)) → Option (Value F) → Option (Option A)
  read_entry read none = some none
  read_entry read (some v) = read v

  -- An optional entry: `none` where its value has another type.
  abbrev pub entry :
      {A : Type 0} → (Value F → Option (Option A)) → String → Dict F → Option (Option A)
  entry read key d = read_entry read (get key d)

  unfoldable pub connection_payload : Dict F → Option ConnectionPayload
  connection_payload p = bind (bind (text_at "state" p) parse_connection_state) λ state.
      bind (entry (nullable as_text) "error" p) λ error.
        bind (entry (nullable as_text) "reason" p) λ reason.
          bind (entry (plain as_nat) "timeout_streak" p) λ timeout_streak.
            bind (entry (nullable as_text) "event" p) λ event.
              bind (entry (plain as_bool) "desired_connected" p) λ desired_connected.
                bind (entry (nullable as_text) "device_id" p) λ device_id.
                  bind (entry (nullable as_text) "device_name" p) λ device_name.
                    bind (entry (nullable as_text) "mac_address" p) λ mac_address.
                      bind (entry (nullable as_text) "connected_at" p) λ connected_at.
                        bind (entry (nullable as_text) "disconnected_at" p) λ disconnected_at.
                          bind (entry (nullable as_text) "last_seen_at" p) λ last_seen_at.
                            bind (entry (nullable as_int) "rssi" p) λ rssi.
                              bind (entry (nullable as_nat) "last_rx_monotonic_ms" p)
                                λ last_rx_monotonic_ms.
                                  bind (entry (plain as_nat) "reconnect_attempts" p)
                                    λ reconnect_attempts. some (record {
                                      state = state;
                                      error = error;
                                      reason = reason;
                                      timeout_streak = timeout_streak;
                                      event = event;
                                      desired_connected = desired_connected;
                                      device_id = device_id;
                                      device_name = device_name;
                                      mac_address = mac_address;
                                      rssi = rssi;
                                      connected_at = connected_at;
                                      disconnected_at = disconnected_at;
                                      last_seen_at = last_seen_at;
                                      last_rx_monotonic_ms = last_rx_monotonic_ms;
                                      reconnect_attempts = reconnect_attempts;
                                    })

  unfoldable pub typed : Python F → EventType → Dict F → Option (Payload F)
  typed py EventType.lap p = bind (nat_at "lap_number" p) λ n.
      bind (nat_at "lap_time_ms" p)
        λ t. bind (entry (plain as_nat) "cu_timestamp_ms" p) λ cu. some (Payload.lap n t cu)
  typed py EventType.race_state p =
      bind (bind (text_at "state" p) parse_race_state) λ s. some (Payload.race_state s)
  typed py EventType.fuel p = bind (number_at py "level_percent" p) λ x. some (Payload.fuel x)
  typed py EventType.controller_input p =
      bind (number_at py "throttle" p)
        λ x. bind (number_at py "brake" p) λ y. some (Payload.controller_input x y)
  typed py EventType.speed p = bind (number_at py "speed_kmh" p) λ x. some (Payload.speed x)
  typed py EventType.brake p = bind (number_at py "brake" p) λ x. some (Payload.brake x)
  typed py EventType.pitlane p =
      bind (bool_at "in_pit" p)
        λ b. bind (bind (text_at "reason" p) parse_pitlane_reason) λ r. some (Payload.pitlane b r)
  typed py EventType.connection_state p =
      bind (connection_payload p) λ c. some (Payload.connection_state c)
  typed py EventType.raw p = some Payload.raw
  typed py EventType.not_supported p = bind (text_at "reason" p) λ r. some (Payload.not_supported r)
