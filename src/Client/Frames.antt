-- ===== src/Client/Frames.antt =====
-- carrera_client.py: `translate_raw_frame`, with the construction of its events. `none` is an
-- exception: a missing key, a value of the wrong type, or an event that is not valid.
pub mod Laps
use Prim.Native.String.{◌++◌ as append}
use carrera_monitor.Prelude.{
  ℕ, String, str_eq, Bool, true, false, not, ◌&&◌, ◌||◌, Option, none, some, List, [], ◌∷◌, ◌++◌,
  leb, if◌then◌else◌,
}
use carrera_monitor.Prelude.Int.{ℤ, pos, negsuc}
use carrera_monitor.Value.{
  Value, null, bool, int, float, str, bytes, other, Dict, Python, get, to_int, to_float, to_text,
  truthy,
}
use carrera_monitor.Event.{EventType, Source, TelemetryEvent, event_type}
use carrera_monitor.Event.Validation.{
  bind, payload_shape, parse_race_state, parse_connection_state, parse_pitlane_reason,
}
use carrera_monitor.Event.Typed.{typed}

-- A `RawFrame`: its kind, its slots, and its other keys.
pub record RawFrame (F : Type 0) : Type 0 where
  pub kind : String
  pub car_id : Option ℤ
  pub controller_id : Option ℤ
  pub fields : Dict F

-- When a frame is translated: `utils.now_iso()` and `utils.now_monotonic_ms()`.
pub record Stamp : Type 0 where
  pub iso : ℕ
  pub monotonic_ms : ℕ

-- `int | None = Field(ge=1, le=8)`
abbrev pub slot : Option ℤ → Option (Option ℕ)
slot none = some none
slot (some (pos n)) = if leb 1 n && leb n 8 then some (some n) else none
slot (some (negsuc n)) = none

module _ {F : Type 0} (py : Python F) where
  -- `TelemetryEvent(...)`
  unfoldable pub make_event :
      Stamp → Source → EventType → Option ℤ → Option ℤ → Dict F → Option (TelemetryEvent F)
  make_event now source et car controller p = bind (slot car) λ c. bind (slot controller) λ k.
      bind (payload_shape py et p) λ q. bind (typed py et q) λ payload. some (record {
        timestamp_iso = now.iso;
        timestamp_monotonic_ms = now.monotonic_ms;
        source = source;
        car_id = c;
        controller_id = k;
        payload = payload;
      })

  -- `_coerce_int`
  unfoldable pub coerce_int : Option (Value F) → Option ℤ
  unfolding to_int
  coerce_int none = none
  coerce_int (some null) = none
  coerce_int (some (bool b)) = none
  coerce_int (some (other b)) = none
  coerce_int (some (int i)) = some i
  coerce_int (some (float x)) = to_int py (float x)
  coerce_int (some (str s)) = to_int py (str s)
  coerce_int (some (bytes bs)) = to_int py (bytes bs)

  -- `_clamp`
  unfoldable pub clamp : F → F → F → F
  clamp x lo hi = if py.lt_float x lo then lo else if py.lt_float hi x then hi else x

  -- `frame.get(key, frame.get(alias))`
  abbrev pub get_alias : String → String → Dict F → Option (Value F)
  get_alias key alias d = elim (get key d) [ none ↦ get alias d | some v ↦ some v ]

  abbrev pub lap_fields : ℤ → ℤ → Option ℤ → Dict F
  lap_fields n t none = ("lap_number", int n) ∷ ("lap_time_ms", int t) ∷ []
  lap_fields n t (some cu) =
      ("lap_number", int n) ∷ ("lap_time_ms", int t) ∷ ("cu_timestamp_ms", int cu) ∷ []

  -- The optional entry `cu_timestamp_ms`: an exception, or an entry or none.
  abbrev pub cu_entry : Dict F → Option (Option ℤ)
  cu_entry d = elim (get "cu_timestamp_ms" d) [
    | none ↦ some none
    | some v ↦ bind (coerce_int (some v)) λ i. some (some i)
  ]

  -- The `try` block of the lap branch.
  unfoldable pub lap_event : Stamp → Source → RawFrame F → Option (TelemetryEvent F)
  unfolding coerce_int make_event
  lap_event now source f = bind (coerce_int (get_alias "lap_number" "lap" f.fields)) λ n.
      bind (coerce_int (get_alias "lap_time_ms" "time_ms" f.fields)) λ t.
        bind (cu_entry f.fields)
          λ cu. make_event now source EventType.lap f.car_id f.controller_id (lap_fields n t cu)

  unfoldable pub unsupported : Stamp → Source → String → String → Option (TelemetryEvent F)
  unfolding make_event
  unsupported now source why kind =
      make_event now source EventType.not_supported none none
        (("reason", str (append why (py.repr_text kind))) ∷ [])

  abbrev pub zero : F
  zero = py.float_of_int (pos 0)

  abbrev pub unit : F → F
  unit x = clamp x zero (py.float_of_int (pos 1))

  -- A float that the frame has under a key.
  abbrev pub float_at : String → Dict F → Option F
  float_at key d = bind (get key d) (to_float py)

  -- `str(frame[key])` where it is the text of a state, and a default where it is none.
  abbrev pub state_text :
      {S : Type 0} → (String → Option S) → String → String → Dict F → Option (Value F)
  state_text parse default key d =
      bind (get key d)
        λ v. some (str (elim (parse (to_text py v)) [ none ↦ default | some s ↦ to_text py v ]))

  -- `str(frame.get("pit_reason", "unknown"))`, corrected to a known reason.
  abbrev pub pit_reason : Dict F → Value F
  pit_reason d = elim (get "pit_reason" d) [
    | none ↦ str "unknown"
    | some v ↦
        str
          (elim (parse_pitlane_reason (to_text py v)) [ none ↦ "unknown" | some r ↦ to_text py v ])
  ]

  -- `err if err is None else str(err)`
  abbrev pub error_text : Option (Value F) → Value F
  error_text none = null
  error_text (some null) = null
  error_text (some v) = str (to_text py v)

  -- The branch of a kind of frame; `none` where the kind is not among them.
  unfoldable pub branch : Stamp → Source → RawFrame F → Option (TelemetryEvent F)
  unfolding lap_event unsupported clamp make_event to_text to_float truthy
  branch now source f =
      let d = f.fields in
      if str_eq f.kind "lap" || str_eq f.kind "lap_completed"
      then (elim (lap_event now source f) [
        | some e ↦ some e
        | none ↦ unsupported now source "invalid lap payload for frame kind: " f.kind
      ])
      else if str_eq f.kind "fuel"
      then (bind (float_at "fuel_percent" d) λ x.
          make_event now source EventType.fuel f.car_id f.controller_id
            (("level_percent", float (clamp x zero (py.float_of_int (pos 100)))) ∷ []))
      else if str_eq f.kind "race_state"
      then (bind (state_text parse_race_state "idle" "race_state" d)
          λ s. make_event now source EventType.race_state none none (("state", s) ∷ []))
      else if str_eq f.kind "controller_input"
      then (bind (float_at "throttle" d) λ x. bind (float_at "brake" d) λ y.
          make_event now source EventType.controller_input f.car_id f.controller_id
            (("throttle", float (unit x)) ∷ ("brake", float (unit y)) ∷ []))
      else if str_eq f.kind "speed"
      then (bind (float_at "speed_kmh" d) λ x.
          make_event now source EventType.speed f.car_id none
            (("speed_kmh", float (if py.lt_float zero x then x else zero)) ∷ []))
      else if str_eq f.kind "brake"
      then (bind (float_at "brake" d)
          λ x. make_event now source EventType.brake f.car_id none (("brake", float (unit x)) ∷ []))
      else if str_eq f.kind "pitlane"
      then (bind (get "in_pit" d) λ v.
          make_event now source EventType.pitlane f.car_id none
            (("in_pit", bool (truthy py v)) ∷ ("reason", pit_reason d) ∷ []))
      else if str_eq f.kind "connection_state"
      then (bind (state_text parse_connection_state "disconnected" "connection_state" d) λ s.
          make_event now source EventType.connection_state none none
            (("state", s) ∷ ("error", error_text (get "error" d)) ∷ []))
      else unsupported now source "unknown frame kind: " f.kind

  abbrev pub is_not_supported : EventType → Bool
  is_not_supported EventType.not_supported = true
  is_not_supported _ = false

  unfoldable pub translate_raw_frame :
      Bool → Stamp → Source → RawFrame F → Option (List (TelemetryEvent F))
  unfolding branch
  translate_raw_frame debug_raw now source f = bind (branch now source f) λ primary.
      if debug_raw && not (is_not_supported (event_type primary))
      then (bind (make_event now source EventType.raw f.car_id f.controller_id [])
          λ companion. some (primary ∷ companion ∷ []))
      else some (primary ∷ [])
