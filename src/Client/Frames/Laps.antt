-- ===== src/Client/Frames/Laps.antt =====
-- The lap events that are made of the lap frames of the adapter.
use Prim.Native.String.{◌++◌ as append}
use carrera_monitor.Prelude.{
  ℕ, ◌≤◌, Bool, true, false, List, if◌then◌else◌, ◌≡◌, refl, inl, inr, String, ◌&&◌, leb, Option,
  none, some, [], ◌∷◌, arith, Bool-cases,
}
use carrera_monitor.Prelude.Int.{ℤ, pos, negsuc}
use carrera_monitor.Value.{Dict, Python, get, remove}
use carrera_monitor.Event.{EventType, Source, TelemetryEvent, Payload}
use carrera_monitor.Event.Validation.{
  payload_shape, known_keys, type_shape, take_alias, lap_shape, allowed_keys,
}
use carrera_monitor.Event.Typed.{typed}
use carrera_monitor.Client.Frames.{
  Stamp, make_event, slot, lap_event, lap_fields, coerce_int, branch, unsupported,
  translate_raw_frame,
}
use carrera_monitor.Client.Adapter.{lap_frame}

module _ {F : Type 0} (py : Python F) where
  abbrev pub lap_of : Option ℕ → Stamp → Source → ℕ → ℕ → ℕ → TelemetryEvent F
  lap_of c now source n t ts = record {
    timestamp_iso = now.iso;
    timestamp_monotonic_ms = now.monotonic_ms;
    source = source;
    car_id = c;
    controller_id = none;
    payload = Payload.lap n t (some ts);
  }

  abbrev fields_of : ℕ → ℤ → ℕ → Dict F
  fields_of n t ts = lap_fields py (pos n) t (some (pos ts))

  abbrev pub refusal : Stamp → Source → String → String → TelemetryEvent F
  refusal now source why kind = record {
    timestamp_iso = now.iso;
    timestamp_monotonic_ms = now.monotonic_ms;
    source = source;
    car_id = none;
    controller_id = none;
    payload = Payload.not_supported (append why (py.repr_text kind));
  }

  payload_shape-lap :
      (n t ts : ℕ)
      → 1 ≤ n
      → payload_shape py EventType.lap (fields_of n (pos t) ts) ≡ some (fields_of n (pos t) ts)
  unfolding payload_shape known_keys type_shape take_alias lap_shape get remove allowed_keys
  payload_shape-lap n t ts h = ground arith

  payload_shape-negative :
      (n t ts : ℕ) → payload_shape py EventType.lap (fields_of n (negsuc t) ts) ≡ none
  unfolding payload_shape known_keys type_shape take_alias lap_shape get remove allowed_keys
  payload_shape-negative n t ts = ground arith

  make_event-lap :
      (now : Stamp) (source : Source) (c n t ts : ℕ)
      → 1 ≤ c
      → c ≤ 8
      → 1 ≤ n
      → make_event py now source EventType.lap (some (pos c)) none (fields_of n (pos t) ts)
        ≡ some (lap_of (some c) now source n t ts)
  unfolding make_event typed get
  make_event-lap now source c n t ts low high one =
      let fits : slot (some (pos c)) ≡ some (some c) = ground arith in
      rw (fits, payload_shape-lap n t ts one) refl

  make_event-negative :
      (now : Stamp) (source : Source) (c n t ts : ℕ)
      → make_event py now source EventType.lap (some (pos c)) none (fields_of n (negsuc t) ts)
        ≡ none
  unfolding make_event
  make_event-negative now source c n t ts = elim (Bool-cases (leb 1 c && leb c 8)) [
    | inl fits ↦ rw (fits, payload_shape-negative n t ts) refl
    | inr out ↦ rw (out) refl
  ]

  unsupported_lem :
      (now : Stamp) (source : Source) (why kind : String)
      → unsupported py now source why kind ≡ some (refusal now source why kind)
  unfolding unsupported make_event payload_shape known_keys type_shape allowed_keys typed get
  unsupported_lem now source why kind = refl

  -- The companion that `debug_raw` adds to the event of a frame.
  abbrev pub companion_of : Option ℕ → Stamp → Source → TelemetryEvent F
  companion_of c now source = record {
    timestamp_iso = now.iso;
    timestamp_monotonic_ms = now.monotonic_ms;
    source = source;
    car_id = c;
    controller_id = none;
    payload = Payload.raw;
  }

  abbrev pub lap_and_companion :
      Bool → Option ℕ → Stamp → Source → ℕ → ℕ → ℕ → List (TelemetryEvent F)
  lap_and_companion debug_raw c now source n t ts =
      lap_of c now source n t ts ∷ (if debug_raw then companion_of c now source ∷ [] else [])

  make_event-raw :
      (now : Stamp) (source : Source) (c : ℕ)
      → 1 ≤ c
      → c ≤ 8
      → make_event py now source EventType.raw (some (pos c)) none []
        ≡ some (companion_of (some c) now source)
  unfolding make_event payload_shape type_shape typed
  make_event-raw now source c low high =
      let fits : slot (some (pos c)) ≡ some (some c) = ground arith in rw fits refl

  -- The events of a lap with a time, or the refusal of a negative time.
  abbrev pub lap_outcome : Bool → Stamp → Source → ℕ → ℕ → ℤ → ℕ → List (TelemetryEvent F)
  lap_outcome debug_raw now source c n (pos t) ts =
      lap_and_companion debug_raw (some c) now source n t ts
  lap_outcome debug_raw now source c n (negsuc t) ts =
      refusal now source "invalid lap payload for frame kind: " "lap" ∷ []

  -- Of a lap frame of the adapter, for a car from 1 to 8 and a positive number, a time that is not
  -- negative makes the lap with the number, the time and the timestamp of the frame, followed by a
  -- raw event of the car where `debug_raw` is on, and a negative time makes only a refusal that
  -- names the kind of frame.
  pub lap_frame-outcome :
      (debug_raw : Bool) (now : Stamp) (source : Source) (c n ts : ℕ) (time : ℤ)
      → 1 ≤ c
      → c ≤ 8
      → 1 ≤ n
      → translate_raw_frame py debug_raw now source (lap_frame (pos c) n time ts)
        ≡ some (lap_outcome debug_raw now source c n time ts)
  unfolding translate_raw_frame branch lap_event coerce_int get
  lap_frame-outcome false now source c n ts (pos t) low high one =
      rw (make_event-lap now source c n t ts low high one) refl
  lap_frame-outcome true now source c n ts (pos t) low high one =
      rw (make_event-lap now source c n t ts low high one)
        (rw (make_event-raw now source c low high) refl)
  lap_frame-outcome false now source c n ts (negsuc t) low high one =
      rw (make_event-negative now source c n t ts)
        (rw (unsupported_lem now source "invalid lap payload for frame kind: " "lap") refl)
  lap_frame-outcome true now source c n ts (negsuc t) low high one =
      rw (make_event-negative now source c n t ts)
        (rw (unsupported_lem now source "invalid lap payload for frame kind: " "lap") refl)
