-- ===== src/Client/Adapter.antt =====
-- carrera_client.py: `LiveCarreraAdapter`. A frame of the control unit is a `Status` or a `Timer`;
-- slots, fuel levels and timestamps of the unit are natural numbers. What `cu.poll` does is the
-- argument of a round of the read loop.
pub mod Frames
pub mod Connect
pub mod Mapping
pub mod Cars
pub mod Timers
use carrera_monitor.Prelude.{
  ℕ, zero, suc, ◌+◌, ◌==◌, String, Bool, true, false, not, ◌&&◌, ◌||◌, Option, none, some, List, [],
  ◌∷◌, ◌++◌, leb, ltb, if◌then◌else◌,
}
use carrera_monitor.Prelude.Int.{ℤ, pos, negsuc, sub_ℕ}
use carrera_monitor.Value.{Value, bool, int, float, str, Python, as_number}
use carrera_monitor.Event.{
  TelemetryEvent, Payload, Source, ConnectionState, ConnectionPayload, connected, degraded, stalled,
}
use carrera_monitor.Event.Validation.{bind}
use carrera_monitor.Queue.{Queue, offer, offer_all}
use carrera_monitor.Continuity.{
  CarSlotMapping, MappingMode, LinkHealthTracker, LinkHealthStatus, eq_ℤ, normalize_slot,
  on_timeout, on_frame,
}
use carrera_monitor.Client.Frames.{RawFrame, Stamp, translate_raw_frame}

-- A dictionary from cars.
module _ {ℓ} {A : Type ℓ} where
  unfoldable pub get_car : ℤ → List (ℤ × A) → Option A
  get_car c [] = none
  get_car c ((d, a) ∷ rest) = if eq_ℤ d c then some a else get_car c rest

  unfoldable pub put_car : ℤ → A → List (ℤ × A) → List (ℤ × A)
  put_car c a [] = (c, a) ∷ []
  put_car c a ((d, b) ∷ rest) =
      let more = put_car c a rest in if eq_ℤ d c then (c, a) ∷ rest else (d, b) ∷ more

-- `speed` is there where the library has it as a list.
pub record Status (F : Type 0) : Type 0 where
  pub fuel : List ℕ
  pub pit : List Bool
  pub speed : Option (List (Value F))
  pub start : ℕ

pub record Timer : Type 0 where
  pub address : ℕ
  pub timestamp : ℕ

pub record LiveCarreraAdapter (F : Type 0) : Type 0 where
  pub prev_status : Option (Status F)
  pub slot_mapping : CarSlotMapping
  pub lap_counts : List (ℤ × ℕ)
  pub prev_lap_ts : List (ℤ × ℕ)

abbrev pub count_of : Option ℕ → ℕ
count_of none = 0
count_of (some n) = n

module _ {F : Type 0} where
  abbrev pub lap_frame : ℤ → ℕ → ℤ → ℕ → RawFrame F
  lap_frame c n time_ms ts = record {
    kind = "lap";
    car_id = some c;
    controller_id = none;
    fields =
        ("lap_number", int (pos n))
        ∷ ("lap_time_ms", int time_ms)
        ∷ ("cu_timestamp_ms", int (pos ts))
        ∷ [];
  }

  -- The lap of a car that crossed the line before.
  unfoldable pub next_lap :
      ℤ → ℕ → Option ℕ → LiveCarreraAdapter F → List (RawFrame F) × LiveCarreraAdapter F
  unfolding put_car get_car
  next_lap c ts none a = ([], a)
  next_lap c ts (some prev_ts) a =
      let n = count_of (get_car c a.lap_counts) + 1 in
      (lap_frame c n (sub_ℕ ts prev_ts) ts ∷ [], record a { lap_counts = put_car c n a.lap_counts })

  -- A crossing at a time, with what `normalize_slot` returned for its slot.
  unfoldable pub crossing :
      ℕ
      → LiveCarreraAdapter F
      → Option ℤ × CarSlotMapping
      → List (RawFrame F) × LiveCarreraAdapter F
  unfolding next_lap put_car get_car
  crossing ts a (none, mapping) = ([], record a { slot_mapping = mapping })
  crossing ts a (some c, mapping) =
      next_lap c ts (get_car c a.prev_lap_ts)
        (record a { slot_mapping = mapping; prev_lap_ts = put_car c ts a.prev_lap_ts })

  -- `_translate_timer`
  unfoldable pub translate_timer :
      LiveCarreraAdapter F → Timer → List (RawFrame F) × LiveCarreraAdapter F
  unfolding crossing
  translate_timer a t =
      crossing t.timestamp a (normalize_slot a.slot_mapping (some (pos t.address)))
