-- ===== src/Client/ReadLoop/LapEvents.antt =====
-- carrera_client.py: the lap events of a crossing that the read loop polls.
use carrera_monitor.Prelude.{
  ℕ, ◌+◌, ◌-◌, ◌≤◌, Bool, true, false, ◌≡◌, refl, ap, ◌∙◌, inl, inr, Option, some, none, List, [],
  ◌∷◌, ◌++◌, arith, Bool-cases, ◌==◌, if◌then◌else◌,
}
use mathlib.Core.List.{append-nil}
use carrera_monitor.Prelude.Int.{ℤ, pos, negsuc, sub_ℕ}
use carrera_monitor.Value.{Python}
use carrera_monitor.Event.{TelemetryEvent, Source}
use carrera_monitor.Continuity.{eq_ℤ}
use carrera_monitor.Client.Frames.{Stamp, RawFrame, translate_raw_frame}
use carrera_monitor.Client.Frames.Laps.{lap_and_companion, lap_outcome, lap_frame-outcome}
use carrera_monitor.Client.Adapter.{
  Timer, LiveCarreraAdapter, lap_frame, get_car, count_of, next_lap,
}
use carrera_monitor.Client.Adapter.Cars.{get_car-put_car, get_car-put_car_other}
use carrera_monitor.Client.ReadLoop.{events_of, add_events}

-- The stamped times at which an address crosses the line.
abbrev pub crossings_of : ℕ → List (Stamp × Timer) → List (Stamp × ℕ)
crossings_of k [] = []
crossings_of k ((now, t) ∷ rounds) =
    let rest = crossings_of k rounds in if t.address == k then (now, t.timestamp) ∷ rest else rest

-- Times that do not go back.
abbrev pub IsOrdered : Option ℕ → List (Stamp × ℕ) → Type 0
IsOrdered last [] = Unit
IsOrdered none ((now, ts) ∷ rest) = IsOrdered (some ts) rest
IsOrdered (some last) ((now, ts) ∷ rest) = (last ≤ ts) × IsOrdered (some ts) rest

module _ {F : Type 0} where
  abbrev pub own_event :
      ℕ → Option ℕ → TelemetryEvent F → List (TelemetryEvent F) → List (TelemetryEvent F)
  own_event c none ev rest = rest
  own_event c (some d) ev rest = if d == c then ev ∷ rest else rest

  -- The events that name a car.
  abbrev pub events_by : ℕ → List (TelemetryEvent F) → List (TelemetryEvent F)
  events_by c [] = []
  events_by c (ev ∷ es) = own_event c ev.car_id ev (events_by c es)

  own_event_append :
      (c : ℕ) (car : Option ℕ) (ev : TelemetryEvent F) (es fs : List (TelemetryEvent F))
      → own_event c car ev (es ++ fs) ≡ own_event c car ev es ++ fs
  own_event_append c none ev es fs = refl
  own_event_append c (some d) ev es fs = elim (Bool-cases (d == c)) [
    | inl same ↦ rw same refl
    | inr other ↦ rw other refl
  ]

  pub events_by_append :
      (c : ℕ) (es fs : List (TelemetryEvent F))
      → events_by c (es ++ fs) ≡ events_by c es ++ events_by c fs
  events_by_append c [] fs = refl
  events_by_append c (ev ∷ es) fs =
      ap (own_event c ev.car_id ev) (events_by_append c es fs)
      ∙ own_event_append c ev.car_id ev (events_by c es) (events_by c fs)

  abbrev pub laps_of : ℕ → LiveCarreraAdapter F → ℕ
  laps_of c a = count_of (get_car (pos c) a.lap_counts)

  abbrev pub last_of : ℕ → LiveCarreraAdapter F → Option ℕ
  last_of c a = get_car (pos c) a.prev_lap_ts

module _ {F : Type 0} (py : Python F) (debug_raw : Bool) where
  -- The events of a car with `n` laps that crossed the line last at some time, or not yet.
  abbrev pub laps_read : ℕ → ℕ → Option ℕ → List (Stamp × ℕ) → List (TelemetryEvent F)
  laps_read c n last [] = []
  laps_read c n none ((now, ts) ∷ rest) = laps_read c n (some ts) rest
  laps_read c n (some last) ((now, ts) ∷ rest) =
      lap_and_companion py debug_raw (some c) now Source.carrera_appconnect (n + 1) (ts - last) ts
      ++ laps_read c (n + 1) (some ts) rest

  events_of-one :
      (now : Stamp) (f : RawFrame F) (es : List (TelemetryEvent F))
      → translate_raw_frame py debug_raw now Source.carrera_appconnect f ≡ some es
      → events_of py debug_raw now (f ∷ []) ≡ (es, true)
  unfolding events_of
  events_of-one now f es h =
      ap (λ o. add_events o ([], true)) h ∙ ap (λ l. (l, true)) (append-nil es)

module _ {F : Type 0} (py : Python F) where
  events_by-own :
      (debug_raw : Bool) (now : Stamp) (c n t ts : ℕ)
      → events_by c (lap_and_companion py debug_raw (some c) now Source.carrera_appconnect n t ts)
        ≡ lap_and_companion py debug_raw (some c) now Source.carrera_appconnect n t ts
  events_by-own false now c n t ts = let e : (c == c) ≡ true = ground arith in rw e refl
  events_by-own true now c n t ts = let e : (c == c) ≡ true = ground arith in rw e refl

  events_by-other :
      (debug_raw : Bool) (now : Stamp) (c e n ts : ℕ) (t : ℤ)
      → (e == c) ≡ false
      → events_by c (lap_outcome py debug_raw now Source.carrera_appconnect e n t ts) ≡ []
  events_by-other false now c e n ts (pos t) other = rw other refl
  events_by-other true now c e n ts (pos t) other = rw other refl
  events_by-other debug_raw now c e n ts (negsuc t) other = refl

module _ {F : Type 0} (py : Python F) (debug_raw : Bool) (now : Stamp) where
  -- The frames of a timer are translated, and the events of a car, with those of its later
  -- crossings, are as foreseen.
  abbrev pub Foretold :
      ℕ
      → List (Stamp × ℕ)
      → List (TelemetryEvent F)
      → List (RawFrame F) × LiveCarreraAdapter F
      → Type 0
  Foretold c rest left (fs, b) =
      (es : List (TelemetryEvent F)) × (events_of py debug_raw now fs ≡ (es, true))
      × (events_by c es ++ laps_read py debug_raw c (laps_of c b) (last_of c b) rest ≡ left)
      × IsOrdered (last_of c b) rest

  pub own_next :
      (c ts : ℕ) (last : Option ℕ) (rest : List (Stamp × ℕ)) (a : LiveCarreraAdapter F)
      → 1 ≤ c
      → c ≤ 8
      → last_of c a ≡ some ts
      → IsOrdered last ((now, ts) ∷ rest)
      → Foretold c rest
          (laps_read py debug_raw c (laps_of c a) last ((now, ts) ∷ rest))
          (next_lap (pos c) ts last a)
  unfolding next_lap events_of
  own_next c ts none rest a low high is order = ([], refl, rw is refl, rw is order)
  own_next c ts (some last) rest a low high is (first, order) =
      let n = laps_of c a in
      let e : sub_ℕ ts last ≡ pos (ts - last) = ground arith in
      let es =
        lap_and_companion py debug_raw (some c) now Source.carrera_appconnect (n + 1) (ts - last)
          ts in
      (
        es,
        events_of-one py debug_raw now (lap_frame (pos c) (n + 1) (sub_ℕ ts last) ts) es (
            ap
              (λ t.
                translate_raw_frame py debug_raw now Source.carrera_appconnect
                  (lap_frame (pos c) (n + 1) t ts))
              e
            ∙ lap_frame-outcome py debug_raw now Source.carrera_appconnect c (n + 1) ts
                (pos (ts - last)) low high (omega arith)),
        rw
            (
              is,
              get_car-put_car (pos c) (n + 1) a.lap_counts,
              events_by-own py debug_raw now c (n + 1) (ts - last) ts,
            )
            refl,
        rw is order,
      )

  pub other_next :
      (c e ts : ℕ) (last : Option ℕ) (rest : List (Stamp × ℕ)) (a : LiveCarreraAdapter F)
      → 1 ≤ e
      → e ≤ 8
      → (e == c) ≡ false
      → eq_ℤ (pos e) (pos c) ≡ false
      → IsOrdered (last_of c a) rest
      → Foretold c rest
          (laps_read py debug_raw c (laps_of c a) (last_of c a) rest)
          (next_lap (pos e) ts last a)
  unfolding next_lap events_of
  other_next c e ts none rest a low high other differs order = ([], refl, refl, order)
  other_next c e ts (some last) rest a low high other differs order =
      let n = laps_of e a in
      let es =
        lap_outcome py debug_raw now Source.carrera_appconnect e (n + 1) (sub_ℕ ts last) ts in
      (
        es,
        events_of-one py debug_raw now (lap_frame (pos e) (n + 1) (sub_ℕ ts last) ts) es (
            lap_frame-outcome py debug_raw now Source.carrera_appconnect e (n + 1) ts
              (sub_ℕ ts last) low high (omega arith)),
        rw
            (
              events_by-other py debug_raw now c e (n + 1) ts (sub_ℕ ts last) other,
              get_car-put_car_other (pos c) (pos e) (n + 1) a.lap_counts differs,
            )
            refl,
        order,
      )
