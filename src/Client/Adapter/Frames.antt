-- ===== src/Client/Adapter/Frames.antt =====
-- carrera_client.py: `LiveCarreraAdapter._translate_status`.
use carrera_monitor.Prelude.{
  ℕ, zero, suc, ◌+◌, ◌==◌, String, Bool, true, false, not, ◌&&◌, Option, none, some, List, [], ◌∷◌,
  ◌++◌, leb, if◌then◌else◌,
}
use carrera_monitor.Prelude.Int.{ℤ, pos}
use carrera_monitor.Value.{Value, null, bool, float, str, Python, as_number}
use carrera_monitor.Event.Validation.{bind}
use carrera_monitor.Continuity.{CarSlotMapping, normalize_slot}
use carrera_monitor.Client.Frames.{RawFrame}
use mathlib.Core.Option
use carrera_monitor.Client.Adapter.{Status, LiveCarreraAdapter}

abbrev pub bool_eq : Bool → Bool → Bool
bool_eq true b = b
bool_eq false b = not b

-- `_START_TO_STATE.get(int(status.start), "idle")`
unfoldable pub start_to_state : ℕ → String
start_to_state n =
    if leb 1 n && leb n 5
    then "countdown"
    else if n == 6
    then "running"
    else if n == 7
    then "paused"
    else "idle"

-- `xs[i]`; `none` is an `IndexError`.
unfoldable pub index {ℓ} : {A : Type ℓ} → ℕ → List A → Option A
index i [] = none
index zero (x ∷ xs) = some x
index (suc i) (x ∷ xs) = index i xs

module _ {F : Type 0} where
  -- The frames of one loop of `_translate_status`, from index `i` on: an entry is compared with the
  -- entry of the previous status. `none` is an `IndexError`.
  unfoldable pub diff_frames {ℓ} :
      {A : Type ℓ}
      → (A → A → Bool)
      → (ℤ → A → RawFrame F)
      → ℕ
      → List A
      → Option (List A)
      → CarSlotMapping
      → Option (List (RawFrame F) × CarSlotMapping)
  unfolding index
  diff_frames same frame i [] prev m = some ([], m)
  diff_frames same frame i (x ∷ xs) prev m =
      let (car, m') = normalize_slot m (some (pos i)) in
      let rest = diff_frames same frame (i + 1) xs prev m' in
      let with_frame : ℤ → Option (List (RawFrame F) × CarSlotMapping) =
        λ c. bind rest λ (fs, m''). some (frame c x ∷ fs, m'') in
      elim car [
        | none ↦ rest
        | some c ↦ elim prev [
          | none ↦ with_frame c
          | some ys ↦ elim (index i ys) [
            | none ↦ none
            | some y ↦ if same y x then rest else with_frame c
          ]
        ]
      ]

  -- An entry of the previous speeds; a list that is too short counts as `None`.
  abbrev previous : ℕ → Option (List (Value F)) → Option (Value F)
  previous i none = none
  previous i (some ys) = index i ys

  abbrev pub same_as : (Value F → Value F → Bool) → Option (Value F) → Value F → Bool
  same_as eq none x = eq null x
  same_as eq (some y) x = eq y x

  abbrev pub at_least_zero : Python F → F → F
  at_least_zero py x =
      if py.lt_float (py.float_of_int (pos 0)) x then x else py.float_of_int (pos 0)

  unfoldable pub speed_frames :
      Python F
      → ℕ
      → List (Value F)
      → Option (List (Value F))
      → CarSlotMapping
      → List (RawFrame F) × CarSlotMapping
  unfolding index
  speed_frames py i [] prev m = ([], m)
  speed_frames py i (x ∷ xs) prev m =
      let (car, m') = normalize_slot m (some (pos i)) in
      let (fs, m'') = speed_frames py (i + 1) xs prev m' in
      elim car [
        | none ↦ (fs, m'')
        | some c ↦
            if same_as py.eq_value (previous i prev) x then (fs, m'') else (elim (as_number py x) [
              | none ↦ (fs, m'')
              | some v ↦ (
                (record {
                  kind = "speed";
                  car_id = some c;
                  controller_id = none;
                  fields = ("speed_kmh", float (at_least_zero py v)) ∷ [];
                })
                    ∷ fs,
                m'',
              )
            ])
      ]

  abbrev pub fuel_frame : Python F → ℤ → ℕ → RawFrame F
  fuel_frame py c level = record {
    kind = "fuel";
    car_id = some c;
    controller_id = none;
    fields =
        (
          "fuel_percent",
          float (
              py.div_float (py.mul_float (py.float_of_int (pos level)) (py.float_of_int (pos 100)))
                (py.float_of_int (pos 15))),
        )
        ∷ [];
  }

  abbrev pub pit_frame : ℤ → Bool → RawFrame F
  pit_frame c pit = record {
    kind = "pitlane";
    car_id = some c;
    controller_id = none;
    fields = ("in_pit", bool pit) ∷ ("pit_reason", str "unknown") ∷ [];
  }

  abbrev pub state_frames : Option (Status F) → ℕ → List (RawFrame F)
  state_frames none start =
      (record {
        kind = "race_state";
        car_id = none;
        controller_id = none;
        fields = ("race_state", str (start_to_state start)) ∷ [];
      })
      ∷ []
  state_frames (some prev) start =
      if prev.start == start
      then []
      else (record {
        kind = "race_state";
        car_id = none;
        controller_id = none;
        fields = ("race_state", str (start_to_state start)) ∷ [];
      })
        ∷ []

  abbrev all_speed :
      Python F
      → Option (List (Value F))
      → Option (List (Value F))
      → CarSlotMapping
      → List (RawFrame F) × CarSlotMapping
  all_speed py none prev m = ([], m)
  all_speed py (some xs) prev m = speed_frames py 0 xs prev m

  unfoldable pub translate_status :
      Python F → LiveCarreraAdapter F → Status F → Option (List (RawFrame F) × LiveCarreraAdapter F)
  unfolding diff_frames speed_frames start_to_state
  translate_status py a s =
      bind
        (diff_frames ◌==◌ (fuel_frame py) 0 s.fuel (Option.map (λ p. p.fuel) a.prev_status)
          a.slot_mapping)
        λ (fuels, m1).
          bind (diff_frames bool_eq pit_frame 0 s.pit (Option.map (λ p. p.pit) a.prev_status) m1)
            λ (pits, m2).
              let (speeds, m3) = all_speed py s.speed (bind a.prev_status (λ p. p.speed)) m2 in
              some (
                fuels ++ pits ++ speeds ++ state_frames a.prev_status s.start,
                record a { prev_status = some s; slot_mapping = m3 },
              )
