-- ===== src/Race/Schema.antt =====
-- schemas/race_schema.py: the form behind `RaceCreate` and `RaceUpdate`, and its validation.
use Prim.Native.String.{count}
use carrera_monitor.Prelude.{
  ℕ, ◌*◌, String, Bool, true, false, not, ◌&&◌, ◌||◌, Option, none, some, List, [], ◌∷◌, length,
  leb, ◌==◌, is_some,
}
use carrera_monitor.Race.Model.{Driver, RaceMode, fixed_laps, fixed_duration}

pub data DurationUnit : Type 0 where
  minutes hours : DurationUnit

pub record RaceForm : Type 0 where
  pub name : String
  pub mode : RaceMode
  pub lap_target : Option ℕ
  pub duration_value : Option ℕ
  pub duration_unit : Option DurationUnit
  pub driver_count : ℕ
  pub drivers : List Driver
  pub notes : Option String

abbrev within : ℕ → ℕ → ℕ → Bool
within lo hi n = leb lo n && leb n hi

abbrev at_least_one : Option ℕ → Bool
at_least_one none = true
at_least_one (some n) = leb 1 n

-- `DriverAssignment`'s fields
unfoldable pub valid_driver : Driver → Bool
valid_driver d = within 1 6 d.car_id && within 1 80 (count d.driver_name)

unfoldable pub valid_drivers : List Driver → Bool
unfolding valid_driver
valid_drivers [] = true
valid_drivers (d ∷ ds) = valid_driver d && valid_drivers ds

unfoldable pub has_car : ℕ → List Driver → Bool
has_car c [] = false
has_car c (d ∷ ds) = d.car_id == c || has_car c ds

-- `len(set(car_ids)) == len(car_ids)`
unfoldable pub distinct_cars : List Driver → Bool
unfolding has_car
distinct_cars [] = true
distinct_cars (d ∷ ds) = not (has_car d.car_id ds) && distinct_cars ds

-- The fields' own constraints.
unfoldable pub valid_fields : RaceForm → Bool
unfolding valid_drivers
valid_fields f =
    within 1 120 (count f.name)
    && at_least_one f.lap_target
    && at_least_one f.duration_value
    && within 1 6 f.driver_count
    && valid_drivers f.drivers

-- The target that a mode wants is there, and the other is not.
unfoldable pub consistent_mode : RaceForm → Bool
consistent_mode f = elim f.mode [
  | fixed_laps ↦ is_some f.lap_target && not (is_some f.duration_value)
  | fixed_duration ↦
      is_some f.duration_value && is_some f.duration_unit && not (is_some f.lap_target)
]

-- The form is accepted: the constraints hold and `_consistency` does not raise.
unfoldable pub is_valid : RaceForm → Bool
unfolding valid_fields consistent_mode distinct_cars
is_valid f =
    valid_fields f
    && consistent_mode f
    && length f.drivers == f.driver_count
    && distinct_cars f.drivers

abbrev in_seconds : DurationUnit → ℕ → ℕ
in_seconds minutes n = n * 60
in_seconds hours n = n * 3600

-- the property `duration_seconds`
unfoldable pub form_seconds : RaceForm → Option ℕ
form_seconds f = elim f.duration_value [
  | none ↦ none
  | some n ↦ elim f.duration_unit [ none ↦ none | some u ↦ some (in_seconds u n) ]
]

-- The target columns that the repository writes for a form.
unfoldable pub row_lap_target : RaceForm → Option ℕ
row_lap_target f = elim f.mode [ fixed_laps ↦ f.lap_target | fixed_duration ↦ none ]

unfoldable pub row_seconds : RaceForm → Option ℕ
unfolding form_seconds
row_seconds f = elim f.mode [ fixed_laps ↦ none | fixed_duration ↦ form_seconds f ]
