-- ===== src/Race/Crud.antt =====
-- services/race_service.py: creating, reading, changing, deleting and repeating races. The key
-- that the database gives a new row is the argument `id`.
pub mod Repeating
use Prim.Native.String.{◌++◌ as append}
use carrera_monitor.Prelude.{
  ℕ, ◌%◌, String, Bool, true, false, not, ◌&&◌, Option, none, some, ◌==◌, str_eq, if◌then◌else◌,
}
use carrera_monitor.Prelude.Sort.{sort_by}
use carrera_monitor.Prelude.{leb, map}
use mathlib.Core.List.{head?}
use carrera_monitor.Race.Model.{
  Race, RaceStatus, draft, ready, running, fixed_laps, fixed_duration, Driver, parse_status,
}
use carrera_monitor.Race.Schema.{RaceForm, minutes, hours, is_valid, row_lap_target, row_seconds}
use carrera_monitor.Race.Repository
use carrera_monitor.Race.Repository.{to_read, save_race, keep, is_live, accepts_names}
use carrera_monitor.Race.App.{
  App, Action, ok, err, race_not_found, invalid_race_state, race_not_editable, race_validation,
  schema_validation, integrity, RaceManagementConfig, clear_active,
}

-- `RaceRepository.create_race`: the row of a form.
unfoldable pub new_row : ℕ → ℕ → RaceForm → RaceStatus → Option ℕ → Race
new_row id now f status source = record {
  id = id;
  name = f.name;
  mode = f.mode;
  lap_target = row_lap_target f;
  duration_seconds = row_seconds f;
  driver_count = f.driver_count;
  status = status;
  notes = f.notes;
  source_race_id = source;
  created_at = now;
  updated_at = now;
  started_at = none;
  finished_at = none;
  drivers = f.drivers;
}

-- `RaceRepository.update_race`
unfoldable pub edited : ℕ → RaceForm → Race → Race
edited now f r = record r {
  name = f.name;
  mode = f.mode;
  lap_target = row_lap_target f;
  duration_seconds = row_seconds f;
  driver_count = f.driver_count;
  notes = f.notes;
  updated_at = now;
  drivers = f.drivers;
}

abbrev pub is_editable : RaceStatus → Bool
is_editable draft = true
is_editable ready = true
is_editable _ = false

abbrev pub is_running : RaceStatus → Bool
is_running running = true
is_running _ = false

-- `new_name or f"{src.name} (copy)"`
unfoldable pub copy_name : Option String → String → String
copy_name none name = append name " (copy)"
copy_name (some n) name = if str_eq n "" then append name " (copy)" else n

abbrev or_zero : Option ℕ → ℕ
or_zero none = 0
or_zero (some n) = n

-- The form that `repeat_race` builds from the source race. Of a timed race the value is the stored
-- number of seconds, under a unit that plays no part in the copy.
unfoldable pub copy_form : Option String → Race → RaceForm
copy_form new_name src =
    let ds = sort_by (λ (a b : Driver). leb a.car_id b.car_id) src.drivers in
    let n = or_zero src.duration_seconds in
    elim src.mode [
      | fixed_laps ↦ record {
        name = copy_name new_name src.name;
        mode = fixed_laps;
        lap_target = src.lap_target;
        duration_value = none;
        duration_unit = none;
        driver_count = src.driver_count;
        drivers = ds;
        notes = src.notes;
      }
      | fixed_duration ↦ record {
        name = copy_name new_name src.name;
        mode = fixed_duration;
        lap_target = none;
        duration_value = some n;
        duration_unit = some (if n % 3600 == 0 then hours else minutes);
        driver_count = src.driver_count;
        drivers = ds;
        notes = src.notes;
      }
    ]

-- The copied row: a timed race keeps the stored number of seconds.
unfoldable pub copy_row : ℕ → ℕ → Option String → RaceStatus → Race → Race
copy_row id now new_name status src =
    let r = new_row id now (copy_form new_name src) status (some src.id) in
    elim src.mode [
      | fixed_laps ↦ r
      | fixed_duration ↦ record r { duration_seconds = src.duration_seconds }
    ]

module _ {F : Type 0} where
  unfoldable pub create_race : RaceManagementConfig → ℕ → ℕ → RaceForm → Action F Race
  create_race cfg id now f s =
      if is_valid f
      then (elim (parse_status cfg.default_race_status_after_create) [
        | none ↦ (err race_validation, s)
        | some status ↦
            let r = new_row id now f status none in
            if accepts_names r
            then (ok (to_read r), record s { db = Repository.create_race s.db r })
            else (err integrity, s)
      ])
      else (err schema_validation, s)

  unfoldable pub get_race : ℕ → Action F Race
  get_race k s = elim (Repository.get_race s.db k) [
    | none ↦ (err race_not_found, s)
    | some r ↦ (ok (to_read r), s)
  ]

  -- The newest of the live races among the two hundred that were created last.
  unfoldable pub get_active_race : App F → Option Race
  get_active_race s = head? (
      sort_by (λ a b. leb b.updated_at a.updated_at)
        (keep (λ r. is_live r.status) (map to_read (Repository.list_races s.db none 200 0))))

  unfoldable pub update_race : RaceManagementConfig → ℕ → ℕ → RaceForm → Action F Race
  update_race cfg now k f s =
      if is_valid f
      then (elim (Repository.get_race s.db k) [
        | none ↦ (err race_not_found, s)
        | some r ↦
            if not (is_editable r.status) && not cfg.allow_edit_running_race
            then (err race_not_editable, s)
            else if accepts_names (edited now f r)
            then (ok (to_read (edited now f r)), record s { db = save_race s.db (edited now f r) })
            else (err integrity, s)
      ])
      else (err schema_validation, s)

  unfoldable pub delete_race : ℕ → Action F (Unit {0})
  delete_race k s = elim (Repository.get_race s.db k) [
    | none ↦ (err race_not_found, s)
    | some r ↦
        if is_running r.status
        then (err invalid_race_state, s)
        else (ok tt, clear_active k (record s { db = Repository.delete_race s.db k }))
  ]

  -- The status is not validated here: a text that is none fails the table's check.
  unfoldable pub repeat_race : RaceManagementConfig → ℕ → ℕ → ℕ → Option String → Action F Race
  repeat_race cfg id now k new_name s = elim (Repository.get_race s.db k) [
    | none ↦ (err race_not_found, s)
    | some src ↦
        if is_valid (copy_form new_name src)
        then (elim (parse_status cfg.default_race_status_after_create) [
          | none ↦ (err integrity, s)
          | some status ↦
              let r = copy_row id now new_name status src in
              if accepts_names r
              then (ok (to_read r), record s { db = Repository.create_race s.db r })
              else (err integrity, s)
        ])
        else (err schema_validation, s)
  ]
