-- ===== src/Race/Crud/Repeating.antt =====
-- The race that `repeat_race` returns has the configuration of its source.
use carrera_monitor.Prelude.{ℕ, String, Bool, ◌≡◌, sym, Option, some, leb, arith}
use mathlib.Core.List.{Perm}
use mathlib.Core.List.Perm
use carrera_monitor.Prelude.Sort.{sort_by, sort_by-perm}
use carrera_monitor.Race.Model.{Race, fixed_laps, fixed_duration, RaceStatus, Driver, parse_status}
use carrera_monitor.Race.Repository.{get_race, to_read}
use carrera_monitor.Race.Schema.{row_lap_target, row_seconds}
use carrera_monitor.Race.App.{App, RaceManagementConfig, ok}
use carrera_monitor.Race.Crud.{repeat_race, copy_form, copy_row, new_row}

-- The limit of a race: its laps or its seconds, by its mode.
abbrev pub limit : Race → Option ℕ
limit r = elim r.mode [ fixed_laps ↦ r.lap_target | fixed_duration ↦ r.duration_seconds ]

abbrev by_car : Driver → Driver → Bool
by_car a b = leb a.car_id b.car_id

module _ (id now : ℕ) (new_name : Option String) where
  copy_drivers :
      (src : Race) (status : RaceStatus)
      → (to_read (copy_row id now new_name status src)).drivers
        ≡ sort_by by_car (sort_by by_car src.drivers)
  unfolding to_read copy_row new_row copy_form row_lap_target row_seconds
  copy_drivers src status = ground arith

  copy_config :
      (src : Race) (status : RaceStatus)
      → let r = to_read (copy_row id now new_name status src) in
        (r.mode ≡ src.mode)
        × (limit r ≡ limit src)
        × (r.driver_count ≡ src.driver_count)
        × (r.notes ≡ src.notes)
        × (r.source_race_id ≡ some src.id)
        × (r.status ≡ status)
  unfolding to_read copy_row new_row copy_form row_lap_target row_seconds
  copy_config src status = ground arith

module _ {F : Type 0} (cfg : RaceManagementConfig) (id now k : ℕ) (new_name : Option String) where
  returned :
      (src : Race) (status : RaceStatus) (s : App F) (r : Race)
      → get_race s.db k ≡ some src
      → parse_status cfg.default_race_status_after_create ≡ some status
      → (repeat_race cfg id now k new_name s).0 ≡ ok r
      → to_read (copy_row id now new_name status src) ≡ r
  unfolding repeat_race
  returned src status s r found parsed done = ground arith

  -- Where a race is repeated with success, the race that is returned has the mode, the limit, the
  -- driver count, the notes and the drivers of its source, names that source, and has the default
  -- status.
  pub repeat_race_copies :
      (src : Race) (status : RaceStatus) (s : App F) (r : Race)
      → get_race s.db k ≡ some src
      → parse_status cfg.default_race_status_after_create ≡ some status
      → (repeat_race cfg id now k new_name s).0 ≡ ok r
      → (r.mode ≡ src.mode)
        × (limit r ≡ limit src)
        × (r.driver_count ≡ src.driver_count)
        × (r.notes ≡ src.notes)
        × (r.source_race_id ≡ some src.id)
        × (r.status ≡ status)
        × Perm r.drivers src.drivers
  repeat_race_copies src status s r found parsed done =
      let (a, b, c, d, e, f) = copy_config id now new_name src status in
      let drivers : Perm (sort_by by_car (sort_by by_car src.drivers)) src.drivers =
        Perm.trans (sort_by-perm by_car (sort_by by_car src.drivers))
          (sort_by-perm by_car src.drivers) in
      rw (sym (returned src status s r found parsed done), copy_drivers id now new_name src status)
        ((a, b, c, d, e, f, drivers))
