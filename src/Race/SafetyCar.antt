-- ===== src/Race/SafetyCar.antt =====
-- services/race_service.py: the safety-car phase, its rows in `race_events` and its cache.
pub mod Reading
use carrera_monitor.Prelude.{ℕ, Bool, true, false, Option, none, some, if◌then◌else◌}
use carrera_monitor.Race.Model.{RowType, safety_car_started, safety_car_ended, RowPayload}
use carrera_monitor.Race.Repository.{get_race, is_live, add_event, latest_event_type}
use carrera_monitor.Race.App.{
  App, Action, ok, err, race_not_found, invalid_race_state, lookup, put, drop_safety_car,
}

abbrev pub same : Bool → Bool → Bool
same true b = b
same false true = false
same false false = true

-- `last == "safety_car_started"`
abbrev pub is_started : Option RowType → Bool
is_started (some safety_car_started) = true
is_started _ = false

module _ {F : Type 0} where
  unfoldable pub cache_safety_car : ℕ → Bool → App F → App F
  cache_safety_car k b s = record s { safety_car_active = put k b s.safety_car_active }

  unfoldable pub is_safety_car_active : ℕ → App F → Bool × App F
  is_safety_car_active k s = elim (get_race s.db k) [
    | none ↦ (false, drop_safety_car k s)
    | some race ↦
        if is_live race.status
        then (elim (lookup k s.safety_car_active) [
          | some b ↦ (b, s)
          | none ↦ let b = is_started (latest_event_type s.db k) in (b, cache_safety_car k b s)
        ])
        else (false, drop_safety_car k s)
  ]

  unfoldable pub toggle_row : ℕ → ℕ → Bool → App F → App F
  toggle_row now k active s = cache_safety_car k active (record s {
    db = add_event s.db (record {
      race_id = k;
      timestamp_iso = now;
      event_type = if active then safety_car_started else safety_car_ended;
      car_id = none;
      payload = RowPayload.safety_car active;
    });
  })

  unfoldable pub set_safety_car : ℕ → ℕ → Bool → Action F Bool
  set_safety_car now k active s = elim (get_race s.db k) [
    | none ↦ (err race_not_found, s)
    | some race ↦
        if is_live race.status
        then (let (current, t) = is_safety_car_active k s in
            if same current active then (ok current, t) else (ok active, toggle_row now k active t))
        else (err invalid_race_state, s)
  ]
