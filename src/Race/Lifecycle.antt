-- ===== src/Race/Lifecycle.antt =====
-- services/race_service.py: the state machine of a race and the methods that drive it.
-- `now` is the wall clock, read as one value in each call.
use carrera_monitor.Prelude.{
  ℕ, Bool, true, false, not, ◌&&◌, Option, none, some, List, [], ◌∷◌, ltb, if◌then◌else◌,
}
use carrera_monitor.Race.Model.{
  Race, RaceStatus, draft, ready, running, paused, finished, cancelled, Method, TriggeredBy,
  RowType, RowPayload, Database,
}
use carrera_monitor.Race.Repository.{get_race, save_race, add_event, lap_count_by_car, to_read}
use carrera_monitor.Race.Reporting.{FloatEnv, race_summary, save_report}
use carrera_monitor.Race.App.{
  App, Action, Result, ok, err, race_not_found, invalid_race_state, RaceManagementConfig,
  clear_active, set_active, drop_safety_car, is_active,
}

-- `_VALID_TRANSITIONS`
unfoldable pub valid_transitions : Method → RaceStatus → List RaceStatus
valid_transitions Method.mark_ready draft = ready ∷ []
valid_transitions Method.mark_ready ready = ready ∷ []
valid_transitions Method.start_race draft = running ∷ []
valid_transitions Method.start_race ready = running ∷ []
valid_transitions Method.pause_race running = paused ∷ []
valid_transitions Method.resume_race paused = running ∷ []
valid_transitions Method.finish_race running = finished ∷ []
valid_transitions Method.finish_race paused = finished ∷ []
valid_transitions Method.cancel_race draft = cancelled ∷ []
valid_transitions Method.cancel_race ready = cancelled ∷ []
valid_transitions Method.cancel_race running = cancelled ∷ []
valid_transitions Method.cancel_race paused = cancelled ∷ []
valid_transitions _ _ = []

-- `_check_transition` raises where this is `false`.
unfoldable pub check_transition : Method → RaceStatus → Bool
check_transition m status = elim (valid_transitions m status) [ [] ↦ false | _ ↦ true ]

unfoldable pub race_event_type : Method → RowType
race_event_type Method.mark_ready = RowType.mark_ready
race_event_type Method.start_race = RowType.race_started
race_event_type Method.pause_race = RowType.race_paused
race_event_type Method.resume_race = RowType.race_resumed
race_event_type Method.finish_race = RowType.race_finished
race_event_type Method.cancel_race = RowType.race_cancelled

abbrev is_mark_ready : Method → Bool
is_mark_ready Method.mark_ready = true
is_mark_ready _ = false

abbrev keep_or : Option ℕ → ℕ → Option ℕ
keep_or none now = some now
keep_or (some t) now = some t

-- The row that `_transition` writes.
unfoldable pub moved : ℕ → RaceStatus → Bool → Bool → Race → Race
moved now new set_started set_finished r = record r {
  status = new;
  updated_at = now;
  started_at = if set_started then keep_or r.started_at now else r.started_at;
  finished_at = if set_finished then keep_or r.finished_at now else r.finished_at;
}

-- `any(c > 0 for c in counts.values())`
unfoldable pub any_pos : List (ℕ × ℕ) → Bool
any_pos [] = false
any_pos ((c, n) ∷ counts) = let rest = any_pos counts in if ltb 0 n then true else rest

module _ {F : Type 0} where
  unfoldable pub log_method :
      RaceManagementConfig → ℕ → ℕ → Method → Option TriggeredBy → Database F → Database F
  log_method cfg now k m by db =
      if cfg.persist_all_events && not (is_mark_ready m)
      then add_event db (record {
        race_id = k;
        timestamp_iso = now;
        event_type = race_event_type m;
        car_id = none;
        payload = RowPayload.lifecycle m by;
      })
      else db

  unfoldable pub transition :
      RaceManagementConfig
      → ℕ
      → ℕ
      → Method
      → RaceStatus
      → Bool
      → Bool
      → Option TriggeredBy
      → Action F Race
  transition cfg now k m new set_started set_finished by s = elim (get_race s.db k) [
    | none ↦ (err race_not_found, s)
    | some race ↦
        if check_transition m race.status
        then (let race' = moved now new set_started set_finished race in
            (
              ok (to_read race'),
              record s { db = log_method cfg now k m by (save_race s.db race') },
            ))
        else (err invalid_race_state, s)
  ]

  -- What follows a transition that did not raise.
  abbrev pub and_then : {A : Type 0} → Result A × App F → (App F → App F) → Result A × App F
  and_then (ok a, s) f = (ok a, f s)
  and_then (err e, s) f = (err e, s)

  unfoldable pub mark_ready : RaceManagementConfig → ℕ → ℕ → Action F Race
  mark_ready cfg now k s = transition cfg now k Method.mark_ready ready false false none s

  -- The race that is active, if it is another one, is paused first; what that raises is suppressed.
  unfoldable pub auto_pause : RaceManagementConfig → ℕ → ℕ → App F → App F
  auto_pause cfg now k s = elim s.active [
    | none ↦ s
    | some j ↦
        if is_active (some j) k
        then s
        else (transition cfg now j Method.pause_race paused false false none s).1
  ]

  unfoldable pub start_race : RaceManagementConfig → ℕ → ℕ → Action F Race
  start_race cfg now k s =
      and_then
        (transition cfg now k Method.start_race running true false none (auto_pause cfg now k s))
        (set_active k)

  unfoldable pub pause_race : RaceManagementConfig → ℕ → ℕ → Action F Race
  pause_race cfg now k s =
      and_then (transition cfg now k Method.pause_race paused false false none s) (clear_active k)

  unfoldable pub resume_race : RaceManagementConfig → ℕ → ℕ → Action F Race
  resume_race cfg now k s =
      and_then
        (transition cfg now k Method.resume_race running false false none (auto_pause cfg now k s))
        (set_active k)

  -- `_auto_snapshot`: whatever goes wrong is logged and dropped.
  unfoldable pub auto_snapshot : FloatEnv → ℕ → ℕ → App F → App F
  auto_snapshot env now k s = elim (race_summary env now s.db k) [
    | none ↦ s
    | some summary ↦ elim (save_report now s.db k summary) [
      | none ↦ s
      | some db ↦ record s { db = db }
    ]
  ]

  unfoldable pub finish_race : RaceManagementConfig → FloatEnv → ℕ → TriggeredBy → ℕ → Action F Race
  finish_race cfg env now by k s =
      and_then (transition cfg now k Method.finish_race finished false true (some by) s)
        (λ t. auto_snapshot env now k (drop_safety_car k (clear_active k t)))

  unfoldable pub finish_race_by_user : RaceManagementConfig → FloatEnv → ℕ → ℕ → Action F Race
  finish_race_by_user cfg env now k = finish_race cfg env now TriggeredBy.user k

  unfoldable pub race_has_laps : ℕ → App F → Bool
  race_has_laps k s = any_pos (lap_count_by_car s.db k)

  unfoldable pub cancel_race : RaceManagementConfig → FloatEnv → ℕ → ℕ → Action F Race
  cancel_race cfg env now k s =
      let had_laps = race_has_laps k s in
      and_then (transition cfg now k Method.cancel_race cancelled false true none s) (λ t.
        let u = drop_safety_car k (clear_active k t) in
        if had_laps then auto_snapshot env now k u else u)
