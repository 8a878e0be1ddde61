-- ===== src/Race/Runner/Ticking.antt =====
-- A tick finishes the active race of fixed duration once its time is over.
use carrera_monitor.Prelude.{
  ℕ, ◌+◌, ◌*◌, true, false, ◌≡◌, ◌∙◌, inl, inr, Option, none, some, ap, leb, if◌then◌else◌, arith,
  Bool-cases,
}
use carrera_monitor.Race.Model.{
  Race, RaceStatus, running, finished, fixed_duration, Method, TriggeredBy,
}
use carrera_monitor.Race.Repository.{get_race}
use carrera_monitor.Race.App.{App, RaceManagementConfig, clear_active, drop_safety_car}
use carrera_monitor.Race.Reporting.{FloatEnv}
use carrera_monitor.Race.Lifecycle.{finish_race, check_transition, valid_transitions, auto_snapshot}
use carrera_monitor.Race.Rows.{status_of, status-same_races, status-found}
use carrera_monitor.Race.Transition.{transition_cases}
use carrera_monitor.Race.Exclusive.Leaving.{auto_snapshot_races}
use carrera_monitor.Race.Runner.{is_due, tick}

due_when_over :
    (now t d : ℕ) (race : Race)
    → race.status ≡ running
    → race.mode ≡ fixed_duration
    → race.started_at ≡ some t
    → race.duration_seconds ≡ some d
    → is_due now race ≡ leb (t + d * 1000000) now
unfolding is_due
due_when_over now t d race runs timed started lasts = ground arith

module _ {F : Type 0} (cfg : RaceManagementConfig) (env : FloatEnv) (now k : ℕ) (s : App F) where
  clear_active-own : (t : App F) → t.active ≡ some k → (clear_active k t).active ≡ none
  unfolding clear_active
  clear_active-own t h = ground arith

  clear_active_db : (t : App F) → (clear_active k t).db ≡ t.db
  unfolding clear_active
  clear_active_db t = ground arith

  ended : App F → App F
  ended t = auto_snapshot env now k (drop_safety_car k (clear_active k t))

  ended_active : (t : App F) → t.active ≡ some k → (ended t).active ≡ none
  unfolding ended drop_safety_car
  ended_active t h =
      let (r, a, laps, checks, ids) =
        auto_snapshot_races env now k (drop_safety_car k (clear_active k t)) in
      a ∙ clear_active-own t h

  ended_status :
      (t : App F) (st : Option RaceStatus) → status_of t.db k ≡ st → status_of (ended t).db k ≡ st
  unfolding ended drop_safety_car
  ended_status t st h =
      let u = drop_safety_car k (clear_active k t) in
      let (r, a, laps, checks, ids) = auto_snapshot_races env now k u in
      status-same_races (auto_snapshot env now k u).db u.db k r ∙ rw (clear_active_db t) h

  finish_running :
      status_of s.db k ≡ some running
      → s.active ≡ some k
      → let t = (finish_race cfg env now TriggeredBy.auto k s).1 in
        (status_of t.db k ≡ some finished) × (t.active ≡ none)
  unfolding finish_race check_transition valid_transitions ended
  finish_running runs own =
      elim (transition_cases cfg now k Method.finish_race finished false true
        (some TriggeredBy.auto) s) [
          | inl (e, same, no_move) ↦ absurd (ground (arith, no_move running runs))
          | inr (race, found, allowed, eq, statuses) ↦
              rw (eq)
                ((ended_status _ (some finished) (ground (arith, statuses k)), ended_active _ own))
        ]

  tick_due :
      (race : Race)
      → s.active ≡ some k
      → get_race s.db k ≡ some race
      → is_due now race ≡ true
      → tick cfg env now s ≡ (finish_race cfg env now TriggeredBy.auto k s).1
  unfolding tick
  tick_due race own found due = ground arith

  tick_early :
      (race : Race)
      → s.active ≡ some k
      → get_race s.db k ≡ some race
      → is_due now race ≡ false
      → tick cfg env now s ≡ s
  unfolding tick
  tick_early race own found due = ground arith

  -- A tick, while a race of fixed duration with a start and a duration runs and is active,
  -- finishes it and leaves no race active where the duration is over, and changes neither before.
  pub tick_finishes :
      (race : Race) (t d : ℕ)
      → s.active ≡ some k
      → get_race s.db k ≡ some race
      → race.status ≡ running
      → race.mode ≡ fixed_duration
      → race.started_at ≡ some t
      → race.duration_seconds ≡ some d
      → let over = leb (t + d * 1000000) now in
        (status_of (tick cfg env now s).db k ≡ some (if over then finished else running))
        × ((tick cfg env now s).active ≡ (if over then none else some k))
  tick_finishes race t d own found runs timed started lasts =
      let due : is_due now race ≡ leb (t + d * 1000000) now =
        due_when_over now t d race runs timed started lasts in
      let status : status_of s.db k ≡ some running =
        status-found s.db k race found ∙ ap some runs in
      elim (Bool-cases (leb (t + d * 1000000) now)) [
        | inl over ↦ rw (over, tick_due race own found (due ∙ over)) (finish_running status own)
        | inr early ↦ rw (early, tick_early race own found (due ∙ early)) ((status, own))
      ]
