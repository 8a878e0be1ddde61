-- ===== src/Race/Exclusive.antt =====
-- At most one race is running, and it is the one that `ActiveRaceContext` names: the invariant,
-- and the methods that start and resume a race. The other methods are in the children.
pub mod Leaving
pub mod Editing
pub mod Telemetry
use carrera_monitor.Prelude.{
  ℕ, Bool, true, false, ◌≡◌, ◌≢◌, refl, ◌⊎◌, inl, inr, Option, none, some, List, [], ◌∷◌, ◌==◌,
  if◌then◌else◌, arith, Option-cases, Bool-cases,
}
use carrera_monitor.Race.Model.{Race, RaceStatus, running, paused, Method, TriggeredBy, Database}
use carrera_monitor.Race.Repository.{get_race, save_race, to_read, same_status}
use carrera_monitor.Race.App.{
  App, Action, Result, ok, err, Error, race_not_found, invalid_race_state, RaceManagementConfig,
  clear_active, set_active, drop_safety_car, is_active,
}
use carrera_monitor.Race.Reporting.{FloatEnv}
use carrera_monitor.Race.Lifecycle.{
  log_method, moved, check_transition, transition, auto_pause, start_race, pause_race, resume_race,
  mark_ready, auto_snapshot, finish_race, cancel_race, and_then, valid_transitions,
}
use carrera_monitor.Race.Transition.{transition_cases}
use carrera_monitor.Race.Rows.{status_of, get_race-id, status-written, status-found, status-missing}

abbrev pub runs : Option RaceStatus → Bool
runs none = false
runs (some st) = same_status st running

module _ {F : Type 0} where
  -- Every running race is the active one.
  pub record IsExclusive (s : App F) : Type 0 where
    pub only : (j : ℕ) → runs (status_of s.db j) ≡ true → s.active ≡ some j

  module _ (cfg : RaceManagementConfig) (now k : ℕ) (m : Method) (new : RaceStatus)
      (set_started set_finished : Bool) (by : Option TriggeredBy) (s : App F) where
    abbrev moved_state : App F
    moved_state = (transition cfg now k m new set_started set_finished by s).1

    pub transition-IsExclusive :
        same_status new running ≡ false → IsExclusive s → IsExclusive moved_state
    transition-IsExclusive other x =
        elim (transition_cases cfg now k m new set_started set_finished by s) [
          | inl (e, same, no_move) ↦ rw (same, moved_state) x
          | inr (race, e, allowed, eq, statuses) ↦
              rw (eq, moved_state) (record { only = λ j r. ground (arith, statuses j, x.only j) })
        ]

  module _ (cfg : RaceManagementConfig) (now i : ℕ) (s : App F) where
    abbrev paused_state : App F
    paused_state = (transition cfg now i Method.pause_race paused false false none s).1

    -- Once the active race is paused, none runs.
    pause_active_stops :
        IsExclusive s → s.active ≡ some i → (j : ℕ) → runs (status_of paused_state.db j) ≡ false
    unfolding check_transition valid_transitions
    pause_active_stops x e j =
        elim (transition_cases cfg now i Method.pause_race paused false false none s) [
          | inl (er, same, no_move) ↦
              rw (same, paused_state) (ground (arith, x.only j, no_move running))
          | inr (race, found, allowed, eq, statuses) ↦
              rw (eq, paused_state) (ground (arith, statuses j, x.only j))
        ]

  module _ (cfg : RaceManagementConfig) (now k : ℕ) (s : App F) (x : IsExclusive s) where
    auto_pause-IsExclusive : IsExclusive (auto_pause cfg now k s)
    unfolding auto_pause
    auto_pause-IsExclusive = elim (Option-cases s.active) [
      | inl e ↦ rw (e, auto_pause) x
      | inr (i, e) ↦ elim (Bool-cases (i == k)) [
        | inl own ↦ rw (e, auto_pause) (rw own x)
        | inr other ↦
            rw (e, auto_pause)
              (rw other (
                transition-IsExclusive cfg now i Method.pause_race paused false false none s refl
                  x))
      ]
    ]

    auto_pause_only : (j : ℕ) → runs (status_of (auto_pause cfg now k s).db j) ≡ true → k ≡ j
    unfolding auto_pause
    auto_pause_only j = elim (Option-cases s.active) [
      | inl e ↦ rw (e, auto_pause) (λ r. absurd (ground (arith, x.only j)))
      | inr (i, e) ↦ elim (Bool-cases (i == k)) [
        | inl own ↦ rw (e, auto_pause) (rw own (λ r. ground (arith, x.only j)))
        | inr other ↦
            rw (e, auto_pause)
              (rw other (λ r. absurd (ground (arith, pause_active_stops cfg now i s x e j))))
      ]
    ]

    -- A race that takes the running place: `start_race` and `resume_race`.
    take_place-IsExclusive :
        (m : Method) (set_started : Bool)
        → IsExclusive
            (and_then
              (transition cfg now k m running set_started false none (auto_pause cfg now k s))
              (set_active k)).1
    unfolding set_active
    take_place-IsExclusive m set_started =
        elim (transition_cases cfg now k m running set_started false none
          (auto_pause cfg now k s)) [
            | inl (er, same, no_move) ↦ rw same auto_pause-IsExclusive
            | inr (race, found, allowed, eq, statuses) ↦
                rw eq (record { only = λ j r. ground (arith, statuses j, auto_pause_only j) })
          ]

    pub start_race-IsExclusive : IsExclusive (start_race cfg now k s).1
    unfolding start_race
    start_race-IsExclusive = take_place-IsExclusive Method.start_race true

    pub resume_race-IsExclusive : IsExclusive (resume_race cfg now k s).1
    unfolding resume_race
    resume_race-IsExclusive = take_place-IsExclusive Method.resume_race false
