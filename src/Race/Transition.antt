-- ===== src/Race/Transition.antt =====
-- What `_transition` does: it refuses and changes nothing, or it writes the row of its race.
use carrera_monitor.Prelude.{
  ℕ, Bool, true, false, ◌≡◌, ◌⊎◌, inl, inr, Option, some, ◌==◌, if◌then◌else◌, arith, Option-cases,
  Bool-cases,
}
use carrera_monitor.Race.Model.{Race, RaceStatus, Method, TriggeredBy, Database}
use carrera_monitor.Race.Repository.{get_race, save_race, to_read}
use carrera_monitor.Race.App.{
  App, Result, ok, err, Error, race_not_found, invalid_race_state, RaceManagementConfig,
}
use carrera_monitor.Race.Lifecycle.{log_method, moved, check_transition, transition}
use carrera_monitor.Race.Rows.{status_of, get_race-id, status-written, status-found, status-missing}

module _ {F : Type 0} where
  module _ (cfg : RaceManagementConfig) (now k : ℕ) (m : Method) (new : RaceStatus)
      (set_started set_finished : Bool) (by : Option TriggeredBy) (s : App F) where
    abbrev pub after : Result Race × App F
    after = transition cfg now k m new set_started set_finished by s

    abbrev pub row : Race → Race
    row = moved now new set_started set_finished

    abbrev pub written : Race → Database F
    written race = log_method cfg now k m by (save_race s.db (row race))

    pub transition_lem :
        (race : Race)
        → get_race s.db k ≡ some race
        → check_transition m race.status ≡ true
        → after ≡ (ok (to_read (row race)), record s { db = written race })
    unfolding transition
    transition_lem race e allowed = rw (e, transition) (rw allowed)

    -- A transition raises and changes nothing, or it changes the status of its race alone.
    pub transition_cases :
        ((e : Error) × (after ≡ (err e, s))
          × ((st : RaceStatus) → status_of s.db k ≡ some st → check_transition m st ≡ false))
        ⊎ ((race : Race) × (get_race s.db k ≡ some race)
            × (check_transition m race.status ≡ true)
            × (after ≡ (ok (to_read (row race)), record s { db = written race }))
            × ((j : ℕ)
                → status_of (written race) j ≡ (if k == j then some new else status_of s.db j)))
    transition_cases = elim (Option-cases (get_race s.db k)) [
      | inl e ↦ inl (
        race_not_found,
        unfold transition in rw (e, transition),
        λ st h. ground (arith, status-missing s.db k e),
      )
      | inr (race, e) ↦ elim (Bool-cases (check_transition m race.status)) [
        | inl allowed ↦ inr (
          race,
          e,
          allowed,
          transition_lem race e allowed,
          λ j.
              unfold moved in
              status-written cfg now k m by s.db j (row race) (get_race-id s.db k race e) e,
        )
        | inr refused ↦ inl (
          invalid_race_state,
          unfold transition in rw (e, transition) (rw refused),
          λ st h. ground (arith, status-found s.db k race e),
        )
      ]
    ]
