-- ===== src/Race/StartFailure.antt =====
-- What a `start_race` that is refused leaves behind.
use carrera_monitor.Prelude.{
  ℕ, Bool, true, false, ◌≡◌, ◌≢◌, refl, ap, ◌∙◌, inl, inr, none, some, arith,
}
use carrera_monitor.Race.Model.{RaceStatus, running, paused, Method}
use carrera_monitor.Race.App.{App, err, invalid_race_state, RaceManagementConfig}
use carrera_monitor.Race.Lifecycle.{
  check_transition, valid_transitions, transition, auto_pause, start_race,
}
use carrera_monitor.Race.Transition.{transition_cases, written}
use carrera_monitor.Race.Rows.{status_of, status-inversion}

module _ {F : Type 0} (cfg : RaceManagementConfig) (now : ℕ) where
  auto_pause_other :
      (j k : ℕ) (s : App F)
      → s.active ≡ some j
      → j ≢ k
      → auto_pause cfg now k s
        ≡ (transition cfg now j Method.pause_race paused false false none s).1
  unfolding auto_pause
  auto_pause_other j k s a ne = ground arith

  refused_transition :
      (k : ℕ) (m : Method) (new : RaceStatus) (b : Bool) (s : App F) (st : RaceStatus)
      → status_of s.db k ≡ some st
      → check_transition m st ≡ false
      → transition cfg now k m new b false none s ≡ (err invalid_race_state, s)
  unfolding transition
  refused_transition k m new b s st h refused =
      let (r, found, is) = status-inversion s.db k st h in
      rw (found, transition) (rw (ap (check_transition m) is ∙ refused) refl)

  -- If a race is running and active, and another race is in a status from which it cannot start,
  -- then starting that other race raises, and yet leaves the first race paused, while it stays the
  -- active race.
  pub refused_start_pauses :
      (j k : ℕ) (s : App F) (st : RaceStatus)
      → s.active ≡ some j
      → status_of s.db j ≡ some running
      → status_of s.db k ≡ some st
      → check_transition Method.start_race st ≡ false
      → j ≢ k
      → let (r, t) = start_race cfg now k s in
        (r ≡ err invalid_race_state) × (status_of t.db j ≡ some paused) × (t.active ≡ some j)
  unfolding start_race check_transition valid_transitions
  refused_start_pauses j k s st a live other refused ne =
      elim (transition_cases cfg now j Method.pause_race paused false false none s) [
        | inl (e, same, no_move) ↦ absurd (ground (arith, no_move running live))
        | inr (race, found, allowed, eq, statuses) ↦
            let t : App F = record s {
              db = written cfg now j Method.pause_race paused false false none s race;
            } in
            let stop : auto_pause cfg now k s ≡ t =
              auto_pause_other j k s a ne ∙ ap (λ p. p.1) eq in
            rw stop (
              rw
                (refused_transition k Method.start_race running true t st
                  (ground (arith, statuses k)) refused)
                (refl, ground (arith, statuses j), a))
      ]
