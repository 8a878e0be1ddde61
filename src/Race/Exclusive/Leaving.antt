-- ===== src/Race/Exclusive/Leaving.antt =====
-- The methods after which a race does not run keep the invariant of the running race.
use carrera_monitor.Prelude.{
  ℕ, Bool, true, false, ◌≡◌, refl, ◌∙◌, inl, inr, Option, none, some, if◌then◌else◌, arith,
  Bool-cases,
}
use carrera_monitor.Race.Model.{
  RaceStatus, ready, running, paused, finished, cancelled, Method, TriggeredBy,
}
use carrera_monitor.Race.Repository.{same_status, add_report}
use carrera_monitor.Race.App.{App, RaceManagementConfig, clear_active, drop_safety_car, is_active}
use carrera_monitor.Race.Reporting.{FloatEnv, save_report}
use carrera_monitor.Race.Lifecycle.{
  transition, mark_ready, pause_race, auto_snapshot, finish_race, cancel_race, race_has_laps,
  and_then,
}
use carrera_monitor.Race.Transition.{transition_cases}
use carrera_monitor.Race.Rows.{status_of, status-same_races}
use carrera_monitor.Race.Exclusive.{IsExclusive, runs, transition-IsExclusive}

module _ {F : Type 0} where
  pub clear_active-IsExclusive :
      (k : ℕ) (s : App F)
      → runs (status_of s.db k) ≡ false
      → IsExclusive s
      → IsExclusive (clear_active k s)
  unfolding clear_active
  clear_active-IsExclusive k s still x = elim (Bool-cases (is_active s.active k)) [
    | inl own ↦ rw own (record { only = λ j r. absurd (ground (arith, x.only j)) })
    | inr other ↦ rw other x
  ]

  pub drop_safety_car-IsExclusive :
      (k : ℕ) (s : App F) → IsExclusive s → IsExclusive (drop_safety_car k s)
  unfolding drop_safety_car
  drop_safety_car-IsExclusive k s x = record { only = x.only }

  -- A snapshot writes to the reports alone.
  pub auto_snapshot_races :
      (env : FloatEnv) (now k : ℕ) (s : App F)
      → ((auto_snapshot env now k s).db.races ≡ s.db.races)
        × ((auto_snapshot env now k s).active ≡ s.active)
        × ((auto_snapshot env now k s).db.laps ≡ s.db.laps)
        × ((auto_snapshot env now k s).db.checkpoints ≡ s.db.checkpoints)
        × ((auto_snapshot env now k s).db.identities ≡ s.db.identities)
  unfolding auto_snapshot save_report add_report
  auto_snapshot_races env now k s = ground arith

  pub auto_snapshot-IsExclusive :
      (env : FloatEnv) (now k : ℕ) (s : App F)
      → IsExclusive s
      → IsExclusive (auto_snapshot env now k s)
  auto_snapshot-IsExclusive env now k s x =
      let facts = auto_snapshot_races env now k s in
      record {
        only = λ j r.
            facts.1
            ∙ x.only j (rw (status-same_races (auto_snapshot env now k s).db s.db j facts.0) at r);
      }

  module _ (cfg : RaceManagementConfig) (now k : ℕ) (s : App F) (x : IsExclusive s) where
    pub mark_ready-IsExclusive : IsExclusive (mark_ready cfg now k s).1
    unfolding mark_ready
    mark_ready-IsExclusive =
        transition-IsExclusive cfg now k Method.mark_ready ready false false none s refl x

    -- What a method does after a transition out of the running state.
    after_leaving :
        (m : Method) (new : RaceStatus) (set_finished : Bool) (by : Option TriggeredBy)
        → same_status new running ≡ false
        → (f : App F → App F)
        → ((t : App F) → runs (status_of t.db k) ≡ false → IsExclusive t → IsExclusive (f t))
        → IsExclusive (and_then (transition cfg now k m new false set_finished by s) f).1
    after_leaving m new set_finished by other f keeps =
        elim (transition_cases cfg now k m new false set_finished by s) [
          | inl (e, same, no_move) ↦ rw same x
          | inr (race, found, allowed, eq, statuses) ↦ rw eq (
              keeps _ (ground (arith, statuses k))
                (record { only = λ j r. ground (arith, statuses j, x.only j) }))
        ]

    pub pause_race-IsExclusive : IsExclusive (pause_race cfg now k s).1
    unfolding pause_race
    pause_race-IsExclusive =
        after_leaving Method.pause_race paused false none refl (clear_active k)
          (clear_active-IsExclusive k)

    module _ (env : FloatEnv) where
      leave_for_good :
          (t : App F)
          → runs (status_of t.db k) ≡ false
          → IsExclusive t
          → IsExclusive (drop_safety_car k (clear_active k t))
      leave_for_good t still y =
          drop_safety_car-IsExclusive k (clear_active k t) (clear_active-IsExclusive k t still y)

      pub finish_race-IsExclusive :
          (by : TriggeredBy) → IsExclusive (finish_race cfg env now by k s).1
      unfolding finish_race
      finish_race-IsExclusive by =
          after_leaving Method.finish_race finished true (some by) refl
            (λ t. auto_snapshot env now k (drop_safety_car k (clear_active k t)))
            (λ t still y. auto_snapshot-IsExclusive env now k _ (leave_for_good t still y))

      pub cancel_race-IsExclusive : IsExclusive (cancel_race cfg env now k s).1
      unfolding cancel_race
      cancel_race-IsExclusive =
          after_leaving Method.cancel_race cancelled true none refl
            (λ t.
              let u = drop_safety_car k (clear_active k t) in
              if race_has_laps k s then auto_snapshot env now k u else u)
            (λ t still y. elim (Bool-cases (race_has_laps k s)) [
              | inl some_laps ↦
                  rw some_laps (auto_snapshot-IsExclusive env now k _ (leave_for_good t still y))
              | inr no_laps ↦ rw no_laps (leave_for_good t still y)
            ])
