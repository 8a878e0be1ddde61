-- ===== src/Race/Duplicates.antt =====
-- A crossing that is reported twice is recorded once.
use carrera_monitor.Prelude.{
  ℕ, true, false, ◌≡◌, refl, ◌∙◌, ap, sym, ◌⊎◌, inl, inr, Option, none, some, leb, arith,
  Bool-cases,
}
use carrera_monitor.Event.{TelemetryEvent, lap_time_ms}
use carrera_monitor.Race.Model.{
  Race, Driver, RaceMode, fixed_laps, running, finished, Method, TriggeredBy, Database,
}
use carrera_monitor.Race.Repository.{
  find_race, max_count, lap_count_by_car, accepts_identity, insert_lap_identity_if_new,
  has_identity, get_race, find_driver,
}
use carrera_monitor.Race.App.{App, RaceManagementConfig, clear_active, drop_safety_car}
use carrera_monitor.Race.Lifecycle.{finish_race}
use carrera_monitor.Race.Transition.{transition_cases}
use carrera_monitor.Race.Exclusive.Leaving.{auto_snapshot_races}
use carrera_monitor.Race.Reporting.{FloatEnv}
use carrera_monitor.Race.Ingest.{
  record_crossing, lap_of_race, record_lap, extract_cu_timestamp, finish_by, maybe_auto_finish,
}
use carrera_monitor.Race.Crossing.{
  crossing, stored, crossing_cases, lap_cases, record_lap_cases, crossing_identities,
  crossing_races,
}
use carrera_monitor.Race.LapRows.{has_identity-append}
use carrera_monitor.Race.Rows.{get_race-id}
use carrera_monitor.Race.Numbering.{IsNumbered}
use carrera_monitor.Race.Numbering.Recorded.{stored_is, stored-positive}

module _ {F : Type 0} (cfg : RaceManagementConfig) (env : FloatEnv) (now later : ℕ) where
  -- A crossing that the identity table refuses changes nothing.
  refused_again :
      (race : Race) (d : Driver) (cu time stamp : ℕ) (s : App F)
      → accepts_identity s.db (crossing later race d cu time stamp s.db) ≡ false
      → record_crossing cfg env later race d cu time stamp s ≡ s
  unfolding record_crossing insert_lap_identity_if_new
  refused_again race d cu time stamp s h = rw h

  refused-known :
      (race : Race) (d : Driver) (cu time stamp : ℕ) (db : Database F)
      → has_identity race.id d.car_id cu db.identities ≡ true
      → accepts_identity db (crossing later race d cu time stamp db) ≡ false
  unfolding accepts_identity
  refused-known race d cu time stamp db h = ground arith

  -- An event that reaches the crossing of a driver of the running race.
  reaches_crossing :
      (e : TelemetryEvent F) (u : App F) (k c time : ℕ) (race : Race) (d : Driver)
      → u.active ≡ some k
      → e.car_id ≡ some c
      → lap_time_ms e.payload ≡ some time
      → get_race u.db k ≡ some race
      → race.status ≡ running
      → find_driver c race.drivers ≡ some d
      → record_lap cfg env later e u
        ≡ record_crossing cfg env later race d (extract_cu_timestamp e) time e.timestamp_iso u
  unfolding record_lap lap_of_race
  reaches_crossing e u k c time race d a car lap found runs driver = ground arith

  finish_cases :
      (k : ℕ) (u : App F)
      → u.active ≡ some k
      → ((finish_race cfg env now TriggeredBy.auto k u).1 ≡ u)
        ⊎ ((finish_race cfg env now TriggeredBy.auto k u).1.active ≡ none)
  unfolding finish_race clear_active drop_safety_car
  finish_cases k u a =
      elim (transition_cases cfg now k Method.finish_race finished false true
        (some TriggeredBy.auto) u) [
          | inl (e, same, no_move) ↦ inl (rw same refl)
          | inr (race, found, allowed, eq, statuses) ↦
              inr (rw eq ((auto_snapshot_races env now k _).1 ∙ ground arith))
        ]

  -- The automatic finish leaves the state alone, or no race is active after it.
  finish_by_cases :
      (k : ℕ) (mode : RaceMode) (target : Option ℕ) (u : App F)
      → u.active ≡ some k
      → (finish_by cfg env now k mode target u ≡ u)
        ⊎ ((finish_by cfg env now k mode target u).active ≡ none)
  unfolding finish_by maybe_auto_finish
  finish_by_cases k fixed_laps (some target) u a =
      elim (Bool-cases (leb target (max_count (lap_count_by_car u.db k)))) [
        | inr more ↦ inl (rw more refl)
        | inl done ↦ elim (finish_cases k u a) [
          | inl same ↦ inl (rw done same)
          | inr off ↦ inr (rw done off)
        ]
      ]
  finish_by_cases k _ _ u a = inl refl

  -- A new crossing, once stored, is known.
  stored_is_known :
      (race : Race) (d : Driver) (cu time stamp : ℕ) (db db' : Database F)
      → stored now race d cu time stamp db ≡ some db'
      → has_identity race.id d.car_id cu db'.identities ≡ true
  stored_is_known race d cu time stamp db db' h =
      rw (crossing_identities now race d cu time stamp db db' h) (
        ground (
          arith,
          has_identity-append race.id d.car_id cu (crossing now race d cu time stamp db)
              db.identities,
        ))

  -- A crossing that could not be stored cannot be stored later: its lap time is zero.
  unstored_again :
      (race : Race) (d : Driver) (cu time stamp : ℕ) (s : App F)
      → IsNumbered s.db
      → accepts_identity s.db (crossing now race d cu time stamp s.db) ≡ true
      → stored now race d cu time stamp s.db ≡ none
      → record_crossing cfg env later race d cu time stamp s ≡ s
  unstored_again race d cu time stamp s v new failed =
      let zero_time : time ≡ 0 =
        ground (arith, stored-positive now race d cu time stamp s.db v new) in
      elim (crossing_cases cfg env later race d cu time stamp s) [
        | inl (inl dup) ↦ dup.1
        | inl (inr rolled_back) ↦ rolled_back.2
        | inr (db', _, wrote, eq) ↦
            absurd (ground (arith, stored_is later race d cu time stamp s.db v new db' wrote))
      ]

  abbrev first : TelemetryEvent F → App F → App F
  first e s = record_lap cfg env now e s

  idle_again :
      (e : TelemetryEvent F) (t : App F) → t.active ≡ none → record_lap cfg env later e t ≡ t
  unfolding record_lap
  idle_again e t a = ground arith

  -- After the crossing of a driver of the running race, the same event changes nothing.
  crossing_twice :
      (e : TelemetryEvent F) (s : App F) (k c time : ℕ) (race : Race) (d : Driver)
      → IsNumbered s.db
      → s.active ≡ some k
      → e.car_id ≡ some c
      → lap_time_ms e.payload ≡ some time
      → get_race s.db k ≡ some race
      → race.status ≡ running
      → find_driver c race.drivers ≡ some d
      → ((n : ℕ)
          → record_lap cfg env n e s
            ≡ record_crossing cfg env n race d (extract_cu_timestamp e) time e.timestamp_iso s)
      → record_lap cfg env later e (first e s) ≡ first e s
  unfolding get_race
  crossing_twice e s k c time race d v a car lap found runs driver on =
      let cu = extract_cu_timestamp e in
      let stamp = e.timestamp_iso in
      elim (crossing_cases cfg env now race d cu time stamp s) [
        | inl (inl dup) ↦ rw (on now, dup.1) (on later ∙ refused_again race d cu time stamp s dup.0)
        | inl (inr rolled_back) ↦
            rw (on now, rolled_back.2)
              (on later ∙ unstored_again race d cu time stamp s v rolled_back.0 rolled_back.1)
        | inr (db', new, wrote, eq) ↦
            let known = stored_is_known race d cu time stamp s.db db' wrote in
            let there : get_race db' k ≡ some race =
              ap (find_race k) (crossing_races now race d cu time stamp s.db db' wrote) ∙ found in
            elim (finish_by_cases race.id race.mode race.lap_target (record s { db = db' })
              (a ∙ ap some (sym (get_race-id s.db k race found)))) [
                | inl same ↦
                    rw (on now, eq, same)
                      (reaches_crossing e _ k c time race d a car lap there runs driver
                        ∙ refused_again race d cu time stamp _
                            (refused-known race d cu time stamp db' known))
                | inr off ↦ rw (on now, eq) (idle_again e _ off)
              ]
      ]

  -- In a state whose laps are numbered, recording the same lap event again, at any time, changes
  -- nothing.
  pub record_lap_twice :
      (e : TelemetryEvent F) (s : App F)
      → IsNumbered s.db
      → record_lap cfg env later e (record_lap cfg env now e s) ≡ record_lap cfg env now e s
  record_lap_twice e s v = elim (record_lap_cases cfg env e s) [
    | inl same ↦ rw (same now) (same later)
    | inr (k, c, time, a, car, t, eq) ↦ elim (lap_cases cfg env k c time e s) [
      | inl (inl (gone, off)) ↦ rw (eq now, off now) (idle_again e _ refl)
      | inl (inr off) ↦ rw (eq now, off now) (eq later ∙ off later)
      | inr (race, d, found, runs, driver, on) ↦
          crossing_twice e s k c time race d v a car t found runs driver (λ n. eq n ∙ on n)
    ]
  ]
