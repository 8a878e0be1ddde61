-- ===== src/Race/Numbering/Recorded.antt =====
-- A new crossing of a car always gets the next number, and only a lap time of zero is refused.
use carrera_monitor.Prelude.{
  ℕ, ◌+◌, ◌≤◌, true, false, ◌≡◌, refl, ◌∙◌, inl, inr, Option, none, some, [], ◌∷◌, ◌++◌, arith,
}
use carrera_monitor.Event.{TelemetryEvent, Payload}
use carrera_monitor.Race.Model.{Race, Driver, running, Database}
use carrera_monitor.Race.Repository.{
  count_laps, accepts_identity, insert_identity, has_identity, upsert_lap_checkpoint, add_lap,
  get_race, find_driver,
}
use carrera_monitor.Race.App.{App, RaceManagementConfig}
use carrera_monitor.Race.Reporting.{FloatEnv}
use carrera_monitor.Race.Ingest.{
  ensure_checkpoint, write_lap, next_number, lap_row, record_crossing, lap_of_race, record_lap,
  extract_cu_timestamp,
}
use carrera_monitor.Race.Crossing.{crossing, stored, crossing_cases, lap_cases, record_lap_cases}
use carrera_monitor.Race.Numbering.{
  IsNumbered, same_laps-IsNumbered, ensure-IsNumbered, laps-ensure, next_number-ensure, extended,
  extended-IsNumbered,
}
use carrera_monitor.Race.Rows.{get_race-id, find_driver-car}
use carrera_monitor.Race.Numbering.Frame.{finish_by-SameLaps}

module _ {F : Type 0} where
  module _ (now : ℕ) (race : Race) (d : Driver) (cu time stamp : ℕ) (db : Database F)
      (v : IsNumbered db)
      (new : accepts_identity db (crossing now race d cu time stamp db) ≡ true) where
    abbrev registered : Database F
    registered = insert_identity db (crossing now race d cu time stamp db)

    abbrev seeded : Database F
    seeded = ensure_checkpoint now registered race.id d.car_id

    registered-IsNumbered : IsNumbered registered
    unfolding insert_identity
    registered-IsNumbered = same_laps-IsNumbered db registered refl refl v

    seeded-IsNumbered : IsNumbered seeded
    seeded-IsNumbered = ensure-IsNumbered now registered race.id d.car_id registered-IsNumbered

    laps-seeded : seeded.laps ≡ db.laps
    unfolding insert_identity
    laps-seeded = laps-ensure now registered race.id d.car_id registered-IsNumbered

    abbrev next : ℕ
    next = count_laps race.id d.car_id db.laps + 1

    next_number-seeded : next_number seeded race.id d.car_id ≡ next
    unfolding insert_identity
    next_number-seeded = next_number-ensure now registered race.id d.car_id registered-IsNumbered

    pub stored-positive :
        1 ≤ time
        → stored now race d cu time stamp db
          ≡ some (extended now race.id d cu next time stamp seeded)
    unfolding write_lap add_lap accepts_identity
    stored-positive h =
        ground (arith, next_number-seeded, laps-seeded, v.numbers race.id d.car_id next)

    pub stored-zero : time ≡ 0 → stored now race d cu time stamp db ≡ none
    unfolding write_lap add_lap
    stored-zero h = ground arith

    time_of_stored : (db' : Database F) → stored now race d cu time stamp db ≡ some db' → 1 ≤ time
    time_of_stored db' h = ground (arith, stored-zero)

    -- What is written when the writes succeed.
    pub stored_is :
        (db' : Database F)
        → stored now race d cu time stamp db ≡ some db'
        → (1 ≤ time)
          × (db' ≡ extended now race.id d cu next time stamp seeded)
          × (db'.laps ≡ db.laps ++ lap_row race.id d next time stamp ∷ [])
          × IsNumbered db'
    unfolding upsert_lap_checkpoint
    stored_is db' h =
        let positive = time_of_stored db' h in
        let same : db' ≡ extended now race.id d cu next time stamp seeded =
          cc (stored-positive positive) in
        (
          positive,
          same,
          rw same (rw laps-seeded refl),
          rw same (
              extended-IsNumbered now race.id d cu next time stamp seeded (rw laps-seeded refl)
                seeded-IsNumbered),
        )

  accepts-driver :
      (db : Database F) (k c cu : ℕ) (race : Race) (d : Driver) (stamp time now : ℕ)
      → race.id ≡ k
      → d.car_id ≡ c
      → 1 ≤ c
      → c ≤ 6
      → has_identity k c cu db.identities ≡ false
      → accepts_identity db (crossing now race d cu time stamp db) ≡ true
  unfolding accepts_identity
  accepts-driver db k c cu race d stamp time now own its lo hi new = ground arith

  module _ (cfg : RaceManagementConfig) (env : FloatEnv) (now : ℕ) where
    record_crossing-IsNumbered :
        (race : Race) (d : Driver) (cu time stamp : ℕ) (s : App F)
        → IsNumbered s.db
        → IsNumbered (record_crossing cfg env now race d cu time stamp s).db
    record_crossing-IsNumbered race d cu time stamp s v =
        elim (crossing_cases cfg env now race d cu time stamp s) [
          | inl (inl dup) ↦ rw dup.1 v
          | inl (inr rolled_back) ↦ rw rolled_back.2 v
          | inr (db', new, wrote, eq) ↦
              let same =
                finish_by-SameLaps cfg env now race.id (record s { db = db' }) race.mode
                  race.lap_target in
              rw eq (
                same_laps-IsNumbered db' _ same.laps same.checkpoints
                  (stored_is now race d cu time stamp s.db v new db' wrote).3)
        ]

    -- The writes of a crossing, whatever the automatic finish does after them.
    crossing_laps :
        (race : Race) (d : Driver) (cu time stamp : ℕ) (s : App F)
        → IsNumbered s.db
        → accepts_identity s.db (crossing now race d cu time stamp s.db) ≡ true
        → 1 ≤ time
        → (record_crossing cfg env now race d cu time stamp s).db.laps
          ≡ s.db.laps
            ++ lap_row race.id d (count_laps race.id d.car_id s.db.laps + 1) time stamp ∷ []
    crossing_laps race d cu time stamp s v new positive =
        elim (crossing_cases cfg env now race d cu time stamp s) [
          | inl (inl dup) ↦ cc
          | inl (inr rolled_back) ↦
              cc (stored-positive now race d cu time stamp s.db v new positive)
          | inr (db', _, wrote, eq) ↦
              let same =
                finish_by-SameLaps cfg env now race.id (record s { db = db' }) race.mode
                  race.lap_target in
              rw eq (same.laps ∙ (stored_is now race d cu time stamp s.db v new db' wrote).2)
        ]

    pub record_lap-IsNumbered :
        (e : TelemetryEvent F) (s : App F)
        → IsNumbered s.db
        → IsNumbered (record_lap cfg env now e s).db
    record_lap-IsNumbered e s v = elim (record_lap_cases cfg env e s) [
      | inl same ↦ rw (same now) v
      | inr (k, c, time, a, car, t, eq) ↦ elim (lap_cases cfg env k c time e s) [
        | inl (inl (gone, off)) ↦ rw (eq now, off now) v
        | inl (inr off) ↦ rw (eq now, off now) v
        | inr (race, d, found, runs, driver, on) ↦
            rw (eq now, on now)
              (record_crossing-IsNumbered race d (extract_cu_timestamp e) time e.timestamp_iso s v)
      ]
    ]

    -- In a state whose laps are numbered, a lap event of a car 1 to 6 that drives in the running
    -- active race, with a positive lap time and a timestamp not recorded for the car, adds exactly
    -- one lap row, which has the number after the laps of the car, whatever number the event has,
    -- the driver of the race and the time of the event.
    pub record_lap_appends :
        (e : TelemetryEvent F) (s : App F) (k c n time : ℕ) (cu : Option ℕ) (race : Race)
        (d : Driver)
        → IsNumbered s.db
        → s.active ≡ some k
        → get_race s.db k ≡ some race
        → race.status ≡ running
        → find_driver c race.drivers ≡ some d
        → e.car_id ≡ some c
        → e.payload ≡ Payload.lap n time cu
        → 1 ≤ time
        → 1 ≤ c
        → c ≤ 6
        → has_identity k c (extract_cu_timestamp e) s.db.identities ≡ false
        → (record_lap cfg env now e s).db.laps
          ≡ s.db.laps ++ lap_row k d (count_laps k c s.db.laps + 1) time e.timestamp_iso ∷ []
    unfolding record_lap lap_of_race
    record_lap_appends e s k c n time cu race d v a found runs driver car lap positive lo hi new =
        let own = get_race-id s.db k race found in
        let its = find_driver-car c race.drivers d driver in
        ground (
          arith,
          crossing_laps race d (extract_cu_timestamp e) time e.timestamp_iso s v
              (accepts-driver s.db k c (extract_cu_timestamp e) race d e.timestamp_iso time now own
                its lo hi new)
              positive,
        )
