-- ===== src/Race/Crossing.antt =====
-- What `record_lap` does with a crossing of the start line: it is a duplicate, or its writes are
-- rolled back, or the lap and the checkpoint are written.
use carrera_monitor.Prelude.{
  ℕ, [], ◌∷◌, ◌++◌, true, false, ◌≡◌, refl, ◌∙◌, ◌⊎◌, inl, inr, Option, none, some, arith,
  Option-cases, Bool-cases,
}
use carrera_monitor.Race.Model.{Race, Driver, Database, Identity, running}
use carrera_monitor.Event.{TelemetryEvent, lap_time_ms}
use carrera_monitor.Race.Repository.{
  accepts_identity, insert_identity, insert_lap_identity_if_new, upsert_lap_checkpoint, add_lap,
  get_race, find_driver, same_status,
}
use carrera_monitor.Race.App.{App, RaceManagementConfig}
use carrera_monitor.Race.Reporting.{FloatEnv}
use carrera_monitor.Race.Ingest.{
  seed_from_existing_laps, ensure_checkpoint, write_lap, finish_after, record_crossing, lap_of_race,
  record_lap, extract_cu_timestamp, next_number,
}

module _ {F : Type 0} where
  races-ensure_checkpoint :
      (now : ℕ) (db : Database F) (k c : ℕ) → (ensure_checkpoint now db k c).races ≡ db.races
  unfolding ensure_checkpoint seed_from_existing_laps upsert_lap_checkpoint
  races-ensure_checkpoint now db k c = ground arith

  races-write_lap :
      (now k : ℕ) (d : Driver) (cu time stamp : ℕ) (db db' : Database F)
      → write_lap now k d cu time stamp db ≡ some db'
      → db'.races ≡ db.races
  unfolding write_lap next_number upsert_lap_checkpoint add_lap
  races-write_lap now k d cu time stamp db db' h = ground arith

  identities-ensure_checkpoint :
      (now : ℕ) (db : Database F) (k c : ℕ)
      → (ensure_checkpoint now db k c).identities ≡ db.identities
  unfolding ensure_checkpoint seed_from_existing_laps upsert_lap_checkpoint
  identities-ensure_checkpoint now db k c = ground arith

  identities-write_lap :
      (now k : ℕ) (d : Driver) (cu time stamp : ℕ) (db db' : Database F)
      → write_lap now k d cu time stamp db ≡ some db'
      → db'.identities ≡ db.identities
  unfolding write_lap next_number upsert_lap_checkpoint add_lap
  identities-write_lap now k d cu time stamp db db' h = ground arith

  module _ (now : ℕ) (race : Race) (d : Driver) (cu time stamp : ℕ) (db : Database F) where
    abbrev pub crossing : Identity
    crossing = record { race_id = race.id; car_id = d.car_id; cu_timestamp_ms = cu }

    -- The writes of a new crossing.
    abbrev pub stored : Option (Database F)
    stored =
        write_lap now race.id d cu time stamp
          (ensure_checkpoint now (insert_identity db crossing) race.id d.car_id)

    pub crossing_races : (db' : Database F) → stored ≡ some db' → db'.races ≡ db.races
    unfolding insert_identity
    crossing_races db' h =
        races-write_lap now race.id d cu time stamp _ db' h
        ∙ races-ensure_checkpoint now (insert_identity db crossing) race.id d.car_id

    pub crossing_identities :
        (db' : Database F) → stored ≡ some db' → db'.identities ≡ db.identities ++ crossing ∷ []
    unfolding insert_identity
    crossing_identities db' h =
        identities-write_lap now race.id d cu time stamp _ db' h
        ∙ identities-ensure_checkpoint now (insert_identity db crossing) race.id d.car_id

  module _ (cfg : RaceManagementConfig) (env : FloatEnv) (now : ℕ) (race : Race) (d : Driver)
      (cu time stamp : ℕ) (s : App F) where
    pub crossing_cases :
        ((accepts_identity s.db (crossing now race d cu time stamp s.db) ≡ false)
            × (record_crossing cfg env now race d cu time stamp s ≡ s)
          ⊎ (accepts_identity s.db (crossing now race d cu time stamp s.db) ≡ true)
            × (stored now race d cu time stamp s.db ≡ none)
            × (record_crossing cfg env now race d cu time stamp s ≡ s))
        ⊎ ((db' : Database F) × (accepts_identity s.db (crossing now race d cu time stamp s.db)
              ≡ true)
            × (stored now race d cu time stamp s.db ≡ some db')
            × (record_crossing cfg env now race d cu time stamp s
                ≡ finish_after cfg env now race (record s { db = db' })))
    unfolding record_crossing insert_lap_identity_if_new
    crossing_cases =
        elim (Bool-cases (accepts_identity s.db (crossing now race d cu time stamp s.db))) [
          | inr old ↦ inl (inl (old, rw old))
          | inl new ↦ elim (Option-cases (stored now race d cu time stamp s.db)) [
            | inl failed ↦ inl (inr (new, failed, rw new (rw (failed, record_crossing) refl)))
            | inr (db', wrote) ↦ inr (db', new, wrote, rw new (rw (wrote, record_crossing) refl))
          ]
        ]

  module _ (cfg : RaceManagementConfig) (env : FloatEnv) (k c time : ℕ) (e : TelemetryEvent F)
      (s : App F) where
    abbrev pub ingested : ℕ → App F
    ingested now = lap_of_race cfg env now k c time e s

    abbrev pub crossed : ℕ → Race → Driver → App F
    crossed now race d =
        record_crossing cfg env now race d (extract_cu_timestamp e) time e.timestamp_iso s

    -- The race is gone, or the lap does not count, or it is a crossing by a driver of a running race.
    pub lap_cases :
        ((get_race s.db k ≡ none) × ((now : ℕ) → ingested now ≡ record s { active = none })
          ⊎ ((now : ℕ) → ingested now ≡ s))
        ⊎ ((race : Race) × (d : Driver) × (get_race s.db k ≡ some race)
            × (race.status ≡ running)
            × (find_driver c race.drivers ≡ some d)
            × ((now : ℕ) → ingested now ≡ crossed now race d))
    unfolding lap_of_race
    lap_cases = elim (Option-cases (get_race s.db k)) [
      | inl gone ↦ inl (inl (gone, λ now. ground arith))
      | inr (race, found) ↦ elim (Option-cases (find_driver c race.drivers)) [
        | inl unknown ↦ inl (inr (λ now. ground arith))
        | inr (d, driver) ↦ elim (Bool-cases (same_status race.status running)) [
          | inl runs ↦ inr (race, d, found, ground arith, driver, λ now. ground arith)
          | inr idle ↦ inl (inr (λ now. ground arith))
        ]
      ]
    ]

  module _ (cfg : RaceManagementConfig) (env : FloatEnv) (e : TelemetryEvent F) (s : App F) where
    -- The event is for a lap of a car while a race is active, or nothing happens.
    pub record_lap_cases :
        ((now : ℕ) → record_lap cfg env now e s ≡ s)
        ⊎ ((k : ℕ) × (c : ℕ) × (time : ℕ) × (s.active ≡ some k)
            × (e.car_id ≡ some c)
            × (lap_time_ms e.payload ≡ some time)
            × ((now : ℕ) → record_lap cfg env now e s ≡ lap_of_race cfg env now k c time e s))
    unfolding record_lap
    record_lap_cases = elim (Option-cases s.active) [
      | inl idle ↦ inl (λ now. ground arith)
      | inr (k, a) ↦ elim (Option-cases (lap_time_ms e.payload)) [
        | inl other ↦ inl (λ now. ground arith)
        | inr (time, t) ↦ elim (Option-cases e.car_id) [
          | inl no_car ↦ inl (λ now. ground arith)
          | inr (c, car) ↦ inr (k, c, time, a, car, t, λ now. ground arith)
        ]
      ]
    ]
