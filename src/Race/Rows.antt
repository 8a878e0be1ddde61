-- ===== src/Race/Rows.antt =====
-- Looking up a race row after the writes of the repository and the service.
use carrera_monitor.Prelude.{
  ℕ, ◌≡◌, refl, ◌∙◌, Option, none, some, List, [], ◌∷◌, ◌++◌, ◌==◌, if◌then◌else◌, arith,
  Option-cases, inl, inr,
}
use carrera_monitor.Race.Model.{Race, Driver, RaceStatus, Method, TriggeredBy, Database}
use carrera_monitor.Race.Repository.{
  find_race, find_driver, put_race, without_race, clear_source, get_race, save_race, delete_race,
  create_race, add_event,
}
use carrera_monitor.Race.App.{RaceManagementConfig}
use carrera_monitor.Race.Lifecycle.{log_method}

-- A row with the key of another replaces it, if it is there.
abbrev pub replaced : Race → Option Race → Option Race
replaced r none = none
replaced r (some _) = some r

pub find_race-put_race :
    (j : ℕ) (r : Race) (rs : List Race)
    → find_race j (put_race r rs)
      ≡ (if r.id == j then replaced r (find_race j rs) else find_race j rs)
unfolding find_race put_race
find_race-put_race j r [] = ground arith
find_race-put_race j r (q ∷ rs) = ground (arith, find_race-put_race j r rs)

pub find_race-id : (j : ℕ) (r : Race) (rs : List Race) → find_race j rs ≡ some r → r.id ≡ j
unfolding find_race
find_race-id j r [] h = cc
find_race-id j r (q ∷ rs) h = ground (arith, find_race-id j r rs)

abbrev pub or_else : Option Race → Option Race → Option Race
or_else (some r) q = some r
or_else none q = q

pub find_race-append :
    (j : ℕ) (r : Race) (rs : List Race)
    → find_race j (rs ++ r ∷ []) ≡ or_else (find_race j rs) (if r.id == j then some r else none)
unfolding find_race
find_race-append j r [] = refl
find_race-append j r (q ∷ rs) = ground (arith, find_race-append j r rs)

-- The status that is stored for a race.
abbrev pub status_in : Option Race → Option RaceStatus
status_in none = none
status_in (some r) = some r.status

pub status-without :
    (j k : ℕ) (rs : List Race)
    → find_race j (without_race k rs) ≡ (if k == j then none else find_race j rs)
unfolding find_race without_race
status-without j k [] = ground arith
status-without j k (q ∷ rs) = ground (arith, status-without j k rs)

pub status-clear :
    (j k : ℕ) (rs : List Race)
    → status_in (find_race j (clear_source k rs)) ≡ status_in (find_race j rs)
unfolding find_race clear_source
status-clear j k [] = refl
status-clear j k (q ∷ rs) = ground (arith, status-clear j k rs)

pub find_driver-car :
    (c : ℕ) (ds : List Driver) (d : Driver) → find_driver c ds ≡ some d → d.car_id ≡ c
unfolding find_driver
find_driver-car c [] d h = cc
find_driver-car c (e ∷ ds) d h = ground (arith, find_driver-car c ds d)

module _ {F : Type 0} where
  unfoldable pub status_of : Database F → ℕ → Option RaceStatus
  status_of db j = status_in (get_race db j)

  pub races-log_method :
      (cfg : RaceManagementConfig) (now k : ℕ) (m : Method) (by : Option TriggeredBy)
      (db : Database F)
      → (log_method cfg now k m by db).races ≡ db.races
  unfolding log_method add_event
  races-log_method cfg now k m by db = ground arith

  pub status-save_race :
      (db : Database F) (j : ℕ) (r : Race) {q : Race}
      → get_race db r.id ≡ some q
      → status_of (save_race db r) j ≡ (if r.id == j then some r.status else status_of db j)
  unfolding status_of get_race save_race
  status-save_race db j r h = ground (arith, find_race-put_race j r db.races)

  pub status-delete_race :
      (db : Database F) (j k : ℕ)
      → status_of (delete_race db k) j ≡ (if k == j then none else status_of db j)
  unfolding status_of get_race delete_race
  status-delete_race db j k =
      ground (arith, status-clear j k (without_race k db.races), status-without j k db.races)

  pub status-create_race :
      (db : Database F) (j : ℕ) (r : Race)
      → get_race db r.id ≡ none
      → status_of (create_race db r) j ≡ (if r.id == j then some r.status else status_of db j)
  unfolding status_of get_race create_race
  status-create_race db j r h = ground (arith, find_race-append j r db.races)

  pub get_race-id : (db : Database F) (k : ℕ) (r : Race) → get_race db k ≡ some r → r.id ≡ k
  unfolding get_race
  get_race-id db k r h = find_race-id k r db.races h

  pub status-same_races :
      (a b : Database F) (j : ℕ) → a.races ≡ b.races → status_of a j ≡ status_of b j
  unfolding status_of get_race
  status-same_races a b j h = rw h

  -- The status of every race after a race's row is written and the write is logged.
  pub status-written :
      (cfg : RaceManagementConfig) (now k : ℕ) (m : Method) (by : Option TriggeredBy)
      (db : Database F) (j : ℕ) (r : Race) {q : Race}
      → r.id ≡ k
      → get_race db k ≡ some q
      → status_of (log_method cfg now k m by (save_race db r)) j
        ≡ (if k == j then some r.status else status_of db j)
  status-written cfg now k m by db j r {q} i h =
      status-same_races (log_method cfg now k m by (save_race db r)) (save_race db r) j
        (races-log_method cfg now k m by (save_race db r))
      ∙ rw (← i) (status-save_race db j r {q = q} (rw i h))

  pub status-found :
      (db : Database F) (k : ℕ) (r : Race) → get_race db k ≡ some r → status_of db k ≡ some r.status
  unfolding status_of
  status-found db k r h = rw h

  pub status-missing : (db : Database F) (k : ℕ) → get_race db k ≡ none → status_of db k ≡ none
  unfolding status_of
  status-missing db k h = rw h

  pub status-inversion :
      (db : Database F) (k : ℕ) (st : RaceStatus)
      → status_of db k ≡ some st
      → (r : Race) × (get_race db k ≡ some r) × (r.status ≡ st)
  unfolding status_of
  status-inversion db k st h = elim (Option-cases (get_race db k)) [
    | inl e ↦ absurd (ground arith)
    | inr (r, e) ↦ (r, e, ground arith)
  ]
