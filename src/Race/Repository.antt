-- ===== src/Race/Repository.antt =====
-- repositories/race_repository.py, and the constraints that models.py declares. A statement that
-- the database would refuse with `IntegrityError` returns `none`.
use carrera_monitor.Prelude.{
  ℕ, suc, Bool, true, false, not, ◌&&◌, ◌||◌, Option, none, some, List, [], ◌∷◌, ◌++◌, ltb, leb,
  ◌==◌, if◌then◌else◌, take, drop,
}
use Prim.Native.String.{String}
use Prim.Native.Char.{code}
use carrera_monitor.Prelude.Sort.{sort_by}
use carrera_monitor.Race.Model.{
  Driver, Race, RaceStatus, draft, ready, running, paused, finished, cancelled, Lap, Checkpoint,
  Identity, EventRow, RowType, Report, Database, safety_car_started, safety_car_ended,
}

-- Rows of `races`, by their primary key.
unfoldable pub find_race : ℕ → List Race → Option Race
find_race k [] = none
find_race k (r ∷ rs) = if r.id == k then some r else find_race k rs

unfoldable pub put_race : Race → List Race → List Race
put_race r [] = []
put_race r (q ∷ rs) = if q.id == r.id then r ∷ put_race r rs else q ∷ put_race r rs

unfoldable pub without_race : ℕ → List Race → List Race
without_race k [] = []
without_race k (r ∷ rs) = let rest = without_race k rs in if r.id == k then rest else r ∷ rest

-- The rows that a predicate keeps.
unfoldable pub keep {ℓ} : {A : Type ℓ} → (A → Bool) → List A → List A
keep p [] = []
keep p (x ∷ xs) = let rest = keep p xs in if p x then x ∷ rest else rest

unfoldable pub find_checkpoint : ℕ → ℕ → List Checkpoint → Option Checkpoint
find_checkpoint k c [] = none
find_checkpoint k c (p ∷ ps) =
    if p.race_id == k && p.car_id == c then some p else find_checkpoint k c ps

unfoldable pub put_checkpoint : Checkpoint → List Checkpoint → List Checkpoint
put_checkpoint r [] = r ∷ []
put_checkpoint r (p ∷ ps) =
    if p.race_id == r.race_id && p.car_id == r.car_id then r ∷ ps else p ∷ put_checkpoint r ps

unfoldable pub has_identity : ℕ → ℕ → ℕ → List Identity → Bool
has_identity k c t [] = false
has_identity k c t (i ∷ is) =
    i.race_id == k && i.car_id == c && i.cu_timestamp_ms == t || has_identity k c t is

unfoldable pub has_lap : ℕ → ℕ → ℕ → List Lap → Bool
has_lap k c n [] = false
has_lap k c n (l ∷ ls) = l.race_id == k && l.car_id == c && l.lap_number == n || has_lap k c n ls

unfoldable pub count_laps : ℕ → ℕ → List Lap → ℕ
count_laps k c [] = 0
count_laps k c (l ∷ ls) =
    let rest = count_laps k c ls in if l.race_id == k && l.car_id == c then suc rest else rest

abbrev is_car : ℕ → Bool
is_car c = leb 1 c && leb c 6

-- `car_id IS NULL OR (car_id BETWEEN 1 AND 6)`
abbrev pub has_no_car_or_valid : Option ℕ → Bool
has_no_car_or_valid none = true
has_no_car_or_valid (some c) = is_car c

-- One more row for its car: the counting of `GROUP BY car_id`.
unfoldable pub bump : ℕ → List (ℕ × ℕ) → List (ℕ × ℕ)
bump c [] = (c, 1) ∷ []
bump c ((d, n) ∷ counts) = if d == c then (d, suc n) ∷ counts else (d, n) ∷ bump c counts

unfoldable pub count_by_car : ℕ → List Lap → List (ℕ × ℕ)
unfolding bump
count_by_car k [] = []
count_by_car k (l ∷ ls) =
    let rest = count_by_car k ls in if l.race_id == k then bump l.car_id rest else rest

-- `max(counts.values(), default=0)`
unfoldable pub max_count : List (ℕ × ℕ) → ℕ
max_count [] = 0
max_count ((c, n) ∷ counts) = let m = max_count counts in if ltb m n then n else m

-- The driver row of a car: `next((d for d in race.drivers if d.car_id == car_id), None)`.
unfoldable pub find_driver : ℕ → List Driver → Option Driver
find_driver c [] = none
find_driver c (d ∷ ds) = if d.car_id == c then some d else find_driver c ds

is_safety_car_row : RowType → Bool
is_safety_car_row safety_car_started = true
is_safety_car_row safety_car_ended = true
is_safety_car_row _ = false

-- `ON DELETE SET NULL` of `source_race_id`.
unfoldable pub clear_source : ℕ → List Race → List Race
clear_source k [] = []
clear_source k (r ∷ rs) =
    (elim r.source_race_id [
      | none ↦ r
      | some s ↦ if s == k then record r { source_race_id = none } else r
    ])
    ∷ clear_source k rs

abbrev pub same_status : RaceStatus → RaceStatus → Bool
same_status draft draft = true
same_status ready ready = true
same_status running running = true
same_status paused paused = true
same_status finished finished = true
same_status cancelled cancelled = true
same_status _ _ = false

abbrev pub has_status : Option RaceStatus → Race → Bool
has_status none r = true
has_status (some st) r = same_status r.status st

-- `race.status in {"running", "paused"}`
abbrev pub is_live : RaceStatus → Bool
is_live running = true
is_live paused = true
is_live _ = false

newest_first : Race → Race → Bool
newest_first a b =
    if ltb b.created_at a.created_at
    then true
    else if ltb a.created_at b.created_at
    then false
    else leb b.id a.id

-- `length(trim(name)) > 0`: SQLite's `trim` removes spaces.
unfoldable pub has_text : String → Bool
has_text String.[] = false
has_text (String.◌∷◌ c s) = not (code c == 32) || has_text s

unfoldable pub named_drivers : List Driver → Bool
unfolding has_text
named_drivers [] = true
named_drivers (d ∷ ds) = has_text d.driver_name && named_drivers ds

-- The checks on the names in `races` and `race_drivers`; a form that is valid meets the others.
unfoldable pub accepts_names : Race → Bool
unfolding has_text named_drivers
accepts_names r = has_text r.name && named_drivers r.drivers

module _ {F : Type 0} where
  unfoldable pub get_race : Database F → ℕ → Option Race
  get_race db k = find_race k db.races

  -- `ORDER BY created_at DESC, id DESC LIMIT limit OFFSET offset`, of the races with a status.
  unfoldable pub list_races : Database F → Option RaceStatus → ℕ → ℕ → List Race
  unfolding keep newest_first
  list_races db status limit offset =
      take limit (drop offset (sort_by newest_first (keep (has_status status) db.races)))

  -- `session.add(race)`: the key that the database gives the row is an argument.
  unfoldable pub create_race : Database F → Race → Database F
  create_race db r = record db { races = db.races ++ r ∷ [] }

  unfoldable pub save_race : Database F → Race → Database F
  save_race db r = record db { races = put_race r db.races }

  -- The foreign keys of every child table are `ON DELETE CASCADE`, and `source_race_id` is
  -- `ON DELETE SET NULL`.
  unfoldable pub delete_race : Database F → ℕ → Database F
  unfolding clear_source keep
  delete_race db k = record {
    races = clear_source k (without_race k db.races);
    laps = keep (λ l. not (l.race_id == k)) db.laps;
    checkpoints = keep (λ p. not (p.race_id == k)) db.checkpoints;
    identities = keep (λ i. not (i.race_id == k)) db.identities;
    events = keep (λ e. not (e.race_id == k)) db.events;
    reports = keep (λ r. not (r.race_id == k)) db.reports;
  }

  -- The checks on `race_laps`, and its unique key.
  unfoldable pub add_lap : Database F → Lap → Option (Database F)
  add_lap db l =
      if is_car l.car_id
        && leb 1 l.lap_number
        && leb 1 l.lap_time_ms
        && not (has_lap l.race_id l.car_id l.lap_number db.laps)
      then some (record db { laps = db.laps ++ l ∷ [] })
      else none

  -- The check on the car of an event. Only `record_event` passes a car, and it logs the error and
  -- rolls the session back: then the tables stay as they were.
  unfoldable pub add_event : Database F → EventRow F → Database F
  add_event db e =
      if has_no_car_or_valid e.car_id then record db { events = db.events ++ e ∷ [] } else db

  unfoldable pub add_report : Database F → Report → Database F
  add_report db r = record db { reports = db.reports ++ r ∷ [] }

  unfoldable pub lap_count_by_car : Database F → ℕ → List (ℕ × ℕ)
  lap_count_by_car db k = count_by_car k db.laps

  unfoldable pub count_laps_for_car : Database F → ℕ → ℕ → ℕ
  count_laps_for_car db k c = count_laps k c db.laps

  -- The safety-car row with the latest timestamp; of rows that tie, the one inserted last.
  newer : Option (EventRow F) → EventRow F → Option (EventRow F)
  newer none e = some e
  newer (some best) e = if leb best.timestamp_iso e.timestamp_iso then some e else some best

  latest_from : ℕ → Option (EventRow F) → List (EventRow F) → Option (EventRow F)
  latest_from k best [] = best
  latest_from k best (e ∷ es) =
      latest_from k
        (if e.race_id == k && is_safety_car_row e.event_type then newer best e else best) es

  unfoldable pub latest_event_type : Database F → ℕ → Option RowType
  unfolding latest_from newer is_safety_car_row
  latest_event_type db k = elim (latest_from k none db.events) [
    | none ↦ none
    | some e ↦ some e.event_type
  ]

  unfoldable pub get_lap_checkpoint : Database F → ℕ → ℕ → Option Checkpoint
  get_lap_checkpoint db k c = find_checkpoint k c db.checkpoints

  unfoldable pub upsert_lap_checkpoint : Database F → Checkpoint → Database F
  upsert_lap_checkpoint db p = record db { checkpoints = put_checkpoint p db.checkpoints }

  -- The check on the car, and the unique key.
  unfoldable pub accepts_identity : Database F → Identity → Bool
  accepts_identity db i =
      is_car i.car_id && not (has_identity i.race_id i.car_id i.cu_timestamp_ms db.identities)

  unfoldable pub insert_identity : Database F → Identity → Database F
  insert_identity db i = record db { identities = db.identities ++ i ∷ [] }

  -- `false` is the `IntegrityError` branch, whose savepoint is rolled back.
  unfoldable pub insert_lap_identity_if_new : Database F → Identity → Database F × Bool
  insert_lap_identity_if_new db i =
      if accepts_identity db i then (insert_identity db i, true) else (db, false)

-- `RaceRepository.to_read`: the row with its drivers in the order of their cars.
unfoldable pub to_read : Race → Race
to_read r = record r { drivers = sort_by (λ a b. leb a.car_id b.car_id) r.drivers }
