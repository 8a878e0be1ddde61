-- ===== src/Race/Reporting.antt =====
-- services/reporting_service.py: statistics and standings, read from the lap table. What the
-- service computes in floats, the rounded average of `count` laps that sum to `total` and the
-- milliseconds between two times, is the argument `env`.
use carrera_monitor.Prelude.{
  ℕ, suc, ◌+◌, Bool, true, false, ◌&&◌, Option, none, some, List, [], ◌∷◌, map, length, ltb, leb,
  ◌==◌, if◌then◌else◌,
}
use carrera_monitor.Prelude.Int.{ℤ, sub_ℕ}
use carrera_monitor.Prelude.Sort.{sort_by}
use carrera_monitor.Race.Model.{
  Driver, Lap, DriverStats, StandingsRow, RaceSummary, ReportType, Database,
}
use mathlib.Core.Option
use carrera_monitor.Race.Repository.{keep, get_race, add_report, to_read}

pub record FloatEnv : Type 0 where
  pub round_average : ℕ → ℕ → ℕ
  pub elapsed_ms : ℕ → ℕ → ℤ

-- The laps of one group of `GROUP BY car_id`.
unfoldable pub car_laps : ℕ → ℕ → List Lap → List Lap
unfolding keep
car_laps k c = keep (λ l. l.race_id == k && l.car_id == c)

-- `MIN(lap_time_ms)`, `SUM(lap_time_ms)` and `MAX(lap_number)`.
unfoldable pub min_time : List Lap → Option ℕ
min_time [] = none
min_time (l ∷ ls) = elim (min_time ls) [
  | none ↦ some l.lap_time_ms
  | some m ↦ some (if ltb m l.lap_time_ms then m else l.lap_time_ms)
]

unfoldable pub sum_time : List Lap → ℕ
sum_time [] = 0
sum_time (l ∷ ls) = l.lap_time_ms + sum_time ls

unfoldable pub max_number : List Lap → ℕ
max_number [] = 0
max_number (l ∷ ls) = let m = max_number ls in if ltb m l.lap_number then l.lap_number else m

-- The time of the lap that has a given number.
unfoldable pub time_at : ℕ → List Lap → Option ℕ
time_at n [] = none
time_at n (l ∷ ls) = if l.lap_number == n then some l.lap_time_ms else time_at n ls

-- An aggregate of the rows of a car: `none` where the car has no group.
abbrev pub over {ℓ} : {A : Type ℓ} → List Lap → A → Option A
over [] a = none
over (l ∷ ls) a = some a

unfoldable pub stats_of : FloatEnv → Driver → List Lap → DriverStats
unfolding min_time sum_time max_number time_at
stats_of env d ls = record {
  car_id = d.car_id;
  driver_name = d.driver_name;
  total_laps = length ls;
  best_lap_ms = min_time ls;
  average_lap_ms = over ls (env.round_average (sum_time ls) (length ls));
  last_lap_ms = time_at (max_number ls) ls;
  total_race_time_ms = over ls (sum_time ls);
}

unfoldable pub driver_stats : {F : Type 0} → FloatEnv → Database F → ℕ → Option (List DriverStats)
unfolding stats_of car_laps get_race
driver_stats env db k =
    Option.map
      (λ race.
        map (λ d. stats_of env d (car_laps k d.car_id db.laps))
          (sort_by (λ a b. leb a.car_id b.car_id) race.drivers))
      (get_race db k)

-- `1 << 62` for a missing time.
abbrev pub or_large : Option ℕ → ℕ
or_large none = 4611686018427387904
or_large (some n) = n

abbrev pub key : DriverStats → ℕ × ℕ × ℕ × ℕ
key s = (s.total_laps, or_large s.total_race_time_ms, or_large s.best_lap_ms, s.car_id)

-- The order of the sort keys `(-total_laps, total time, best lap, car_id)`, as tuples compare.
unfoldable pub ranks_before : ℕ × ℕ × ℕ × ℕ → ℕ × ℕ × ℕ × ℕ → Bool
ranks_before (n, t, b, c) (n', t', b', c') =
    if ltb n' n
    then true
    else if ltb n n'
    then false
    else if ltb t t'
    then true
    else if ltb t' t
    then false
    else if ltb b b'
    then true
    else if ltb b' b
    then false
    else leb c c'

unfoldable pub gap_of : DriverStats → DriverStats → Option ℤ
gap_of leader s =
    if leader.total_laps == s.total_laps
    then (elim leader.total_race_time_ms [
      | none ↦ none
      | some t0 ↦ elim s.total_race_time_ms [ none ↦ none | some t ↦ some (sub_ℕ t t0) ]
    ])
    else none

unfoldable pub standings_row : DriverStats → ℕ → DriverStats → StandingsRow
unfolding gap_of
standings_row leader pos s = record {
  position = pos;
  car_id = s.car_id;
  driver_name = s.driver_name;
  lap_count = s.total_laps;
  best_lap_ms = s.best_lap_ms;
  total_race_time_ms = s.total_race_time_ms;
  gap_to_leader_ms = gap_of leader s;
  laps_behind = sub_ℕ leader.total_laps s.total_laps;
}

-- `enumerate(ranked, start=1)`
unfoldable pub rows_from : DriverStats → ℕ → List DriverStats → List StandingsRow
unfolding standings_row
rows_from leader pos [] = []
rows_from leader pos (s ∷ ss) = standings_row leader pos s ∷ rows_from leader (suc pos) ss

unfoldable pub no_laps : List DriverStats → Bool
no_laps [] = true
no_laps (s ∷ ss) = s.total_laps == 0 && no_laps ss

unfoldable pub rank_all : List DriverStats → List StandingsRow
unfolding rows_from
rank_all [] = []
rank_all (leader ∷ rest) = rows_from leader 1 (leader ∷ rest)

unfoldable pub standings : List DriverStats → List StandingsRow
unfolding ranks_before no_laps rank_all
standings stats =
    if no_laps stats then [] else rank_all (sort_by (λ a b. ranks_before (key a) (key b)) stats)

unfoldable pub final_standings :
    {F : Type 0} → FloatEnv → Database F → ℕ → Option (List StandingsRow)
unfolding standings driver_stats
final_standings env db k = Option.map standings (driver_stats env db k)

abbrev or_now : Option ℕ → ℕ → ℕ
or_now none now = now
or_now (some t) now = t

unfoldable pub race_summary : {F : Type 0} → FloatEnv → ℕ → Database F → ℕ → Option RaceSummary
unfolding driver_stats final_standings
race_summary env now db k = elim (get_race db k) [
  | none ↦ none
  | some race ↦ elim (driver_stats env db k) [
    | none ↦ none
    | some drivers ↦
        Option.map
          (λ rows. record {
            race = to_read race;
            duration_ms =
                Option.map (λ t. env.elapsed_ms t (or_now race.finished_at now)) race.started_at;
            drivers = drivers;
            standings = rows;
          })
          (final_standings env db k)
  ]
]

unfoldable pub save_report : {F : Type 0} → ℕ → Database F → ℕ → RaceSummary → Option (Database F)
save_report now db k s =
    Option.map
      (λ race. add_report db (record {
        race_id = k;
        report_type = ReportType.race_summary;
        payload = s;
        created_at = now;
      }))
      (get_race db k)
