-- ===== src/Race/Standings/Tests.antt =====
-- The standings of three drivers, one of them without a lap.
use carrera_monitor.Prelude.{ℕ, String, ◌≡◌, refl, Option, none, some, List, [], ◌∷◌, map}
use mathlib.Core.List.{Perm}
use carrera_monitor.Prelude.Sort.{IsSortedBy, sort_by}
use carrera_monitor.Race.Model.{DriverStats}
use carrera_monitor.Race.Reporting.{
  standings, no_laps, rank_all, rows_from, standings_row, ranks_before,
}
use carrera_monitor.Race.Standings.{places_before, count_from, standings_ranked, standings_complete}

abbrev driver : ℕ → String → ℕ → Option ℕ → Option ℕ → DriverStats
driver c name laps best total = record {
  car_id = c;
  driver_name = name;
  total_laps = laps;
  best_lap_ms = best;
  average_lap_ms = best;
  last_lap_ms = best;
  total_race_time_ms = total;
}

abbrev field : List DriverStats
field =
    driver 1 "Ada" 2 (some 6400) (some 13000)
    ∷ driver 2 "Bob" 2 (some 6500) (some 12900)
    ∷ driver 3 "Eve" 0 none none
    ∷ []

-- Bob leads, since he took less time for as many laps.
order : map (λ r. r.car_id) (standings field) ≡ 2 ∷ 1 ∷ 3 ∷ []
unfolding standings sort_by rank_all rows_from standings_row no_laps ranks_before
order = refl

standings_ranked_example :
    IsSortedBy places_before (standings field)
    × (map (λ r. r.position) (standings field) ≡ count_from 1 (standings field))
standings_ranked_example = standings_ranked field

standings_complete_example : Perm (map (λ r. r.car_id) (standings field)) (1 ∷ 2 ∷ 3 ∷ [])
unfolding no_laps
standings_complete_example = standings_complete field refl
