-- ===== src/Race/Standings.antt =====
-- The order of the final standings.
mod Tests
use carrera_monitor.Prelude.{
  ℕ, suc, Bool, true, false, ◌≡◌, refl, ap, All, List, [], ◌∷◌, map, ltb, leb, if◌then◌else◌, arith,
  Bool-cases, inl, inr,
}
use mathlib.Core.List.{Perm}
use mathlib.Core.List.Perm
use carrera_monitor.Prelude.Sort.{sort_by, IsSortedBy, sort_by-IsSortedBy, sort_by-perm}
use carrera_monitor.Race.Model.{DriverStats, StandingsRow}
use carrera_monitor.Race.Reporting.{
  ranks_before, key, or_large, standings, rows_from, rank_all, standings_row, no_laps,
}

-- Pairs whose first numbers decide, and otherwise what follows.
abbrev first_then : ℕ → ℕ → Bool → Bool
first_then n m rest = if ltb n m then true else if ltb m n then false else rest

first_then_total :
    (n m : ℕ) (r r' : Bool)
    → (r ≡ false → r' ≡ true)
    → first_then n m r ≡ false
    → first_then m n r' ≡ true
first_then_total n m r r' h f = ground arith

first_then_trans :
    (n m k : ℕ) (r r' r'' : Bool)
    → (r ≡ true → r' ≡ true → r'' ≡ true)
    → first_then n m r ≡ true
    → first_then m k r' ≡ true
    → first_then n k r'' ≡ true
first_then_trans n m k r r' r'' h f g = ground arith

-- `first_then` with the larger number first.
first_then_trans' :
    (n m k : ℕ) (r r' r'' : Bool)
    → (r ≡ true → r' ≡ true → r'' ≡ true)
    → first_then m n r ≡ true
    → first_then k m r' ≡ true
    → first_then k n r'' ≡ true
first_then_trans' n m k r r' r'' h f g = ground arith

ranks_before_total : (a b : ℕ × ℕ × ℕ × ℕ) → ranks_before a b ≡ false → ranks_before b a ≡ true
unfolding ranks_before
ranks_before_total (n, t, b, c) (n', t', b', c') =
    first_then_total n' n _ _
      (first_then_total t t' _ _ (first_then_total b b' _ _ (λ e. ground arith)))

ranks_before_trans :
    (a b c : ℕ × ℕ × ℕ × ℕ)
    → ranks_before a b ≡ true
    → ranks_before b c ≡ true
    → ranks_before a c ≡ true
unfolding ranks_before
ranks_before_trans (n, t, b, c) (n', t', b', c') (n'', t'', b'', c'') =
    first_then_trans' n n' n'' _ _ _
      (first_then_trans t t' t'' _ _ _ (first_then_trans b b' b'' _ _ _ (λ e f. ground arith)))

-- The order of the rows: more laps, then less time, then the better best lap, then the lower car
-- number; a time that is missing counts as larger than all others.
abbrev pub row_key : StandingsRow → ℕ × ℕ × ℕ × ℕ
row_key r = (r.lap_count, or_large r.total_race_time_ms, or_large r.best_lap_ms, r.car_id)

abbrev pub places_before : StandingsRow → StandingsRow → Bool
places_before r r' = ranks_before (row_key r) (row_key r')

abbrev stats_before : DriverStats → DriverStats → Bool
stats_before s s' = ranks_before (key s) (key s')

row_key-standings_row :
    (leader s : DriverStats) (pos : ℕ) → row_key (standings_row leader pos s) ≡ key s
unfolding standings_row
row_key-standings_row leader s pos = refl

rows_from-All :
    (leader s : DriverStats) (n pos : ℕ) (ss : List DriverStats)
    → All (λ s'. stats_before s s' ≡ true) ss
    → All (λ r. places_before (standings_row leader n s) r ≡ true) (rows_from leader pos ss)
unfolding rows_from
rows_from-All leader s n pos [] a = tt
rows_from-All leader s n pos (s' ∷ ss) (h, a) = (h, rows_from-All leader s n (suc pos) ss a)

rows_from-IsSortedBy :
    (leader : DriverStats) (pos : ℕ) (ss : List DriverStats)
    → IsSortedBy stats_before ss
    → IsSortedBy places_before (rows_from leader pos ss)
unfolding rows_from
rows_from-IsSortedBy leader pos [] s = tt
rows_from-IsSortedBy leader pos (x ∷ xs) (a, s) =
    (rows_from-All leader x pos (suc pos) xs a, rows_from-IsSortedBy leader (suc pos) xs s)

-- The numbers from one on, as many as there are elements.
abbrev pub count_from {ℓ} : {A : Type ℓ} → ℕ → List A → List ℕ
count_from n [] = []
count_from n (x ∷ xs) = n ∷ count_from (suc n) xs

rows_from-positions :
    (leader : DriverStats) (pos : ℕ) (ss : List DriverStats)
    → map (λ r. r.position) (rows_from leader pos ss) ≡ count_from pos (rows_from leader pos ss)
unfolding rows_from standings_row
rows_from-positions leader pos [] = refl
rows_from-positions leader pos (s ∷ ss) = ap (pos ∷◌) (rows_from-positions leader (suc pos) ss)

rows_from-cars :
    (leader : DriverStats) (pos : ℕ) (ss : List DriverStats)
    → map (λ r. r.car_id) (rows_from leader pos ss) ≡ map (λ s. s.car_id) ss
unfolding rows_from standings_row
rows_from-cars leader pos [] = refl
rows_from-cars leader pos (s ∷ ss) = ap (s.car_id ∷◌) (rows_from-cars leader (suc pos) ss)

rank_all-IsSortedBy :
    (ss : List DriverStats) → IsSortedBy stats_before ss → IsSortedBy places_before (rank_all ss)
unfolding rank_all
rank_all-IsSortedBy [] s = tt
rank_all-IsSortedBy (x ∷ xs) s = rows_from-IsSortedBy x 1 (x ∷ xs) s

rank_all-positions :
    (ss : List DriverStats) → map (λ r. r.position) (rank_all ss) ≡ count_from 1 (rank_all ss)
unfolding rank_all
rank_all-positions [] = refl
rank_all-positions (x ∷ xs) = rows_from-positions x 1 (x ∷ xs)

rank_all-cars : (ss : List DriverStats) → map (λ r. r.car_id) (rank_all ss) ≡ map (λ s. s.car_id) ss
unfolding rank_all
rank_all-cars [] = refl
rank_all-cars (x ∷ xs) = rows_from-cars x 1 (x ∷ xs)

Perm-map :
    (xs ys : List DriverStats) → Perm xs ys → Perm (map (λ s. s.car_id) xs) (map (λ s. s.car_id) ys)
Perm-map xs ys p = Perm.map (λ s. s.car_id) p

ranked-IsSortedBy :
    (stats : List DriverStats) → IsSortedBy stats_before (sort_by stats_before stats)
ranked-IsSortedBy =
    sort_by-IsSortedBy stats_before (λ a b. ranks_before_total (key a) (key b))
      (λ a b c. ranks_before_trans (key a) (key b) (key c))

-- The rows of the standings of any statistics are in the order of more laps, then less total time,
-- then the better best lap, then the lower car number, and their positions count from one.
pub standings_ranked :
    (stats : List DriverStats)
    → IsSortedBy places_before (standings stats)
      × (map (λ r. r.position) (standings stats) ≡ count_from 1 (standings stats))
unfolding standings
standings_ranked stats = elim (Bool-cases (no_laps stats)) [
  | inl empty ↦ rw (empty) ((tt, refl))
  | inr some_laps ↦ rw (some_laps) (
      (
        rank_all-IsSortedBy (sort_by stats_before stats) (ranked-IsSortedBy stats),
        rank_all-positions (sort_by stats_before stats),
      ))
]

-- Where some driver has a lap, the standings have one row for each of the drivers' statistics, and
-- the rows have their cars.
pub standings_complete :
    (stats : List DriverStats)
    → no_laps stats ≡ false
    → Perm (map (λ r. r.car_id) (standings stats)) (map (λ s. s.car_id) stats)
unfolding standings
standings_complete stats h =
    rw (h, rank_all-cars (sort_by stats_before stats))
      (Perm-map (sort_by stats_before stats) stats (sort_by-perm stats_before stats))
