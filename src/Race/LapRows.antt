-- ===== src/Race/LapRows.antt =====
-- Reading the lap table, the checkpoints and the lap identities after a write.
use carrera_monitor.Prelude.{
  ℕ, suc, false, not, ◌&&◌, ◌||◌, ◌≡◌, none, some, List, [], ◌∷◌, ◌++◌, ◌==◌, if◌then◌else◌, arith,
}
use carrera_monitor.Race.Model.{Lap, Checkpoint, Identity}
use carrera_monitor.Race.Repository.{
  has_lap, count_laps, find_checkpoint, put_checkpoint, has_identity, keep,
}

pub has_lap-append :
    (k c n : ℕ) (l : Lap) (ls : List Lap)
    → has_lap k c n (ls ++ l ∷ [])
      ≡ (has_lap k c n ls || (l.race_id == k && l.car_id == c && l.lap_number == n))
unfolding has_lap
has_lap-append k c n l [] = ground arith
has_lap-append k c n l (q ∷ ls) = ground (arith, has_lap-append k c n l ls)

pub count_laps-append :
    (k c : ℕ) (l : Lap) (ls : List Lap)
    → count_laps k c (ls ++ l ∷ [])
      ≡ (if l.race_id == k && l.car_id == c then suc (count_laps k c ls) else count_laps k c ls)
unfolding count_laps
count_laps-append k c l [] = ground arith
count_laps-append k c l (q ∷ ls) = ground (arith, count_laps-append k c l ls)

pub has_lap-delete :
    (j k c n : ℕ) (ls : List Lap)
    → has_lap k c n (keep (λ l. not (l.race_id == j)) ls)
      ≡ (if j == k then false else has_lap k c n ls)
unfolding has_lap keep
has_lap-delete j k c n [] = ground arith
has_lap-delete j k c n (q ∷ ls) = ground (arith, has_lap-delete j k c n ls)

pub count_laps-delete :
    (j k c : ℕ) (ls : List Lap)
    → count_laps k c (keep (λ l. not (l.race_id == j)) ls)
      ≡ (if j == k then 0 else count_laps k c ls)
unfolding count_laps keep
count_laps-delete j k c [] = ground arith
count_laps-delete j k c (q ∷ ls) = ground (arith, count_laps-delete j k c ls)

pub find_checkpoint-put :
    (k c : ℕ) (p : Checkpoint) (ps : List Checkpoint)
    → find_checkpoint k c (put_checkpoint p ps)
      ≡ (if p.race_id == k && p.car_id == c then some p else find_checkpoint k c ps)
unfolding find_checkpoint put_checkpoint
find_checkpoint-put k c p [] = ground arith
find_checkpoint-put k c p (q ∷ ps) = ground (arith, find_checkpoint-put k c p ps)

pub find_checkpoint-delete :
    (j k c : ℕ) (ps : List Checkpoint)
    → find_checkpoint k c (keep (λ p. not (p.race_id == j)) ps)
      ≡ (if j == k then none else find_checkpoint k c ps)
unfolding find_checkpoint keep
find_checkpoint-delete j k c [] = ground arith
find_checkpoint-delete j k c (q ∷ ps) = ground (arith, find_checkpoint-delete j k c ps)

pub has_identity-append :
    (k c t : ℕ) (i : Identity) (is : List Identity)
    → has_identity k c t (is ++ i ∷ [])
      ≡ (has_identity k c t is || (i.race_id == k && i.car_id == c && i.cu_timestamp_ms == t))
unfolding has_identity
has_identity-append k c t i [] = ground arith
has_identity-append k c t i (q ∷ is) = ground (arith, has_identity-append k c t i is)
