-- ===== src/Race/Numbering.antt =====
-- The laps of each car of a race are numbered 1, 2, 3, … without a gap or a repetition, and the
-- checkpoint of the car holds their number.
pub mod Frame
pub mod Recorded
use carrera_monitor.Prelude.{
  ℕ, suc, ◌+◌, ◌≤◌, Bool, true, false, not, ◌&&◌, ◌||◌, ◌≡◌, refl, ap, sym, ◌∙◌, ◌⊎◌, inl, inr,
  Option, none, some, List, [], ◌∷◌, ◌++◌, leb, ◌==◌, if◌then◌else◌, arith, Option-cases,
  Bool-cases,
}
use carrera_monitor.Race.Model.{Race, Driver, Lap, Checkpoint, Identity, Database}
use carrera_monitor.Race.Repository.{
  has_lap, count_laps, find_checkpoint, accepts_identity, insert_identity, add_lap,
  upsert_lap_checkpoint, get_lap_checkpoint, count_laps_for_car,
}
use carrera_monitor.Race.Ingest.{
  seed_from_existing_laps, ensure_checkpoint, write_lap, seed_row, lap_row, checkpoint_row,
  next_number,
}
use carrera_monitor.Race.Crossing.{crossing, stored}
use carrera_monitor.Race.LapRows.{has_lap-append, count_laps-append, find_checkpoint-put}

module _ {F : Type 0} where
  pub record IsNumbered (db : Database F) : Type 0 where
    pub numbers : (k c n : ℕ) → has_lap k c n db.laps ≡ (leb 1 n && leb n (count_laps k c db.laps))
    pub counted :
        (k c : ℕ) (p : Checkpoint)
        → find_checkpoint k c db.checkpoints ≡ some p
        → p.lap_count ≡ count_laps k c db.laps

  pub same_laps-IsNumbered :
      (a b : Database F)
      → b.laps ≡ a.laps
      → b.checkpoints ≡ a.checkpoints
      → IsNumbered a
      → IsNumbered b
  same_laps-IsNumbered a b l p v = record {
    numbers = λ k c n. rw l (v.numbers k c n);
    counted = λ k c q h. rw l (v.counted k c q (rw p at h));
  }

  module _ (now : ℕ) (db : Database F) (k c : ℕ) (v : IsNumbered db) where
    pub seed-IsNumbered : IsNumbered (seed_from_existing_laps now db k c)
    unfolding seed_from_existing_laps upsert_lap_checkpoint count_laps_for_car
    seed-IsNumbered = record {
      numbers = v.numbers;
      counted = λ j d p h.
          ground
            (arith, find_checkpoint-put j d (seed_row now db k c) db.checkpoints, v.counted j d p);
    }

    pub ensure-IsNumbered : IsNumbered (ensure_checkpoint now db k c)
    unfolding ensure_checkpoint
    ensure-IsNumbered = elim (Option-cases (get_lap_checkpoint db k c)) [
      | inl e ↦ rw (e, ensure_checkpoint) seed-IsNumbered
      | inr (p, e) ↦ rw (e, ensure_checkpoint) v
    ]

    pub laps-ensure : (ensure_checkpoint now db k c).laps ≡ db.laps
    unfolding ensure_checkpoint seed_from_existing_laps upsert_lap_checkpoint
    laps-ensure = ground arith

    -- The next number follows the laps that are there.
    pub next_number-ensure :
        next_number (ensure_checkpoint now db k c) k c ≡ count_laps k c db.laps + 1
    unfolding ensure_checkpoint seed_from_existing_laps upsert_lap_checkpoint next_number
        get_lap_checkpoint count_laps_for_car
    next_number-ensure = elim (Option-cases (find_checkpoint k c db.checkpoints)) [
      | inl e ↦ ground (arith, find_checkpoint-put k c (seed_row now db k c) db.checkpoints)
      | inr (p, e) ↦ ground (arith, v.counted k c p e)
    ]

  -- A lap with the next number, and its checkpoint.
  module _ (now k : ℕ) (d : Driver) (cu n time stamp : ℕ) (db : Database F) where
    abbrev pub extended : Database F
    extended =
        upsert_lap_checkpoint (record db { laps = db.laps ++ lap_row k d n time stamp ∷ [] })
          (checkpoint_row now k d cu n)

    pub extended-IsNumbered :
        n ≡ count_laps k d.car_id db.laps + 1 → IsNumbered db → IsNumbered extended
    unfolding upsert_lap_checkpoint
    extended-IsNumbered e v = record {
      numbers = λ j c m. ground (
        arith,
        has_lap-append j c m (lap_row k d n time stamp) db.laps,
        count_laps-append j c (lap_row k d n time stamp) db.laps,
        v.numbers j c m,
      );
      counted = λ j c p h. ground (
        arith,
        find_checkpoint-put j c (checkpoint_row now k d cu n) db.checkpoints,
        count_laps-append j c (lap_row k d n time stamp) db.laps,
        v.counted j c p,
      );
    }
