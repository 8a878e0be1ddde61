-- ===== src/Race/Runs/LapNumbers.antt =====
-- Whatever is called, the laps of a car in a race are numbered from one without a gap.
use carrera_monitor.Prelude.{ℕ, ◌≤◌, true, ◌≡◌, ◌↔◌, ◌⊎◌, inl, inr, arith}
use carrera_monitor.Race.Model.{Database}
use carrera_monitor.Race.Repository
use carrera_monitor.Race.Repository.{has_lap, count_laps}
use carrera_monitor.Race.App.{App, RaceManagementConfig, clear_active}
use carrera_monitor.Race.Reporting.{FloatEnv}
use carrera_monitor.Race.Crud.{delete_race}
use carrera_monitor.Race.LapRows.{has_lap-delete, count_laps-delete, find_checkpoint-delete}
use carrera_monitor.Race.Numbering.{IsNumbered, same_laps-IsNumbered}
use carrera_monitor.Race.Numbering.Recorded.{record_lap-IsNumbered}
use carrera_monitor.Race.Numbering.Frame.{
  SameLaps, mark_ready-SameLaps, start_race-SameLaps, pause_race-SameLaps, resume_race-SameLaps,
  finish_race-SameLaps, cancel_race-SameLaps, set_safety_car-SameLaps,
  is_safety_car_active-SameLaps, record_event-SameLaps, create_race-SameLaps, update_race-SameLaps,
  repeat_race-SameLaps,
}
use carrera_monitor.Race.Recovery.{recover_on_startup-IsNumbered}
use carrera_monitor.Race.Runs.{Call, perform, Reaches}

module _ {F : Type 0} where
  SameLaps-IsNumbered : (a b : Database F) → SameLaps a b → IsNumbered a → IsNumbered b
  SameLaps-IsNumbered a b h v = same_laps-IsNumbered a b h.laps h.checkpoints v

  rows_deleted-IsNumbered :
      (k : ℕ) (db : Database F) → IsNumbered db → IsNumbered (Repository.delete_race db k)
  unfolding Repository.delete_race
  rows_deleted-IsNumbered k db v = record {
    numbers = λ j c n.
        ground
          (arith, has_lap-delete k j c n db.laps, count_laps-delete k j c db.laps, v.numbers j c n);
    counted = λ j c p h. ground (
      arith,
      find_checkpoint-delete k j c db.checkpoints,
      count_laps-delete k j c db.laps,
      v.counted j c p,
    );
  }

  delete_race_db :
      (k : ℕ) (s : App F)
      → ((delete_race k s).1.db ≡ s.db) ⊎ ((delete_race k s).1.db ≡ Repository.delete_race s.db k)
  unfolding delete_race clear_active
  delete_race_db k s = ground arith

  module _ (cfg : RaceManagementConfig) (env : FloatEnv) where
    perform-IsNumbered :
        (now : ℕ) (c : Call F) (s : App F)
        → IsNumbered s.db
        → IsNumbered (perform cfg env now c s).db
    unfolding perform
    perform-IsNumbered now (Call.create_race id f) s v =
        SameLaps-IsNumbered s.db _ (create_race-SameLaps cfg env now id s f) v
    perform-IsNumbered now (Call.update_race k f) s v =
        SameLaps-IsNumbered s.db _ (update_race-SameLaps cfg env now k s f) v
    perform-IsNumbered now (Call.delete_race k) s v = elim (delete_race_db k s) [
      | inl same ↦ rw same v
      | inr gone ↦ rw gone (rows_deleted-IsNumbered k s.db v)
    ]
    perform-IsNumbered now (Call.repeat_race id k name) s v =
        SameLaps-IsNumbered s.db _ (repeat_race-SameLaps cfg env now k s id name) v
    perform-IsNumbered now (Call.mark_ready k) s v =
        SameLaps-IsNumbered s.db _ (mark_ready-SameLaps cfg env now k s) v
    perform-IsNumbered now (Call.start_race k) s v =
        SameLaps-IsNumbered s.db _ (start_race-SameLaps cfg env now k s) v
    perform-IsNumbered now (Call.pause_race k) s v =
        SameLaps-IsNumbered s.db _ (pause_race-SameLaps cfg env now k s) v
    perform-IsNumbered now (Call.resume_race k) s v =
        SameLaps-IsNumbered s.db _ (resume_race-SameLaps cfg env now k s) v
    perform-IsNumbered now (Call.cancel_race k) s v =
        SameLaps-IsNumbered s.db _ (cancel_race-SameLaps cfg env now k s) v
    perform-IsNumbered now (Call.finish_race by k) s v =
        SameLaps-IsNumbered s.db _ (finish_race-SameLaps cfg env now k s by) v
    perform-IsNumbered now (Call.set_safety_car k b) s v =
        SameLaps-IsNumbered s.db _ (set_safety_car-SameLaps cfg env now k s b) v
    perform-IsNumbered now (Call.is_safety_car_active k) s v =
        SameLaps-IsNumbered s.db _ (is_safety_car_active-SameLaps cfg env now k s) v
    perform-IsNumbered now (Call.record_lap e) s v = record_lap-IsNumbered cfg env now e s v
    perform-IsNumbered now (Call.record_event e) s v =
        SameLaps-IsNumbered s.db _ (record_event-SameLaps cfg env now 0 s e) v
    perform-IsNumbered now Call.recover_on_startup s v =
        recover_on_startup-IsNumbered cfg env now s v

    pub Reaches-IsNumbered : {s t : App F} → IsNumbered s.db → Reaches cfg env s t → IsNumbered t.db
    Reaches-IsNumbered v Reaches.here = v
    Reaches-IsNumbered v (Reaches.next now c r fresh) =
        perform-IsNumbered now c _ (Reaches-IsNumbered v r)

    -- After any calls of the race service, its recovery on startup among them, from a state whose
    -- laps are numbered so, and with primary keys that are unique, a car of a race has a lap with
    -- number n exactly when n lies between one and the number of its lap rows.
    pub laps_numbered :
        {s t : App F}
        → IsNumbered s.db
        → Reaches cfg env s t
        → (k c n : ℕ)
        → (has_lap k c n t.db.laps ≡ true) ↔ ((1 ≤ n) × (n ≤ count_laps k c t.db.laps))
    laps_numbered {s} {t} v r k c n =
        let w = Reaches-IsNumbered v r in
        (λ h. ground (arith, w.numbers k c n), λ h. ground (arith, w.numbers k c n))
