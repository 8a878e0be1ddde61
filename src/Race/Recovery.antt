-- ===== src/Race/Recovery.antt =====
-- Recovery after a restart keeps the running race and the numbers of its laps.
use carrera_monitor.Prelude.{
  ℕ, zero, suc, ◌≡◌, refl, ◌∙◌, sym, ap, true, false, inl, inr, some, List, [], ◌∷◌, arith,
  Bool-cases, if_elim, Option-cases, All, take,
}
use carrera_monitor.Prelude.Sort.{sort_by-All}
use carrera_monitor.Race.Model.{Race, Driver, running, Database}
use carrera_monitor.Race.Repository.{
  get_race, list_races, keep, has_status, same_status, upsert_lap_checkpoint,
}
use carrera_monitor.Race.App.{App, RaceManagementConfig, set_active}
use carrera_monitor.Race.Reporting.{FloatEnv}
use carrera_monitor.Race.Ingest.{
  seed_from_existing_laps, seed_drivers, seed_race, recover_one, recover_all, recover_on_startup,
}
use carrera_monitor.Race.Rows.{status_of, status-found, status-same_races}
use carrera_monitor.Race.Exclusive.{IsExclusive, runs}
use carrera_monitor.Race.Exclusive.Leaving.{pause_race-IsExclusive}
use carrera_monitor.Race.Numbering.{IsNumbered, seed-IsNumbered, same_laps-IsNumbered}
use carrera_monitor.Race.Numbering.Frame.{pause_race-SameLaps}

take-All : {A : Type 0} (P : A → Type 0) (n : ℕ) (xs : List A) → All P xs → All P (take n xs)
take-All P zero xs a = tt
take-All P (suc n) [] a = tt
take-All P (suc n) (x ∷ xs) (h, a) = (h, take-All P n xs a)

module _ {F : Type 0} where
  -- The key of each row finds that row.
  abbrev pub HasKeys : Database F → Type 0
  HasKeys db = All (λ r. get_race db r.id ≡ some r) db.races

  abbrev pub Runs : Database F → Race → Type 0
  Runs db r = runs (status_of db r.id) ≡ true

  keep-Runs :
      (db : Database F) (rs : List Race)
      → All (λ r. get_race db r.id ≡ some r) rs
      → All (Runs db) (keep (has_status (some running)) rs)
  unfolding keep
  keep-Runs db [] a = tt
  keep-Runs db (r ∷ rs) (h, a) = elim (Bool-cases (same_status r.status running)) [
    | inl e ↦ rw e (ap runs (status-found db r.id r h) ∙ e, keep-Runs db rs a)
    | inr e ↦ rw e (keep-Runs db rs a)
  ]

  pub list_races-Runs :
      (db : Database F) → HasKeys db → All (Runs db) (list_races db (some running) 100 0)
  unfolding list_races
  list_races-Runs db h =
      take-All (Runs db) 100 _ (sort_by-All _ (Runs db) _ (keep-Runs db db.races h))

  module _ (cfg : RaceManagementConfig) (env : FloatEnv) (now : ℕ) where
    seed_drivers_races :
        (k : ℕ) (ds : List Driver) (db : Database F) → (seed_drivers now k ds db).races ≡ db.races
    unfolding seed_drivers seed_from_existing_laps upsert_lap_checkpoint
    seed_drivers_races k [] db = refl
    seed_drivers_races k (d ∷ ds) db =
        seed_drivers_races k ds (seed_from_existing_laps now db k d.car_id)

    pub seed_race_frame :
        (k : ℕ) (s : App F)
        → ((seed_race now k s).db.races ≡ s.db.races) × ((seed_race now k s).active ≡ s.active)
    unfolding seed_race
    seed_race_frame k s = elim (Option-cases (get_race s.db k)) [
      | inl e ↦ rw (e, seed_race) ((refl, refl))
      | inr (r, e) ↦ rw (e, seed_race) ((seed_drivers_races k r.drivers s.db, refl))
    ]

    seed_race-IsExclusive : (k : ℕ) (s : App F) → IsExclusive s → IsExclusive (seed_race now k s)
    seed_race-IsExclusive k s x =
        let (races, active) = seed_race_frame k s in
        record {
          only = λ j h.
              active ∙ x.only j (rw (status-same_races (seed_race now k s).db s.db j races) at h);
        }

    seed_drivers-IsNumbered :
        (k : ℕ) (ds : List Driver) (db : Database F)
        → IsNumbered db
        → IsNumbered (seed_drivers now k ds db)
    unfolding seed_drivers
    seed_drivers-IsNumbered k [] db v = v
    seed_drivers-IsNumbered k (d ∷ ds) db v =
        seed_drivers-IsNumbered k ds (seed_from_existing_laps now db k d.car_id)
          (seed-IsNumbered now db k d.car_id v)

    seed_race-IsNumbered : (k : ℕ) (s : App F) → IsNumbered s.db → IsNumbered (seed_race now k s).db
    unfolding seed_race
    seed_race-IsNumbered k s v = elim (Option-cases (get_race s.db k)) [
      | inl e ↦ rw (e, seed_race) v
      | inr (r, e) ↦ rw (e, seed_race) (seed_drivers-IsNumbered k r.drivers s.db v)
    ]

    recover_one-IsNumbered :
        (k : ℕ) (s : App F) → IsNumbered s.db → IsNumbered (recover_one cfg now k s).db
    unfolding recover_one set_active
    recover_one-IsNumbered k s v =
        let w = seed_race-IsNumbered k s v in
        let h = pause_race-SameLaps cfg env now k (seed_race now k s) in
        if_elim (λ (t : App F). IsNumbered t.db) cfg.recover_running_race (λ on. w)
          (λ off. same_laps-IsNumbered (seed_race now k s).db _ h.laps h.checkpoints w)

    recover_all-IsNumbered :
        (rs : List Race) (s : App F) → IsNumbered s.db → IsNumbered (recover_all cfg now rs s).db
    unfolding recover_all
    recover_all-IsNumbered [] s v = v
    recover_all-IsNumbered (r ∷ rs) s v =
        recover_all-IsNumbered rs (recover_one cfg now r.id s) (recover_one-IsNumbered r.id s v)

    pub recover_on_startup-IsNumbered :
        (s : App F) → IsNumbered s.db → IsNumbered (recover_on_startup cfg now s).db
    unfolding recover_on_startup
    recover_on_startup-IsNumbered s v = recover_all-IsNumbered _ s v

    attached-IsExclusive :
        (k : ℕ) (s : App F)
        → cfg.recover_running_race ≡ true
        → runs (status_of s.db k) ≡ true
        → IsExclusive s
        → IsExclusive (recover_one cfg now k s)
    unfolding recover_one set_active
    attached-IsExclusive k s on r x =
        let (races, active) = seed_race_frame k s in
        let y = seed_race-IsExclusive k s x in
        rw on (record { only = λ j h. sym (x.only k r) ∙ sym active ∙ y.only j h })

    pub still_Runs :
        (k : ℕ) (s : App F) (rs : List Race)
        → cfg.recover_running_race ≡ true
        → All (Runs s.db) rs
        → All (Runs (recover_one cfg now k s).db) rs
    unfolding recover_one set_active
    still_Runs k s [] on a = tt
    still_Runs k s (r ∷ rs) on (h, a) = (
      rw on (
          ap runs (status-same_races (seed_race now k s).db s.db r.id (seed_race_frame k s).0) ∙ h),
      still_Runs k s rs on a,
    )

    pub reattached-IsExclusive :
        (rs : List Race) (s : App F)
        → cfg.recover_running_race ≡ true
        → All (Runs s.db) rs
        → IsExclusive s
        → IsExclusive (recover_all cfg now rs s)
    unfolding recover_all
    reattached-IsExclusive [] s on a x = x
    reattached-IsExclusive (r ∷ rs) s on (h, a) x =
        reattached-IsExclusive rs (recover_one cfg now r.id s) on (still_Runs r.id s rs on a)
          (attached-IsExclusive r.id s on h x)

    paused-IsExclusive :
        (k : ℕ) (s : App F)
        → cfg.recover_running_race ≡ false
        → IsExclusive s
        → IsExclusive (recover_one cfg now k s)
    unfolding recover_one
    paused-IsExclusive k s off x =
        if_elim IsExclusive cfg.recover_running_race (λ on. absurd (ground arith))
          (λ no. pause_race-IsExclusive cfg now k (seed_race now k s) (seed_race-IsExclusive k s x))

    pub pause_all-IsExclusive :
        (rs : List Race) (s : App F)
        → cfg.recover_running_race ≡ false
        → IsExclusive s
        → IsExclusive (recover_all cfg now rs s)
    unfolding recover_all
    pause_all-IsExclusive [] s off x = x
    pause_all-IsExclusive (r ∷ rs) s off x =
        pause_all-IsExclusive rs (recover_one cfg now r.id s) off (paused-IsExclusive r.id s off x)

    pub recover_on_startup-IsExclusive :
        (s : App F) → HasKeys s.db → IsExclusive s → IsExclusive (recover_on_startup cfg now s)
    unfolding recover_on_startup
    recover_on_startup-IsExclusive s keys x = elim (Bool-cases cfg.recover_running_race) [
      | inl on ↦ reattached-IsExclusive _ s on (list_races-Runs s.db keys) x
      | inr off ↦ pause_all-IsExclusive _ s off x
    ]
