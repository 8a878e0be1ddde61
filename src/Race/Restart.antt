-- ===== src/Race/Restart.antt =====
-- The recovery after a restart: the process has lost the active race and the safety-car cache.
use carrera_monitor.Prelude.{
  ℕ, ◌≡◌, refl, ◌∙◌, sym, ap, Bool, true, false, inl, inr, some, none, List, [], ◌∷◌, arith,
  Bool-cases, All, take, if_elim,
}
use carrera_monitor.Prelude.Sort.{sort_by, insert_by}
use carrera_monitor.Race.Model.{Race, running, paused, Method, Database}
use carrera_monitor.Race.Repository.{find_race, list_races, get_race, keep, has_status}
use carrera_monitor.Race.App.{App, RaceManagementConfig, set_active}
use carrera_monitor.Race.Reporting.{FloatEnv}
use carrera_monitor.Race.Lifecycle.{pause_race, check_transition, valid_transitions}
use carrera_monitor.Race.Transition.{transition_cases}
use carrera_monitor.Race.Ingest.{seed_race, recover_one, recover_all, recover_on_startup}
use carrera_monitor.Race.Rows.{status_in, status_of, status-same_races}
use carrera_monitor.Race.Exclusive.{IsExclusive, runs}
use carrera_monitor.Race.Exclusive.Leaving.{clear_active-IsExclusive}
use carrera_monitor.Race.Recovery.{
  HasKeys, Runs, list_races-Runs, seed_race_frame, still_Runs, reattached-IsExclusive,
  pause_all-IsExclusive,
}

abbrev is_nil : {A : Type 0} → List A → Bool
is_nil [] = true
is_nil (x ∷ xs) = false

insert_by-is_nil :
    {A : Type 0} (le : A → A → Bool) (x : A) (xs : List A) → is_nil (insert_by le x xs) ≡ false
unfolding insert_by
insert_by-is_nil le x [] = refl
insert_by-is_nil le x (y ∷ ys) = ground arith

sort_by-is_nil : {A : Type 0} (le : A → A → Bool) (xs : List A) → is_nil (sort_by le xs) ≡ is_nil xs
unfolding sort_by
sort_by-is_nil le [] = refl
sort_by-is_nil le (x ∷ xs) = insert_by-is_nil le x (sort_by le xs)

take-is_nil : {A : Type 0} (xs : List A) → is_nil (take 100 xs) ≡ is_nil xs
take-is_nil [] = refl
take-is_nil (x ∷ xs) = refl

keep-is_nil :
    (j : ℕ) (rs : List Race)
    → is_nil (keep (has_status (some running)) rs) ≡ true
    → runs (status_in (find_race j rs)) ≡ false
unfolding keep find_race
keep-is_nil j [] h = refl
keep-is_nil j (r ∷ rs) h = ground (arith, keep-is_nil j rs)

module _ {F : Type 0} where
  nothing_listed :
      (db : Database F) (j : ℕ)
      → is_nil (list_races db (some running) 100 0) ≡ true
      → runs (status_of db j) ≡ false
  unfolding list_races status_of get_race
  nothing_listed db j h =
      keep-is_nil j db.races (sym (sort_by-is_nil _ _) ∙ sym (take-is_nil _) ∙ h)

  -- The process starts again on the same database.
  abbrev pub restarted : App F → App F
  restarted s = record s { active = none; safety_car_active = [] }

  idle-IsExclusive : (s : App F) → ((j : ℕ) → runs (status_of s.db j) ≡ false) → IsExclusive s
  idle-IsExclusive s idle = record { only = λ j h. absurd (ground (arith, idle j)) }

  module _ (cfg : RaceManagementConfig) (env : FloatEnv) (now : ℕ) (s : App F)
      (x : IsExclusive s) where
    seeded_runs :
        (k j : ℕ) → runs (status_of (seed_race now k (restarted s)).db j) ≡ runs (status_of s.db j)
    seeded_runs k j = ap runs (
        status-same_races (seed_race now k (restarted s)).db s.db j
          (seed_race_frame cfg env now k (restarted s)).0)

    attached_first :
        (k : ℕ)
        → cfg.recover_running_race ≡ true
        → runs (status_of s.db k) ≡ true
        → IsExclusive (recover_one cfg now k (restarted s))
    unfolding recover_one set_active
    attached_first k on r =
        if_elim IsExclusive cfg.recover_running_race
          (λ yes. record { only = λ j h. sym (x.only k r) ∙ x.only j (sym (seeded_runs k j) ∙ h) })
          (λ no. absurd (ground arith))

    paused_first_race :
        (k : ℕ)
        → runs (status_of s.db k) ≡ true
        → IsExclusive (pause_race cfg now k (seed_race now k (restarted s))).1
    unfolding pause_race check_transition valid_transitions
    paused_first_race k r =
        let u = seed_race now k (restarted s) in
        let live : runs (status_of u.db k) ≡ true = seeded_runs k k ∙ r in
        elim (transition_cases cfg now k Method.pause_race paused false false none u) [
          | inl (e, same, no_move) ↦ absurd (ground (arith, no_move running))
          | inr (race, found, allowed, eq, statuses) ↦ rw eq (
              clear_active-IsExclusive k _ (ground (arith, statuses k)) (
                idle-IsExclusive _
                  (λ j. ground (arith, statuses j, seeded_runs k j, x.only j, x.only k r))))
        ]

    paused_first :
        (k : ℕ)
        → cfg.recover_running_race ≡ false
        → runs (status_of s.db k) ≡ true
        → IsExclusive (recover_one cfg now k (restarted s))
    unfolding recover_one
    paused_first k off r =
        if_elim IsExclusive cfg.recover_running_race (λ yes. absurd (ground arith))
          (λ no. paused_first_race k r)

    recovered :
        (rs : List Race)
        → All (Runs s.db) rs
        → (is_nil rs ≡ true → (j : ℕ) → runs (status_of s.db j) ≡ false)
        → IsExclusive (recover_all cfg now rs (restarted s))
    unfolding recover_all
    recovered [] a nil = idle-IsExclusive (restarted s) (nil refl)
    recovered (r ∷ rs) (h, a) nil = elim (Bool-cases cfg.recover_running_race) [
      | inl on ↦
          reattached-IsExclusive cfg env now rs (recover_one cfg now r.id (restarted s)) on
            (still_Runs cfg env now r.id (restarted s) rs on a) (attached_first r.id on h)
      | inr off ↦
          pause_all-IsExclusive cfg env now rs (recover_one cfg now r.id (restarted s)) off
            (paused_first r.id off h)
    ]

    -- Where only the active race may run and each race is found by its key, a process that stops
    -- and starts again on the same database, with no active race and no safety-car cache, has after
    -- its recovery again only an active race that runs, whether the configuration lets a running
    -- race go on or pauses it.
    pub restarted-IsExclusive :
        HasKeys s.db → IsExclusive (recover_on_startup cfg now (restarted s))
    unfolding recover_on_startup
    restarted-IsExclusive keys =
        recovered (list_races s.db (some running) 100 0) (list_races-Runs s.db keys)
          (λ nil j. nothing_listed s.db j nil)
