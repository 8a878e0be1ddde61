-- ===== src/Race/Numbering/Frame.antt =====
-- The calls that write neither laps nor checkpoints.
use carrera_monitor.Prelude.{
  ℕ, Bool, true, false, ◌≡◌, refl, ◌∙◌, Option, none, some, String, arith, if◌then◌else◌,
  Bool-cases, Option-cases, inl, inr, ◌==◌,
}
use carrera_monitor.Event.{TelemetryEvent}
use carrera_monitor.Race.Model.{
  RaceStatus, ready, running, paused, finished, cancelled, Method, TriggeredBy, Database,
}
use carrera_monitor.Race.Schema.{RaceForm}
use carrera_monitor.Race.Repository
use carrera_monitor.Race.Repository.{add_event, save_race, lap_count_by_car, max_count}
use carrera_monitor.Race.App.{
  App, Result, ok, err, RaceManagementConfig, clear_active, drop_safety_car, set_active,
}
use carrera_monitor.Race.Reporting.{FloatEnv}
use carrera_monitor.Race.Lifecycle.{
  transition, log_method, mark_ready, auto_pause, start_race, pause_race, resume_race,
  auto_snapshot, finish_race, cancel_race, race_has_laps, and_then,
}
use carrera_monitor.Race.Crud.{create_race, update_race, repeat_race}
use carrera_monitor.Race.SafetyCar.{
  set_safety_car, is_safety_car_active, toggle_row, cache_safety_car,
}
use carrera_monitor.Race.Ingest.{record_event, maybe_auto_finish, finish_by}
use carrera_monitor.Race.Exclusive.Leaving.{auto_snapshot_races}
use carrera_monitor.Race.Model.{RaceMode, fixed_laps}

module _ {F : Type 0} where
  -- The lap tables of two databases agree.
  pub record SameLaps (a b : Database F) : Type 0 where
    pub laps : b.laps ≡ a.laps
    pub checkpoints : b.checkpoints ≡ a.checkpoints
    pub identities : b.identities ≡ a.identities

  pub SameLaps-trans : (a b c : Database F) → SameLaps a b → SameLaps b c → SameLaps a c
  SameLaps-trans a b c p q = record {
    laps = q.laps ∙ p.laps;
    checkpoints = q.checkpoints ∙ p.checkpoints;
    identities = q.identities ∙ p.identities;
  }

  SameLaps-refl : (a : Database F) → SameLaps a a
  SameLaps-refl a = record { laps = refl; checkpoints = refl; identities = refl }

  -- What holds after a call, and is kept by what follows it.
  pub and_then-keeps :
      {A : Type 0} (P : App F → Type 0) (r : Result A × App F) (f : App F → App F)
      → P r.1
      → ((u : App F) → P u → P (f u))
      → P (and_then r f).1
  and_then-keeps P (ok a, u) f p h = h u p
  and_then-keeps P (err e, u) f p h = p

  module _ (cfg : RaceManagementConfig) (now k : ℕ) where
    log_method-SameLaps :
        (m : Method) (by : Option TriggeredBy) (db : Database F)
        → SameLaps db (log_method cfg now k m by db)
    unfolding log_method add_event
    log_method-SameLaps m by db = ground arith

    transition-SameLaps :
        (m : Method) (new : RaceStatus) (b c : Bool) (by : Option TriggeredBy) (s : App F)
        → SameLaps s.db (transition cfg now k m new b c by s).1.db
    unfolding transition save_race log_method add_event
    transition-SameLaps m new b c by s = ground arith

  module _ (cfg : RaceManagementConfig) (env : FloatEnv) (now k : ℕ) (s : App F) where
    auto_pause-SameLaps : SameLaps s.db (auto_pause cfg now k s).db
    unfolding auto_pause
    auto_pause-SameLaps = elim (Option-cases s.active) [
      | inl e ↦ rw (e, auto_pause) (SameLaps-refl s.db)
      | inr (i, e) ↦ elim (Bool-cases (i == k)) [
        | inl own ↦ rw (e, auto_pause) (rw own (SameLaps-refl s.db))
        | inr other ↦
            rw (e, auto_pause)
              (rw other (transition-SameLaps cfg now i Method.pause_race paused false false none s))
      ]
    ]

    pub mark_ready-SameLaps : SameLaps s.db (mark_ready cfg now k s).1.db
    unfolding mark_ready
    mark_ready-SameLaps = transition-SameLaps cfg now k Method.mark_ready ready false false none s

    abbrev Same : App F → Type 0
    Same u = SameLaps s.db u.db

    take_place-SameLaps :
        (m : Method) (b : Bool)
        → Same
            (and_then
              (transition cfg now k m running b false none (auto_pause cfg now k s))
              (set_active k)).1
    unfolding set_active
    take_place-SameLaps m b =
        and_then-keeps Same _ (set_active k)
          (SameLaps-trans s.db (auto_pause cfg now k s).db _ auto_pause-SameLaps
            (transition-SameLaps cfg now k m running b false none (auto_pause cfg now k s)))
          (λ u h. h)

    pub start_race-SameLaps : Same (start_race cfg now k s).1
    unfolding start_race
    start_race-SameLaps = take_place-SameLaps Method.start_race true

    pub resume_race-SameLaps : Same (resume_race cfg now k s).1
    unfolding resume_race
    resume_race-SameLaps = take_place-SameLaps Method.resume_race false

    clear_active-Same : (u : App F) → Same u → Same (clear_active k u)
    unfolding clear_active
    clear_active-Same u h = ground arith

    drop_safety_car-Same : (u : App F) → Same u → Same (drop_safety_car k u)
    unfolding drop_safety_car
    drop_safety_car-Same u h = h

    auto_snapshot-Same : (u : App F) → Same u → Same (auto_snapshot env now k u)
    auto_snapshot-Same u h = ground (arith, auto_snapshot_races env now k u)

    leave-Same : (u : App F) → Same u → Same (drop_safety_car k (clear_active k u))
    leave-Same u h = drop_safety_car-Same _ (clear_active-Same u h)

    pub pause_race-SameLaps : Same (pause_race cfg now k s).1
    unfolding pause_race
    pause_race-SameLaps =
        and_then-keeps Same _ (clear_active k)
          (transition-SameLaps cfg now k Method.pause_race paused false false none s)
          clear_active-Same

    pub finish_race-SameLaps : (by : TriggeredBy) → Same (finish_race cfg env now by k s).1
    unfolding finish_race
    finish_race-SameLaps by =
        and_then-keeps Same _ (λ t. auto_snapshot env now k (drop_safety_car k (clear_active k t)))
          (transition-SameLaps cfg now k Method.finish_race finished false true (some by) s)
          (λ u h. auto_snapshot-Same _ (leave-Same u h))

    pub cancel_race-SameLaps : Same (cancel_race cfg env now k s).1
    unfolding cancel_race
    cancel_race-SameLaps =
        and_then-keeps Same _
          (λ t.
            let u = drop_safety_car k (clear_active k t) in
            if race_has_laps k s then auto_snapshot env now k u else u)
          (transition-SameLaps cfg now k Method.cancel_race cancelled false true none s)
          (λ u h. ground (
            arith,
            leave-Same u h,
            auto_snapshot-Same (drop_safety_car k (clear_active k u)) (leave-Same u h),
          ))

    pub set_safety_car-SameLaps : (b : Bool) → Same (set_safety_car now k b s).1
    unfolding set_safety_car is_safety_car_active toggle_row cache_safety_car drop_safety_car
        add_event
    set_safety_car-SameLaps b = ground arith

    pub is_safety_car_active-SameLaps : Same (is_safety_car_active k s).1
    unfolding is_safety_car_active cache_safety_car drop_safety_car
    is_safety_car_active-SameLaps = ground arith

    pub record_event-SameLaps : (e : TelemetryEvent F) → Same (record_event cfg e s)
    unfolding record_event add_event
    record_event-SameLaps e = ground arith

    pub create_race-SameLaps : (f : RaceForm) → Same (create_race cfg k now f s).1
    unfolding create_race Repository.create_race
    create_race-SameLaps f = ground arith

    pub update_race-SameLaps : (f : RaceForm) → Same (update_race cfg now k f s).1
    unfolding update_race save_race
    update_race-SameLaps f = ground arith

    pub repeat_race-SameLaps :
        (id : ℕ) (name : Option String) → Same (repeat_race cfg id now k name s).1
    unfolding repeat_race Repository.create_race
    repeat_race-SameLaps id name = ground arith

    maybe_auto_finish-Same : (target : ℕ) → Same (maybe_auto_finish cfg env now k target s)
    unfolding maybe_auto_finish
    maybe_auto_finish-Same target = ground (arith, finish_race-SameLaps TriggeredBy.auto)

    pub finish_by-SameLaps :
        (mode : RaceMode) (target : Option ℕ) → Same (finish_by cfg env now k mode target s)
    unfolding finish_by
    finish_by-SameLaps fixed_laps (some target) = maybe_auto_finish-Same target
    finish_by-SameLaps _ _ = SameLaps-refl s.db
