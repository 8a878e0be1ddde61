-- ===== src/Race/Runs/OneRunning.antt =====
-- Whatever is called, at most one race runs, and the telemetry goes to it.
use carrera_monitor.Prelude.{ℕ, ◌≡◌, some, arith}
use carrera_monitor.Race.App.{App, RaceManagementConfig}
use carrera_monitor.Race.Reporting.{FloatEnv}
use carrera_monitor.Race.Model.{running}
use carrera_monitor.Race.Rows.{status_of}
use carrera_monitor.Race.Exclusive.{IsExclusive, start_race-IsExclusive, resume_race-IsExclusive}
use carrera_monitor.Race.Exclusive.Leaving.{
  mark_ready-IsExclusive, pause_race-IsExclusive, finish_race-IsExclusive, cancel_race-IsExclusive,
}
use carrera_monitor.Race.Exclusive.Editing.{
  StartsIdle, create_race-IsExclusive, update_race-IsExclusive, delete_race-IsExclusive,
  repeat_race-IsExclusive,
}
use carrera_monitor.Race.Exclusive.Telemetry.{
  set_safety_car-IsExclusive, is_safety_car_active-IsExclusive, record_lap-IsExclusive,
  record_event-IsExclusive,
}
use carrera_monitor.Race.Recovery.{recover_on_startup-IsExclusive}
use carrera_monitor.Race.Runs.{Call, perform, RespectsKeys, Reaches}

module _ {F : Type 0} (cfg : RaceManagementConfig) (env : FloatEnv) (idle : StartsIdle cfg) where
  perform-IsExclusive :
      (now : ℕ) (c : Call F) (s : App F)
      → RespectsKeys c s
      → IsExclusive s
      → IsExclusive (perform cfg env now c s)
  unfolding perform
  perform-IsExclusive now (Call.create_race id f) s fresh x =
      create_race-IsExclusive cfg now s x id f fresh idle
  perform-IsExclusive now (Call.update_race k f) s fresh x = update_race-IsExclusive cfg now s x k f
  perform-IsExclusive now (Call.delete_race k) s fresh x = delete_race-IsExclusive cfg now s x k
  perform-IsExclusive now (Call.repeat_race id k name) s fresh x =
      repeat_race-IsExclusive cfg now s x id k name fresh idle
  perform-IsExclusive now (Call.mark_ready k) s fresh x = mark_ready-IsExclusive cfg now k s x
  perform-IsExclusive now (Call.start_race k) s fresh x = start_race-IsExclusive cfg now k s x
  perform-IsExclusive now (Call.pause_race k) s fresh x = pause_race-IsExclusive cfg now k s x
  perform-IsExclusive now (Call.resume_race k) s fresh x = resume_race-IsExclusive cfg now k s x
  perform-IsExclusive now (Call.cancel_race k) s fresh x = cancel_race-IsExclusive cfg now k s x env
  perform-IsExclusive now (Call.finish_race by k) s fresh x =
      finish_race-IsExclusive cfg now k s x env by
  perform-IsExclusive now (Call.set_safety_car k b) s fresh x =
      set_safety_car-IsExclusive cfg env now s x k b
  perform-IsExclusive now (Call.is_safety_car_active k) s fresh x =
      is_safety_car_active-IsExclusive cfg env now s x k
  perform-IsExclusive now (Call.record_lap e) s fresh x = record_lap-IsExclusive cfg env now e s x
  perform-IsExclusive now (Call.record_event e) s fresh x =
      record_event-IsExclusive cfg env now s x e
  perform-IsExclusive now Call.recover_on_startup s keys x =
      recover_on_startup-IsExclusive cfg env now s keys x

  pub Reaches-IsExclusive : {s t : App F} → IsExclusive s → Reaches cfg env s t → IsExclusive t
  Reaches-IsExclusive x Reaches.here = x
  Reaches-IsExclusive x (Reaches.next now c r fresh) =
      perform-IsExclusive now c _ fresh (Reaches-IsExclusive x r)

  -- If new races are not created running, then after any calls of the race service, its recovery on
  -- startup among them, from a state in which only the active race may run, and with primary keys
  -- that are unique, two races that run are the same race, and it is the active one.
  pub one_running :
      {s t : App F}
      → IsExclusive s
      → Reaches cfg env s t
      → (i j : ℕ) → status_of t.db i ≡ some running
      → status_of t.db j ≡ some running
      → (i ≡ j) × (t.active ≡ some i)
  one_running {s} {t} x r i j p q =
      let y = Reaches-IsExclusive x r in
      (ground (arith, y.only i, y.only j), ground (arith, y.only i))
