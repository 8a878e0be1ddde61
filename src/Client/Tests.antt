-- ===== src/Client/Tests.antt =====
-- The live adapter and its runner at concrete data.
use carrera_monitor.Prelude.{
  ℕ, String, true, false, ◌≡◌, refl, none, some, List, [], ◌∷◌, inl, arith, Option, map, ◌⊎◌, ◌↔◌,
}
use carrera_monitor.Prelude.Int.{pos}
use carrera_monitor.Event.{Source}
use carrera_monitor.Event.Tests.{whole_floats}
use carrera_monitor.Continuity.{CarSlotMapping, MappingMode, healthy, decision}
use carrera_monitor.Client.Frames.{Stamp, translate_raw_frame}
use carrera_monitor.Client.Frames.Laps.{lap_outcome, lap_frame-outcome}
use carrera_monitor.Client.Adapter.{Timer, lap_frame, get_car}
use carrera_monitor.Client.Adapter.Connect.{
  restarted, kept, reset_returns, reset_raises, discovered, given, opened, connect, pick_device,
  find_named,
}
use carrera_monitor.Client.Adapter.Connect.Target.{Picked, connect-target}
use carrera_monitor.Client.Adapter.Mapping.{CountsFromZero}
use carrera_monitor.Client.Adapter.Timers.{
  translate_timers, frames_of, new_adapter, timers-laps_between,
}
use carrera_monitor.Client.ReadLoop.{Reader}
use carrera_monitor.Client.ReadLoop.LapEvents.{laps_read}
use carrera_monitor.Client.ReadLoop.Rounds.{ReadsLaps, read_timers, read_timers-laps_read}
use carrera_monitor.Client.ReadLoop.Watchdog.{silence, has_ended, silence_ends}
use carrera_monitor.Client.Runner.{
  Runner, new_runner, start, connect_failed, slept, begin, rest, emit_connection, connect_succeeded,
}
use carrera_monitor.Client.Runner.Reachable.{
  RunnerIsValid, done, step, starts, fails, wakes, connects, reachable-RunnerIsValid,
}
use carrera_monitor.Client.Runner.Backoff.{fail_all, backoff-fail_all}

abbrev new_mapping : CarSlotMapping
new_mapping = record { mapping_mode = MappingMode.zero_based; slot_to_car_id = []; locked = false }

new_mapping-CountsFromZero : CountsFromZero new_mapping
unfolding CountsFromZero decision
new_mapping-CountsFromZero = (refl, (refl, λ k. inl refl))

-- Two cars that cross the line in turns.
abbrev crossings : List Timer
crossings =
    (record { address = 0; timestamp = 1000 })
    ∷ (record { address = 1; timestamp = 1200 })
    ∷ (record { address = 0; timestamp = 8100 })
    ∷ (record { address = 1; timestamp = 8900 })
    ∷ (record { address = 0; timestamp = 15000 })
    ∷ []

timers-laps_between_example :
    frames_of {F = ℕ} (pos 1) (translate_timers crossings (new_adapter new_mapping)).0
    ≡ lap_frame (pos 1) 1 (pos 7100) 8100 ∷ lap_frame (pos 1) 2 (pos 6900) 15000 ∷ []
timers-laps_between_example =
    timers-laps_between {F = ℕ} new_mapping crossings 0 (omega arith) new_mapping-CountsFromZero

abbrev noon : Stamp
noon = record { iso = 5; monotonic_ms = 5000 }

lap_frame-outcome_example :
    translate_raw_frame whole_floats true noon Source.carrera_appconnect
      (lap_frame (pos 1) 2 (pos 6900) 15000)
    ≡ some (lap_outcome whole_floats true noon Source.carrera_appconnect 1 2 (pos 6900) 15000)
lap_frame-outcome_example =
    lap_frame-outcome whole_floats true noon Source.carrera_appconnect 1 2 15000 (pos 6900)
      (omega arith) (omega arith) (omega arith)

abbrev reader : Reader ℕ
reader = record {
  adapter = new_adapter new_mapping;
  link_health = record {
    warning_threshold = 1;
    hard_threshold = 3;
    link = record { state = healthy; timeout_streak = 0; reason = none; last_frame_at_ms = 0 };
  };
  idle_timeout = 3;
  timeout_streak = 0;
  prev_data = none;
  queue = record { maxsize = 4096; items = [] };
  is_connected = true;
}

silence_ends_example :
    has_ended (silence whole_floats false (λ x y. false) (noon ∷ noon ∷ noon ∷ []) reader) ≡ true
silence_ends_example =
    silence_ends whole_floats false (λ x y. false) (noon ∷ noon ∷ noon ∷ []) reader (omega arith)

abbrev runner : Runner ℕ
runner = new_runner none 5 30 0 true

-- Two attempts that fail, and one that succeeds.
abbrev third_attempt : Runner ℕ
third_attempt = connect_succeeded noon (
    slept noon (
      connect_failed noon "no device"
        (slept noon (connect_failed noon "no device" (start noon none runner)))))

reachable-RunnerIsValid_example : RunnerIsValid third_attempt
unfolding new_runner start begin rest slept connect_failed emit_connection
reachable-RunnerIsValid_example = reachable-RunnerIsValid none 5 30 0 true third_attempt (
    step (starts noon none refl) (
      step (fails noon "no device" refl) (
        step (wakes noon refl) (
          step (fails noon "no device" refl)
            (step (wakes noon refl) (step (connects noon refl) done))))))

abbrev failures : List (Stamp × (String × Stamp))
failures = (noon, ("no device", noon)) ∷ (noon, ("no device", noon)) ∷ []

backoff-fail_all_example :
    ((fail_all failures (start noon none runner)).backoff ≡ 20)
    × ((fail_all failures (start noon none runner)).attempt ≡ 2)
unfolding new_runner start begin emit_connection
backoff-fail_all_example =
    backoff-fail_all failures (start noon none runner) refl (omega arith) (omega arith)

abbrev rounds : List (Stamp × Timer)
rounds =
    (noon, record { address = 0; timestamp = 1000 })
    ∷ (noon, record { address = 1; timestamp = 1200 })
    ∷ (record { iso = 6; monotonic_ms = 12100 }, record { address = 0; timestamp = 8100 })
    ∷ []

read_timers-laps_read_example :
    ReadsLaps whole_floats true
      (λ x y. false)
      1
      (laps_read whole_floats true 1 0 none
        ((noon, 1000) ∷ (record { iso = 6; monotonic_ms = 12100 }, 8100) ∷ []))
      reader.queue
      (read_timers whole_floats true (λ x y. false) rounds reader)
unfolding get_car
read_timers-laps_read_example =
    read_timers-laps_read whole_floats true (λ x y. false) rounds reader 0 (omega arith)
      new_mapping-CountsFromZero refl (refl, (refl, (refl, tt))) (omega arith, tt)

abbrev found_rows : List (String × Option String)
found_rows = ("11:22", none) ∷ ("AA:BB", some "Control_Unit") ∷ []

connect-target_example :
    ((kept ≡ restarted) ↔ ((true ≡ true) × (reset_raises ≡ reset_returns)))
    × ((given none ≡ some "AA:BB")
        ⊎ ((given none ≡ none) × Picked (map discovered found_rows) "AA:BB"))
unfolding connect pick_device find_named
connect-target_example =
    connect-target true reset_raises kept none found_rows (λ a. opened) (λ a. a) "AA:BB" refl
