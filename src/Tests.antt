-- ===== src/Tests.antt =====
-- The event bus, the continuity helpers and the live aggregate at concrete data.
use carrera_monitor.Prelude.{
  ℕ, take, ◌/◌, String, Bool, true, false, ◌≡◌, ◌≤◌, refl, Option, none, some, List, [], ◌∷◌,
  length, ltb, arith,
}
use carrera_monitor.Prelude.Int.{ℤ, pos, negsuc, ◌≤ℤ◌}
use carrera_monitor.Event.{TelemetryEvent, Payload, Source}
use carrera_monitor.Queue.{Queue}
use carrera_monitor.Queue.DropOldest.{newest}
use carrera_monitor.Bus.{Subscription, EventBus, find, empty_bus, queue_of, subscribe}
use carrera_monitor.Bus.Steps.{BusStep, published, taken, closed, run_bus, run_queue, own_history}
use carrera_monitor.Bus.Isolation.{own_queue}
use carrera_monitor.Bus.Warnings.{IsSpaced, warnings_of, warnings_of-IsSpaced}
use carrera_monitor.Bus.Newest.{publish_all, events, unread_newest}
use carrera_monitor.Continuity.{
  CarSlotMapping, MappingMode, LinkHealthTracker, healthy, stalled, on_frame, normalize_slot,
}
use carrera_monitor.Continuity.Link.{timeouts, timeouts_classified}
use carrera_monitor.Continuity.Slots.{normalize_all, slot_keeps_car}
use carrera_monitor.State.Model.{FloatOps, new_manager, recent_events_max}
use carrera_monitor.State.Apply.{apply_all}
use carrera_monitor.State.Cars.{car_at}
use carrera_monitor.State.Counts.{IsCounted, apply_all-IsCounted}
use carrera_monitor.State.Recent.{newest_first, recent_events}
use carrera_monitor.State.Aggregates.{aggregates_of_laps}

-- A bus with a log writer and a dashboard, which has room for two events.
abbrev small : EventBus ℕ
small = record {
  subscriptions =
      (record { name = "log"; queue = record { maxsize = 0; items = [] }; last_overflow_log = 0 })
      ∷ (record { name = "ui"; queue = record { maxsize = 2; items = [] }; last_overflow_log = 0 })
      ∷ [];
  closed = false;
  warnings = [];
}

abbrev morning : List (BusStep ℕ)
morning =
    published 10 7
    ∷ published 20 8
    ∷ published 30 9
    ∷ taken "log"
    ∷ taken "ui"
    ∷ closed
    ∷ published 40 10
    ∷ []

own_queue_example :
    queue_of "ui" (run_bus morning small)
    ≡ some (run_queue (own_history "ui" false morning) (record { maxsize = 2; items = [] }))
unfolding find
own_queue_example = own_queue "ui" morning small (record { maxsize = 2; items = [] }) refl

abbrev with_ui : EventBus ℕ
with_ui = record {
  subscriptions =
      (record { name = "ui"; queue = record { maxsize = 2; items = [] }; last_overflow_log = 0 })
      ∷ [];
  closed = false;
  warnings = [];
}

abbrev three : List (ℕ × ℕ)
three = (10, 7) ∷ (20, 8) ∷ (30, 9) ∷ []

unread_newest_example :
    (q : Queue ℕ) × ((queue_of "ui" (publish_all three with_ui) ≡ some q)
      × (q.items ≡ newest 2 (events three)))
unfolding subscribe
unread_newest_example = unread_newest "ui" 2 three empty_bus with_ui (omega arith) refl

abbrev zero_based : CarSlotMapping
zero_based = record { mapping_mode = MappingMode.zero_based; slot_to_car_id = []; locked = false }

abbrev calls : List (Option ℤ)
calls = some (pos 9) ∷ none ∷ some (negsuc 0) ∷ some (pos 3) ∷ []

slot_keeps_car_example :
    ((pos 1 ≤ℤ pos 6) × (pos 6 ≤ℤ pos 6))
    × (normalize_slot
          (normalize_all calls (normalize_slot zero_based (some (pos 5))).1)
          (some (pos 5))
        ≡ (some (pos 6), normalize_all calls (normalize_slot zero_based (some (pos 5))).1))
unfolding normalize_slot carrera_monitor.Prelude.Int.◌+ℤ◌
slot_keeps_car_example = slot_keeps_car zero_based (pos 5) (pos 6) calls refl

abbrev tracker : LinkHealthTracker
tracker = record {
  warning_threshold = 5;
  hard_threshold = 15;
  link = record { state = healthy; timeout_streak = 0; last_frame_at_ms = 0; reason = none };
}

timeouts_classified_example :
    ((timeouts 16 (on_frame 100 tracker)).link.timeout_streak ≡ 16)
    × ((timeouts 16 (on_frame 100 tracker)).link.state ≡ stalled)
timeouts_classified_example = timeouts_classified tracker 100 16 (omega arith) (omega arith)

abbrev ops : FloatOps ℕ
ops = record { of_nat = λ n. n; less = ltb; divide = λ a b. a / b }

abbrev lap_of_car : ℕ → ℕ → ℕ → ℕ × TelemetryEvent ℕ
lap_of_car c n t = (
  n,
  record {
    timestamp_iso = n;
    timestamp_monotonic_ms = n;
    source = Source.mock;
    car_id = some c;
    controller_id = none;
    payload = Payload.lap n t none;
  },
)

abbrev stint : List (ℕ × TelemetryEvent ℕ)
stint = lap_of_car 1 1 6400 ∷ lap_of_car 2 1 7000 ∷ lap_of_car 1 2 6100 ∷ lap_of_car 1 3 6300 ∷ []

aggregates_of_laps_example :
    let car = car_at 1 (apply_all ops stint (new_manager 3000 0)).cars in
    (car.lap_samples ≡ 3)
    × ((car.lap_total_ms ≡ 18800)
        × ((car.best_lap_ms ≡ some 6100) × ((car.latest_lap_ms ≡ some 6300) × (car.lap_count ≡ 3))))
aggregates_of_laps_example = aggregates_of_laps ops 1 3000 0 stint refl

apply_all-IsCounted_example : IsCounted (apply_all ops stint (new_manager 3000 0))
apply_all-IsCounted_example = apply_all-IsCounted ops stint (new_manager 3000 0) refl

recent_events_example :
    (apply_all ops stint (new_manager 3000 0)).recent
    ≡ take recent_events_max (newest_first stint [])
recent_events_example = recent_events ops stint [] (new_manager 3000 0) refl

-- A dashboard that does not read, over two seconds.
abbrev full_ui : Subscription ℕ
full_ui = record {
  name = "ui";
  queue = record { maxsize = 1; items = 6 ∷ [] };
  last_overflow_log = 0;
}

abbrev burst : List (ℕ × ℕ)
burst = (1000000, 7) ∷ (1500000, 8) ∷ (2000000, 9) ∷ []

warnings_of-IsSpaced_example : IsSpaced 0 (warnings_of burst full_ui)
warnings_of-IsSpaced_example = warnings_of-IsSpaced burst full_ui
