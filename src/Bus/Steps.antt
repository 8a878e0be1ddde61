-- ===== src/Bus/Steps.antt =====
-- What can happen to an event bus, and to one queue of it.
use carrera_monitor.Prelude.{ℕ, String, str_eq, Bool, true, List, [], ◌∷◌, if◌then◌else◌}
use carrera_monitor.Queue.{Queue, drop_oldest, offer}
use carrera_monitor.Bus.{EventBus, Subscription, Subscribed, ok, err, subscribe, publish, close}

-- What happens to a bus: a publish at a time, a read by the subscriber of a name, a subscription
-- (one that raises changes nothing), and the close.
pub data BusStep {ℓ} (E : Type ℓ) : Type ℓ where
  published : ℕ → E → BusStep E
  taken : String → BusStep E
  subscribed : String → ℕ → BusStep E
  closed : BusStep E

pub data QueueStep {ℓ} (E : Type ℓ) : Type ℓ where
  put : E → QueueStep E
  get : QueueStep E

module _ {ℓ} {E : Type ℓ} where
  abbrev pub run_queue : List (QueueStep E) → Queue E → Queue E
  run_queue [] q = q
  run_queue (put e ∷ h) q = run_queue h (offer q e)
  run_queue (get ∷ h) q = run_queue h (drop_oldest q)

  abbrev pub take_from : String → List (Subscription E) → List (Subscription E)
  take_from name [] = []
  take_from name (s ∷ ss) =
      let rest = take_from name ss in
      if str_eq s.name name then record s { queue = drop_oldest s.queue } ∷ ss else s ∷ rest

  abbrev pub or_unchanged : EventBus E → Subscribed (EventBus E) → EventBus E
  or_unchanged bus (ok bus') = bus'
  or_unchanged bus (err e) = bus

  abbrev pub step : BusStep E → EventBus E → EventBus E
  step (published now e) bus = publish now e bus
  step (taken name) bus = record bus { subscriptions = take_from name bus.subscriptions }
  step (subscribed name m) bus = or_unchanged bus (subscribe name m bus)
  step closed bus = close bus

  abbrev pub run_bus : List (BusStep E) → EventBus E → EventBus E
  run_bus [] bus = bus
  run_bus (x ∷ h) bus = run_bus h (step x bus)

  -- The part of a history that the subscriber of a name sees, on a bus that is closed or not.
  abbrev pub own_history : String → Bool → List (BusStep E) → List (QueueStep E)
  own_history name shut [] = []
  own_history name shut (published now e ∷ h) =
      let rest = own_history name shut h in if shut then rest else put e ∷ rest
  own_history name shut (taken n ∷ h) =
      let rest = own_history name shut h in if str_eq n name then get ∷ rest else rest
  own_history name shut (subscribed n m ∷ h) = own_history name shut h
  own_history name shut (closed ∷ h) = own_history name true h
