-- ===== src/Bus.antt =====
-- event_bus.py: `EventBus`. The two dictionaries of the class, whose keys are the same names, are
-- one list of subscriptions in the order in which they were made. Times of the monotonic clock are
-- microseconds; a publish reads the clock once. The warnings are the lines that the logger gets.
pub mod Steps
mod Find
pub mod Isolation
pub mod Newest
pub mod Warnings
use carrera_monitor.Prelude.{
  ℕ, ◌+◌, String, str_eq, Bool, true, false, Option, none, some, is_some, List, [], ◌∷◌, ◌++◌, map,
  leb, if◌then◌else◌,
}
use carrera_monitor.Queue.{Queue, put_nowait, get_nowait, offer}

pub data BusError : Type 0 where
  runtime_error value_error : BusError

pub data Subscribed {ℓ} (A : Type ℓ) : Type ℓ where
  ok : A → Subscribed A
  err : BusError → Subscribed A

pub record Warning : Type 0 where
  pub subscriber : String
  pub at : ℕ

pub record Subscription {ℓ} (E : Type ℓ) : Type ℓ where
  pub name : String
  pub queue : Queue E
  pub last_overflow_log : ℕ

pub record EventBus {ℓ} (E : Type ℓ) : Type ℓ where
  pub subscriptions : List (Subscription E)
  pub closed : Bool
  pub warnings : List Warning

abbrev pub overflow_log_interval : ℕ
overflow_log_interval = 1000000

abbrev pub log_time : ℕ → ℕ → List Warning → ℕ
log_time now last [] = last
log_time now last (w ∷ ws) = now

module _ {ℓ} {E : Type ℓ} where
  abbrev pub empty_bus : EventBus E
  empty_bus = record { subscriptions = []; closed = false; warnings = [] }

  unfoldable pub find : String → List (Subscription E) → Option (Queue E)
  find name [] = none
  find name (s ∷ ss) = if str_eq s.name name then some s.queue else find name ss

  abbrev pub queue_of : String → EventBus E → Option (Queue E)
  queue_of name bus = find name bus.subscriptions

  unfoldable pub subscribe : String → ℕ → EventBus E → Subscribed (EventBus E)
  unfolding find
  subscribe name maxsize bus =
      if bus.closed
      then err runtime_error
      else if is_some (queue_of name bus)
      then err value_error
      else ok (record bus {
        subscriptions =
            bus.subscriptions
            ++ (record {
              name = name;
              queue = record { maxsize = maxsize; items = [] };
              last_overflow_log = 0;
            })
              ∷ [];
      })

  -- The warnings of one delivery: `now - last >= 1.0` at an overflow.
  unfoldable pub overflow_warning : ℕ → E → Subscription E → List Warning
  unfolding put_nowait
  overflow_warning now e s = elim (put_nowait s.queue e) [
    | some q ↦ []
    | none ↦
        if leb (s.last_overflow_log + overflow_log_interval) now
        then (record { subscriber = s.name; at = now }) ∷ []
        else []
  ]

  -- The body of the loop of `publish`.
  unfoldable pub deliver : ℕ → E → Subscription E → Subscription E
  unfolding offer overflow_warning
  deliver now e s = record s {
    queue = offer s.queue e;
    last_overflow_log = log_time now s.last_overflow_log (overflow_warning now e s);
  }

  unfoldable pub all_warnings : ℕ → E → List (Subscription E) → List Warning
  unfolding overflow_warning
  all_warnings now e [] = []
  all_warnings now e (s ∷ ss) = overflow_warning now e s ++ all_warnings now e ss

  unfoldable pub publish : ℕ → E → EventBus E → EventBus E
  unfolding deliver all_warnings
  publish now e bus = if bus.closed then bus else record bus {
    subscriptions = map (deliver now e) bus.subscriptions;
    warnings = bus.warnings ++ all_warnings now e bus.subscriptions;
  }

  unfoldable pub close : EventBus E → EventBus E
  close bus = record bus { closed = true }

  abbrev pub subscribers : EventBus E → List String
  subscribers bus = map (λ s. s.name) bus.subscriptions
