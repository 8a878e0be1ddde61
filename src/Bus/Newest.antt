-- ===== src/Bus/Newest.antt =====
-- A subscriber that does not read keeps the newest events.
use carrera_monitor.Prelude.{
  ℕ, ◌<◌, String, str_eq, eq_iff, true, false, ◌≡◌, refl, sym, ap, ◌∙◌, inl, inr, none, some, List,
  [], ◌∷◌, ◌++◌, arith, Bool-cases, Option-cases,
}
use carrera_monitor.Queue.{Queue, offer, offer_all}
use carrera_monitor.Queue.DropOldest.{newest, offer_all-newest}
use carrera_monitor.Bus.{EventBus, Subscription, ok, find, queue_of, subscribe, publish}
use carrera_monitor.Bus.Steps.{BusStep, published, run_queue, run_bus, own_history}
use carrera_monitor.Bus.Isolation.{own_queue}

module _ {ℓ} {E : Type ℓ} where
  find-new :
      (name : String) (ss : List (Subscription E)) (s : Subscription E)
      → find name ss ≡ none
      → str_eq s.name name ≡ true
      → find name (ss ++ s ∷ []) ≡ some s.queue
  unfolding find
  find-new name [] s h is = rw (is) refl
  find-new name (x ∷ ss) s h is = ground (arith, find-new name ss s)

  subscribe_ok :
      (name : String) (m : ℕ) (bus bus' : EventBus E)
      → subscribe name m bus ≡ ok bus'
      → (queue_of name bus' ≡ some (record { maxsize = m; items = [] })) × (bus'.closed ≡ false)
  unfolding subscribe
  subscribe_ok name m bus bus' h = elim (Bool-cases bus.closed) [
    | inl shut ↦ ground arith
    | inr running ↦ elim (Option-cases (queue_of name bus)) [
      | inl new ↦
          let held : find name bus'.subscriptions ≡ some (record { maxsize = m; items = [] }) =
            ground (
              arith,
              find-new name bus.subscriptions
                  (record {
                    name = name;
                    queue = record { maxsize = m; items = [] };
                    last_overflow_log = 0;
                  })
                  new ((eq_iff name name).1 refl),
            ) in
          (held, ground arith)
      | inr (q, known) ↦ ground arith
    ]
  ]

  abbrev pub publish_all : List (ℕ × E) → EventBus E → EventBus E
  publish_all [] bus = bus
  publish_all ((now, e) ∷ es) bus = publish_all es (publish now e bus)

  abbrev steps : List (ℕ × E) → List (BusStep E)
  steps [] = []
  steps ((now, e) ∷ es) = published now e ∷ steps es

  abbrev pub events : List (ℕ × E) → List E
  events [] = []
  events ((now, e) ∷ es) = e ∷ events es

  run_bus-steps :
      (es : List (ℕ × E)) (bus : EventBus E) → run_bus (steps es) bus ≡ publish_all es bus
  run_bus-steps [] bus = refl
  run_bus-steps ((now, e) ∷ es) bus = run_bus-steps es (publish now e bus)

  run_queue-steps :
      (name : String) (es : List (ℕ × E)) (q : Queue E)
      → run_queue (own_history name false (steps es)) q ≡ offer_all q (events es)
  unfolding offer_all
  run_queue-steps name [] q = refl
  run_queue-steps name ((now, e) ∷ es) q = run_queue-steps name es (offer q e)

  -- A new subscriber with a positive maxsize, which does not read, holds the newest maxsize of the
  -- events that are published after it subscribed, in their order, whatever the other subscribers
  -- are.
  pub unread_newest :
      (name : String) (m : ℕ) (es : List (ℕ × E)) (bus bus' : EventBus E)
      → 0 < m
      → subscribe name m bus ≡ ok bus'
      → (q : Queue E) × ((queue_of name (publish_all es bus') ≡ some q)
          × (q.items ≡ newest m (events es)))
  unread_newest name m es bus bus' pos h =
      let q0 : Queue E = record { maxsize = m; items = [] } in
      let (held, running) = subscribe_ok name m bus bus' h in
      (
        offer_all q0 (events es),
        (
          ap (queue_of name) (sym (run_bus-steps es bus'))
              ∙ own_queue name (steps es) bus' q0 held
              ∙ ap some (
                  ap (λ c. run_queue (own_history name c (steps es)) q0) running
                  ∙ run_queue-steps name es q0),
          offer_all-newest q0 (events es) pos (omega arith),
        ),
      )
