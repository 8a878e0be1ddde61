-- ===== src/Bus/Isolation.antt =====
-- A subscriber's queue depends on nothing but its own history.
use carrera_monitor.Prelude.{
  ℕ, String, str_eq, eq_iff, Bool, true, false, ◌≡◌, refl, sym, ap, ◌∙◌, inl, inr, some, is_some,
  List, [], ◌∷◌, if◌then◌else◌, arith, Bool-cases,
}
use carrera_monitor.Queue.{Queue, drop_oldest, offer}
use carrera_monitor.Bus.{EventBus, err, queue_of, runtime_error, subscribe, publish, close}
use carrera_monitor.Bus.Steps.{
  BusStep, published, taken, subscribed, closed, put, get, run_queue, run_bus, step, own_history,
  or_unchanged,
}
use carrera_monitor.Bus.Find.{find-deliver, find-append, find-take_from, find-take_from_other}

module _ {ℓ} {E : Type ℓ} where
  -- A bus and a queue that the same step leaves in agreement.
  abbrev Holds : String → EventBus E → Queue E → Type ℓ
  Holds name bus q = queue_of name bus ≡ some q

  publish_open :
      (name : String) (now : ℕ) (e : E) (bus : EventBus E) (q : Queue E)
      → bus.closed ≡ false
      → Holds name bus q
      → Holds name (publish now e bus) (offer q e) × ((publish now e bus).closed ≡ false)
  unfolding publish
  publish_open name now e bus q h i = rw (h) ((find-deliver name now e bus.subscriptions q i, refl))

  publish_closed :
      (now : ℕ) (e : E) (bus : EventBus E) → bus.closed ≡ true → publish now e bus ≡ bus
  unfolding publish
  publish_closed now e bus h = ground arith

  subscribe_keeps_open :
      (name n : String) (m : ℕ) (bus : EventBus E) (q : Queue E)
      → bus.closed ≡ false
      → Holds name bus q
      → Holds name (or_unchanged bus (subscribe n m bus)) q
        × ((or_unchanged bus (subscribe n m bus)).closed ≡ bus.closed)
  unfolding subscribe
  subscribe_keeps_open name n m bus q h i = elim (Bool-cases (is_some (queue_of n bus))) [
    | inl known ↦ rw (h, known) ((i, refl))
    | inr new ↦ rw (h, new) ((find-append name bus.subscriptions _ q i, refl))
  ]

  subscribe_closed :
      (n : String) (m : ℕ) (bus : EventBus E)
      → bus.closed ≡ true
      → subscribe n m bus ≡ err runtime_error
  unfolding subscribe
  subscribe_closed n m bus h = rw (h) refl

  subscribe_keeps :
      (name n : String) (m : ℕ) (bus : EventBus E) (q : Queue E)
      → Holds name bus q
      → Holds name (step (subscribed n m) bus) q × ((step (subscribed n m) bus).closed ≡ bus.closed)
  subscribe_keeps name n m bus q h = elim (Bool-cases bus.closed) [
    | inl shut ↦
        let raised : subscribe n m bus ≡ err runtime_error = subscribe_closed n m bus shut in
        rw (raised) ((h, refl))
    | inr running ↦ subscribe_keeps_open name n m bus q running h
  ]

  own-published :
      (name : String) (c : Bool) (now : ℕ) (e : E) (h : List (BusStep E))
      → own_history name c (published now e ∷ h)
        ≡ (if c then own_history name c h else put e ∷ own_history name c h)
  own-published name c now e h = refl

  own-taken :
      (name n : String) (c : Bool) (h : List (BusStep E))
      → own_history name c (taken n ∷ h)
        ≡ (if str_eq n name then get ∷ own_history name c h else own_history name c h)
  own-taken name n c h = refl

  -- What the queue of a subscriber holds, after any publishes, reads, subscriptions and closes, is
  -- what a single queue holds after that subscriber's own part of the history: the publishes before
  -- a close, and its own reads.
  pub own_queue :
      (name : String) (h : List (BusStep E)) (bus : EventBus E) (q : Queue E)
      → queue_of name bus ≡ some q
      → queue_of name (run_bus h bus) ≡ some (run_queue (own_history name bus.closed h) q)
  unfolding close
  own_queue name [] bus q i = i
  own_queue name (published now e ∷ h) bus q i = elim (Bool-cases bus.closed) [
    | inl shut ↦
        ap (λ b. queue_of name (run_bus h b)) (publish_closed now e bus shut)
        ∙ own_queue name h bus q i
        ∙ ap (λ l. some (run_queue l q))
            (ap
                (λ c.
                  if c
                  then own_history name bus.closed h
                  else put e ∷ own_history name bus.closed h)
                (sym shut)
              ∙ sym (own-published name bus.closed now e h))
    | inr running ↦
        let (j, same) = publish_open name now e bus q running i in
        own_queue name h (publish now e bus) (offer q e) j
        ∙ ap (λ c. some (run_queue (own_history name c h) (offer q e))) (same ∙ sym running)
        ∙ ap
            (λ c. some (
              run_queue
                (if c then own_history name bus.closed h else put e ∷ own_history name bus.closed h)
                q))
            (sym running)
  ]
  own_queue name (taken n ∷ h) bus q i = elim (Bool-cases (str_eq n name)) [
    | inl own ↦
        own_queue name h (step (taken n) bus) (drop_oldest q)
          (rw ((eq_iff n name).0 own) (find-take_from name bus.subscriptions q i))
        ∙ ap
            (λ c. some (
              run_queue
                (if c then get ∷ own_history name bus.closed h else own_history name bus.closed h)
                q))
            (sym own)
    | inr other ↦
        own_queue name h (step (taken n) bus) q
          (find-take_from_other name n bus.subscriptions q other i)
        ∙ ap
            (λ c. some (
              run_queue
                (if c then get ∷ own_history name bus.closed h else own_history name bus.closed h)
                q))
            (sym other)
  ]
  own_queue name (subscribed n m ∷ h) bus q i =
      let (j, same) = subscribe_keeps name n m bus q i in
      own_queue name h (step (subscribed n m) bus) q j
      ∙ ap (λ c. some (run_queue (own_history name c h) q)) same
  own_queue name (closed ∷ h) bus q i = own_queue name h (close bus) q i
