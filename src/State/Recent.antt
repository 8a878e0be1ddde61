-- ===== src/State/Recent.antt =====
-- The buffer of recent events holds the newest ones.
use carrera_monitor.Prelude.{
  ℕ, zero, suc, ◌≡◌, refl, sym, ap, ◌∙◌, Option, none, some, List, [], ◌∷◌, take, Bool-cases, inl,
  inr, ltb,
}
use carrera_monitor.Event.{TelemetryEvent, Payload, ConnectionPayload}
use carrera_monitor.State.Model.{FloatOps, StateManager, CarState, recent_events_max}
use carrera_monitor.State.Apply.{
  change_some, apply_lap, connection_changed, apply_connection, apply_payload, apply, apply_all,
  canonical,
}

take-take : {A : Type 0} (n : ℕ) (xs : List A) → take n (take (suc n) xs) ≡ take n xs
take-take zero xs = refl
take-take (suc n) [] = refl
take-take (suc n) (x ∷ xs) = ap (x ∷◌) (take-take n xs)

take-same :
    {A : Type 0} (n : ℕ) (x : A) (xs ys : List A)
    → take n xs ≡ take n ys
    → take n (x ∷ xs) ≡ take n (x ∷ ys)
take-same zero x xs ys h = refl
take-same (suc n) x xs ys h = ap (x ∷◌) (sym (take-take n xs) ∙ ap (take n) h ∙ take-take n ys)

take-idempotent : {A : Type 0} (n : ℕ) (xs : List A) → take n (take n xs) ≡ take n xs
take-idempotent zero xs = refl
take-idempotent (suc n) [] = refl
take-idempotent (suc n) (x ∷ xs) = ap (x ∷◌) (take-idempotent n xs)

take-push :
    {A : Type 0} (n : ℕ) (x : A) (xs old : List A)
    → xs ≡ take n old
    → take n (x ∷ xs) ≡ take n (x ∷ old)
take-push n x xs old h = take-same n x xs old (ap (take n) h ∙ take-idempotent n old)

module _ {F : Type 0} where
  -- Some events, with the newest first, before older ones.
  abbrev pub newest_first :
      List (ℕ × TelemetryEvent F) → List (TelemetryEvent F) → List (TelemetryEvent F)
  newest_first [] old = old
  newest_first ((clock, e) ∷ es) old = newest_first es (e ∷ old)

  change_recent :
      (car : Option ℕ) (f : CarState F → CarState F) (s : StateManager F)
      → (change_some car f s).recent ≡ s.recent
  change_recent none f s = refl
  change_recent (some c) f s = refl

  lap_recent :
      (car : Option ℕ) (n t now : ℕ) (p : Payload F) (s : StateManager F)
      → (apply_lap car n t now p s).recent ≡ s.recent
  unfolding apply_lap
  lap_recent none n t now p s = refl
  lap_recent (some c) n t now p s = elim (Bool-cases (ltb n 1)) [
    | inl few ↦ rw (few) refl
    | inr many ↦ rw (many) refl
  ]

  connection_recent :
      (now : ℕ) (p : ConnectionPayload) (s : StateManager F)
      → (apply_connection now p s).recent ≡ s.recent
  unfolding apply_connection
  connection_recent now p s = elim (Bool-cases (connection_changed p s.connection)) [
    | inl e ↦ rw (e) refl
    | inr e ↦ rw (e) refl
  ]

  payload_recent :
      (ops : FloatOps F) (car : Option ℕ) (now : ℕ) (p : Payload F) (s : StateManager F)
      → (apply_payload ops car now p s).recent ≡ s.recent
  unfolding apply_payload
  payload_recent ops car now (Payload.lap n t cu) s = lap_recent car n t now (Payload.lap n t cu) s
  payload_recent ops car now (Payload.fuel level) s = change_recent car _ s
  payload_recent ops car now (Payload.pitlane in_pit reason) s = change_recent car _ s
  payload_recent ops car now (Payload.speed v) s = change_recent car _ s
  payload_recent ops car now (Payload.controller_input throttle brake) s = change_recent car _ s
  payload_recent ops car now (Payload.race_state r) s = refl
  payload_recent ops car now (Payload.connection_state p) s = connection_recent now p s
  payload_recent ops car now (Payload.brake b) s = refl
  payload_recent ops car now Payload.raw s = refl
  payload_recent ops car now (Payload.not_supported why) s = refl

  apply_recent :
      (ops : FloatOps F) (clock : ℕ) (e : TelemetryEvent F) (s : StateManager F)
      → (apply ops clock e s).recent ≡ take recent_events_max (e ∷ s.recent)
  unfolding apply
  apply_recent ops clock e s =
      payload_recent ops (canonical e.car_id) e.timestamp_monotonic_ms e.payload _

  -- From a state whose recent events are the newest hundred of some list, any events lead to a
  -- state whose recent events are the newest hundred of the list that has these events in front.
  pub recent_events :
      (ops : FloatOps F) (es : List (ℕ × TelemetryEvent F)) (old : List (TelemetryEvent F))
      → (s : StateManager F) → s.recent ≡ take recent_events_max old
      → (apply_all ops es s).recent ≡ take recent_events_max (newest_first es old)
  recent_events ops [] old s h = h
  recent_events ops ((clock, e) ∷ es) old s h =
      recent_events ops es (e ∷ old) (apply ops clock e s)
        (apply_recent ops clock e s ∙ take-push recent_events_max e s.recent old h)
