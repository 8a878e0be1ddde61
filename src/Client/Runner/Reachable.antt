-- ===== src/Client/Runner/Reachable.antt =====
-- The states that a runner reaches.
use carrera_monitor.Prelude.{
  ℕ, ◌+◌, ◌*◌, ◌==◌, ◌≤◌, String, Bool, ◌≡◌, refl, sym, inl, inr, Option, none, some, arith,
  Bool-cases,
}
use Prim.Native.Nat.{min, max}
use carrera_monitor.Event.{TelemetryEvent, ConnectionState, connected, disconnected, reconnecting}
use mathlib.Core.Path.{subst}
use mathlib.Core.Option.{some-ne-none}
use carrera_monitor.Queue.{offer}
use carrera_monitor.Client.Frames.{Stamp}
use carrera_monitor.Client.Runner.{
  Phase, Runner, new_runner, start, begin, rest, request_stop, connect_succeeded, connect_failed,
  slept, pump_event, stream_ended, read_failed, pump_raised, closed, aborted, emit_connection,
  periodic_reconnect_due, after_finally, race_state_or,
}

-- In a phase, the state that was told last, and the adapter.
abbrev pub PhaseHolds : ConnectionState → Option Bool → Phase → Type 0
PhaseHolds st a Phase.opening = Unit
PhaseHolds st a Phase.pumping = st ≡ connected
PhaseHolds st a Phase.closing = Unit
PhaseHolds st a Phase.sleeping = a ≡ none
PhaseHolds st a Phase.ended = st ≡ disconnected

PhaseHolds-none :
    (st : ConnectionState) (a : Option Bool) (p : Phase) → PhaseHolds st a p → PhaseHolds st none p
PhaseHolds-none st a Phase.opening h = tt
PhaseHolds-none st a Phase.pumping h = h
PhaseHolds-none st a Phase.closing h = tt
PhaseHolds-none st a Phase.sleeping h = refl
PhaseHolds-none st a Phase.ended h = h

sleeping-none :
    (st : ConnectionState) (a : Option Bool) (p : Phase)
    → p ≡ Phase.sleeping
    → PhaseHolds st a p
    → a ≡ none
sleeping-none st a p h = subst (λ q. PhaseHolds st a q → a ≡ none) (sym h) (λ x. x)

-- An adapter resets the clock of the control unit in the first attempt.
abbrev pub ClockHolds : Option Bool → ℕ → Type 0
ClockHolds none attempt = Unit
ClockHolds (some b) attempt = b ≡ (attempt == 0)

ClockHolds-none : (a : Option Bool) (attempt : ℕ) → a ≡ none → ClockHolds a attempt
ClockHolds-none none attempt h = tt
ClockHolds-none (some b) attempt h = absurd (some-ne-none b h)

ClockHolds-after_finally :
    (p : Phase) (a : Option Bool) (attempt : ℕ)
    → ClockHolds a attempt
    → ClockHolds (after_finally p a) attempt
ClockHolds-after_finally Phase.opening a attempt h = h
ClockHolds-after_finally Phase.pumping a attempt h = tt
ClockHolds-after_finally Phase.closing a attempt h = tt
ClockHolds-after_finally Phase.sleeping a attempt h = h
ClockHolds-after_finally Phase.ended a attempt h = h

module _ {F : Type 0} where
  -- What the task does next, where it waits, or a call of `connect` or `disconnect`.
  pub data RunnerStep : Runner F → Runner F → Type 0 where
    starts :
        (now : Stamp) (mac : Option String) {r : Runner F}
        → r.phase ≡ Phase.ended
        → RunnerStep r (start now mac r)
    stops : {r : Runner F} → RunnerStep r (request_stop r)
    connects :
        (now : Stamp) {r : Runner F}
        → r.phase ≡ Phase.opening
        → RunnerStep r (connect_succeeded now r)
    fails :
        (now : Stamp) (text : String) {r : Runner F}
        → r.phase ≡ Phase.opening
        → RunnerStep r (connect_failed now text r)
    pumps :
        (now : Stamp) (ev : TelemetryEvent F) {r : Runner F}
        → r.phase ≡ Phase.pumping
        → RunnerStep r (pump_event now ev r)
    runs_out : {r : Runner F} → r.phase ≡ Phase.pumping → RunnerStep r (stream_ended r)
    misreads :
        (now : Stamp) (text : String) {r : Runner F}
        → r.phase ≡ Phase.pumping
        → RunnerStep r (read_failed now text r)
    raises :
        (now : Stamp) (text : String) {r : Runner F}
        → r.phase ≡ Phase.pumping
        → RunnerStep r (pump_raised now text r)
    closes : (now : Stamp) {r : Runner F} → r.phase ≡ Phase.closing → RunnerStep r (closed now r)
    wakes : (now : Stamp) {r : Runner F} → r.phase ≡ Phase.sleeping → RunnerStep r (slept now r)
    aborts : (now : Stamp) {r : Runner F} → RunnerStep r (aborted now r)

  infix 40 ◌⟶*◌
  pub data ◌⟶*◌ : Runner F → Runner F → Type 0 where
    done : {r : Runner F} → r ⟶* r
    step : {r s t : Runner F} → RunnerStep r s → s ⟶* t → r ⟶* t

  unfoldable pub RunnerIsValid : Runner F → Type 0
  RunnerIsValid r =
      (r.reconnect_initial ≤ r.backoff)
      × ((r.backoff ≤ r.reconnect_max)
          × (ClockHolds r.current r.attempt × PhaseHolds r.state r.current r.phase))

  begin-IsValid :
      (now : Stamp) (r : Runner F)
      → r.reconnect_initial ≤ r.backoff
      → r.backoff ≤ r.reconnect_max
      → ClockHolds r.current r.attempt
      → RunnerIsValid (begin now r)
  unfolding RunnerIsValid begin emit_connection
  begin-IsValid now r low high clock = elim (Bool-cases r.stop) [
    | inl stopped ↦ rw (stopped) ((low, (high, (clock, refl))))
    | inr on ↦ rw (on) ((low, (high, (refl, tt))))
  ]

  rest-IsValid :
      (now : Stamp) (r : Runner F)
      → r.reconnect_initial ≤ r.backoff
      → r.backoff ≤ r.reconnect_max
      → r.current ≡ none
      → RunnerIsValid (rest now r)
  unfolding RunnerIsValid rest emit_connection
  rest-IsValid now r low high empty = elim (Bool-cases r.stop) [
    | inl stopped ↦ rw (stopped) ((low, (high, (ClockHolds-none r.current r.attempt empty, refl))))
    | inr on ↦ rw (on) ((low, (high, (ClockHolds-none r.current r.attempt empty, empty))))
  ]

  pump_event-IsValid :
      (now : Stamp) (ev : TelemetryEvent F) (r : Runner F)
      → RunnerIsValid r
      → RunnerIsValid (pump_event now ev r)
  unfolding RunnerIsValid pump_event emit_connection
  pump_event-IsValid now ev r (low, (high, (clock, phase))) = elim (Bool-cases r.stop) [
    | inl stopped ↦ rw (stopped) ((low, (high, (clock, tt))))
    | inr on ↦
        elim (Bool-cases (
          periodic_reconnect_due now.monotonic_ms (record r {
            latest_race_state = race_state_or r.latest_race_state ev.payload;
            queue = offer r.queue ev;
          }))) [
            | inl due ↦ rw (on, due) ((low, (high, (clock, tt))))
            | inr go_on ↦ rw (on, go_on) ((low, (high, (clock, phase))))
          ]
  ]

  step-IsValid : {r s : Runner F} → RunnerStep r s → RunnerIsValid r → RunnerIsValid s
  unfolding RunnerIsValid start begin emit_connection request_stop connect_succeeded connect_failed
      stream_ended read_failed pump_raised closed slept aborted
  step-IsValid (starts now mac {r} h) (low, (high, (clock, phase))) =
      (ground arith, (ground arith, (refl, tt)))
  step-IsValid (stops {r}) (low, (high, (clock, phase))) =
      (low, (high, (tt, PhaseHolds-none r.state r.current r.phase phase)))
  step-IsValid (connects now {r} h) (low, (high, (clock, phase))) =
      (ground arith, (ground arith, (clock, refl)))
  step-IsValid (fails now text {r} h) (low, (high, (clock, phase))) =
      let s : Runner F =
        record (emit_connection now reconnecting (some text) (some "connect_failed") r) {
          current = none;
        } in
      rest-IsValid now s low high refl
  step-IsValid (pumps now ev {r} h) (low, (high, (clock, phase))) =
      pump_event-IsValid now ev r (low, (high, (clock, phase)))
  step-IsValid (runs_out {r} h) (low, (high, (clock, phase))) = (low, (high, (clock, tt)))
  step-IsValid (misreads now text {r} h) (low, (high, (clock, phase))) = (low, (high, (clock, tt)))
  step-IsValid (raises now text {r} h) (low, (high, (clock, phase))) = (low, (high, (clock, tt)))
  step-IsValid (closes now {r} h) (low, (high, (clock, phase))) =
      rest-IsValid now (record r { current = none }) low high refl
  step-IsValid (wakes now {r} h) (low, (high, (clock, phase))) =
      let empty = sleeping-none r.state r.current r.phase h phase in
      let s : Runner F = record r {
        backoff = min (max 1 (r.backoff * 2)) r.reconnect_max;
        attempt = r.attempt + 1;
      } in
      let above : r.reconnect_initial ≤ min (max 1 (r.backoff * 2)) r.reconnect_max = omega arith in
      let below : min (max 1 (r.backoff * 2)) r.reconnect_max ≤ r.reconnect_max = omega arith in
      begin-IsValid now s above below (ClockHolds-none r.current (r.attempt + 1) empty)
  step-IsValid (aborts now {r}) (low, (high, (clock, phase))) =
      (low, (high, (ClockHolds-after_finally r.phase r.current r.attempt clock, refl)))

  steps-IsValid : {r s : Runner F} → r ⟶* s → RunnerIsValid r → RunnerIsValid s
  steps-IsValid done h = h
  steps-IsValid (step x xs) h = steps-IsValid xs (step-IsValid x h)

  -- Whatever steps a new runner takes, its backoff stays between the two configured intervals
  -- (the upper one raised to the lower), an adapter that it holds resets the clock of the control
  -- unit exactly in the first attempt since the runner was started, while it reads events its
  -- state is connected, while it sleeps it holds no adapter, and once its task has ended its state
  -- is disconnected.
  pub reachable-RunnerIsValid :
      (mac : Option String) (interval max_interval periodic : ℕ) (only_idle : Bool) (r : Runner F)
      → new_runner mac interval max_interval periodic only_idle ⟶* r
      → RunnerIsValid r
  unfolding RunnerIsValid new_runner
  reachable-RunnerIsValid mac interval max_interval periodic only_idle r steps =
      steps-IsValid steps (omega arith, (omega arith, (tt, refl)))
