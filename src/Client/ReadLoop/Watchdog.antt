-- ===== src/Client/ReadLoop/Watchdog.antt =====
-- How long a silent link is waited for.
use carrera_monitor.Prelude.{
  ◌+◌, ◌<◌, Bool, true, false, ◌≡◌, refl, ◌∙◌, inl, inr, leb, List, [], ◌∷◌, length, arith,
  Bool-cases,
}
use carrera_monitor.Value.{Python}
use carrera_monitor.Continuity.{LinkHealthStatus}
use carrera_monitor.Client.Frames.{Stamp}
use carrera_monitor.Client.ReadLoop.{
  Frame, timeout, Reader, Round, goes_on, read_error, read_round, timed_out, warned, warn_degraded,
  emit_link_health,
}

module _ {F : Type 0} where
  -- Rounds in turn, until the loop ends.
  abbrev pub then_round : Round F → (Reader F → Round F) → Round F
  then_round (goes_on r) k = k r
  then_round (read_error r) k = read_error r

  abbrev pub has_ended : Round F → Bool
  has_ended (goes_on r) = false
  has_ended (read_error r) = true

  -- Polls that time out, one at each of some times.
  abbrev pub silence :
      Python F → Bool → (Frame F → Frame F → Bool) → List Stamp → Reader F → Round F
  silence py debug same [] r = goes_on r
  silence py debug same (now ∷ ts) r =
      then_round (read_round py debug same now timeout r) (silence py debug same ts)

  warn_degraded-streaks :
      (now : Stamp) (t : Reader F) (state : LinkHealthStatus)
      → ((warn_degraded now t state).idle_timeout ≡ t.idle_timeout)
        × ((warn_degraded now t state).timeout_streak ≡ t.timeout_streak)
  unfolding emit_link_health
  warn_degraded-streaks now t LinkHealthStatus.healthy = (refl, refl)
  warn_degraded-streaks now t LinkHealthStatus.degraded = (refl, refl)
  warn_degraded-streaks now t LinkHealthStatus.stalled = (refl, refl)
  warn_degraded-streaks now t LinkHealthStatus.reconnecting = (refl, refl)

  warned-streaks :
      (now : Stamp) (r : Reader F)
      → ((warned now r).idle_timeout ≡ r.idle_timeout)
        × ((warned now r).timeout_streak ≡ r.timeout_streak + 1)
  unfolding warned
  warned-streaks now r = warn_degraded-streaks now _ _

  -- From a loop whose streak of timeouts is below its limit, polls that time out end the loop
  -- exactly when they bring the streak to the limit.
  pub silence_ends :
      (py : Python F) (debug : Bool) (same : Frame F → Frame F → Bool) (ts : List Stamp)
      → (r : Reader F) → r.timeout_streak < r.idle_timeout
      → has_ended (silence py debug same ts r) ≡ leb r.idle_timeout (r.timeout_streak + length ts)
  unfolding read_round timed_out
  silence_ends py debug same [] r below = ground arith
  silence_ends py debug same (now ∷ ts) r below =
      elim (Bool-cases (leb r.idle_timeout (r.timeout_streak + 1))) [
        | inl late ↦ rw (late) (ground arith)
        | inr early ↦
            let (limit, streak) = warned-streaks now r in
            let ih = silence_ends py debug same ts (warned now r) (ground arith) in
            rw (early) (ih ∙ ground arith)
      ]
