-- ===== src/Continuity/Link.antt =====
-- The classification of the link by the timeouts since the last frame.
use carrera_monitor.Prelude.{ℕ, zero, suc, ◌+◌, ◌<◌, ◌≡◌, refl, leb, if◌then◌else◌, arith}
use carrera_monitor.Continuity.{
  LinkHealthTracker, LinkHealthStatus, healthy, degraded, stalled, on_timeout, on_frame,
}

abbrev pub timeouts : ℕ → LinkHealthTracker → LinkHealthTracker
timeouts zero t = t
timeouts (suc n) t = on_timeout (timeouts n t)

-- The health that a number of timeouts since the last frame means.
abbrev pub health_of : ℕ → ℕ → ℕ → LinkHealthStatus
health_of warning hard n =
    if leb hard n then stalled else if leb warning n then degraded else healthy

on_timeout_lem :
    (t : LinkHealthTracker)
    → ((on_timeout t).warning_threshold ≡ t.warning_threshold)
      × (((on_timeout t).hard_threshold ≡ t.hard_threshold)
          × (((on_timeout t).link.timeout_streak ≡ t.link.timeout_streak + 1)
              × ((on_timeout t).link.state ≡ (
                  if leb t.hard_threshold (t.link.timeout_streak + 1)
                  then stalled
                  else if leb t.warning_threshold (t.link.timeout_streak + 1)
                  then degraded
                  else t.link.state))))
unfolding on_timeout
on_timeout_lem t = ground arith

thresholds_kept :
    (n : ℕ) (t : LinkHealthTracker)
    → ((timeouts n t).warning_threshold ≡ t.warning_threshold)
      × ((timeouts n t).hard_threshold ≡ t.hard_threshold)
thresholds_kept zero t = (refl, refl)
thresholds_kept (suc n) t = ground (arith, thresholds_kept n t, on_timeout_lem (timeouts n t))

-- After a frame and then n timeouts, the streak is n, and the link is stalled where n reaches the
-- hard threshold, else degraded where n reaches the warning threshold, else healthy. Both
-- thresholds are positive.
pub timeouts_classified :
    (t : LinkHealthTracker) (now n : ℕ)
    → 0 < t.warning_threshold
    → 0 < t.hard_threshold
    → ((timeouts n (on_frame now t)).link.timeout_streak ≡ n)
      × ((timeouts n (on_frame now t)).link.state
          ≡ health_of t.warning_threshold t.hard_threshold n)
unfolding on_frame
timeouts_classified t now zero w h = (refl, ground arith)
timeouts_classified t now (suc n) w h = ground (
  arith,
  thresholds_kept n (on_frame now t),
  timeouts_classified t now n w h,
  on_timeout_lem (timeouts n (on_frame now t)),
)
