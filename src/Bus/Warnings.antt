-- ===== src/Bus/Warnings.antt =====
-- The overflow warnings of one subscriber.
use carrera_monitor.Prelude.{
  ℕ, ◌+◌, ◌≤◌, ◌≡◌, ap, ◌⊎◌, List, [], ◌∷◌, ◌++◌, leb, arith, Bool-cases, Option-cases, inl, inr,
}
use mathlib.Core.Path.{subst}
use carrera_monitor.Queue.{put_nowait}
use carrera_monitor.Bus.{
  Subscription, Warning, overflow_log_interval, overflow_warning, deliver, log_time,
}

-- Each warning comes an interval or more after the one before, and the first after a given time.
abbrev pub IsSpaced : ℕ → List Warning → Type 0
IsSpaced last [] = Unit
IsSpaced last (w ∷ ws) = (last + overflow_log_interval ≤ w.at) × IsSpaced w.at ws

module _ {ℓ} {E : Type ℓ} where
  -- The warnings of a subscription while events are delivered at given times.
  abbrev pub warnings_of : List (ℕ × E) → Subscription E → List Warning
  warnings_of [] s = []
  warnings_of ((now, e) ∷ es) s = overflow_warning now e s ++ warnings_of es (deliver now e s)

  silent :
      (now : ℕ) (e : E) (s : Subscription E)
      → overflow_warning now e s ≡ []
      → (deliver now e s).last_overflow_log ≡ s.last_overflow_log
  unfolding deliver
  silent now e s h = ap (log_time now s.last_overflow_log) h

  loud :
      (now : ℕ) (e : E) (s : Subscription E) (w : Warning)
      → overflow_warning now e s ≡ w ∷ []
      → (deliver now e s).last_overflow_log ≡ now
  unfolding deliver
  loud now e s w h = ap (log_time now s.last_overflow_log) h

  -- A delivery warns not at all, or once, an interval or more after the last warning.
  overflow_warning_cases :
      (now : ℕ) (e : E) (s : Subscription E)
      → (overflow_warning now e s ≡ [])
        ⊎ ((overflow_warning now e s ≡ (record { subscriber = s.name; at = now }) ∷ [])
            × (s.last_overflow_log + overflow_log_interval ≤ now))
  unfolding overflow_warning
  overflow_warning_cases now e s = elim (Option-cases (put_nowait s.queue e)) [
    | inr (q, room) ↦ inl (ground arith)
    | inl full ↦ elim (Bool-cases (leb (s.last_overflow_log + overflow_log_interval) now)) [
      | inl late ↦ inr (ground arith, ground arith)
      | inr soon ↦ inl (ground arith)
    ]
  ]

  -- Whatever events are delivered to a subscriber at whatever times, its warnings are a second or
  -- more apart, and the first comes a second or more after the time of its last warning.
  pub warnings_of-IsSpaced :
      (es : List (ℕ × E)) (s : Subscription E) → IsSpaced s.last_overflow_log (warnings_of es s)
  warnings_of-IsSpaced [] s = tt
  warnings_of-IsSpaced ((now, e) ∷ es) s = elim (overflow_warning_cases now e s) [
    | inl none_new ↦ rw (none_new) (
        subst (λ t. IsSpaced t (warnings_of es (deliver now e s))) (silent now e s none_new)
          (warnings_of-IsSpaced es (deliver now e s)))
    | inr (one, late) ↦ rw (one) (
        (
          late,
          subst (λ t. IsSpaced t (warnings_of es (deliver now e s))) (loud now e s _ one)
              (warnings_of-IsSpaced es (deliver now e s)),
        ))
  ]
