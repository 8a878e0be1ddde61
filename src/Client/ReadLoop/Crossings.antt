-- ===== src/Client/ReadLoop/Crossings.antt =====
-- What one polled timer comes to in events.
use carrera_monitor.Prelude.{
  ℕ, ◌+◌, ◌≤◌, ◌<◌, Bool, true, false, ◌≡◌, refl, sym, inl, inr, some, List, [], ◌∷◌, arith,
  Bool-cases, ◌==◌, ltb,
}
use mathlib.Core.Path.{subst}
use carrera_monitor.Prelude.Int.{pos}
use carrera_monitor.Value.{Python}
use carrera_monitor.Continuity.{CarSlotMapping, eq_ℤ, normalize_slot}
use carrera_monitor.Client.Frames.{Stamp}
use carrera_monitor.Client.Adapter.{
  Timer, LiveCarreraAdapter, get_car, put_car, next_lap, crossing, translate_timer,
}
use carrera_monitor.Client.Adapter.Cars.{get_car-put_car, get_car-put_car_other}
use carrera_monitor.Client.Adapter.Mapping.{CountsFromZero, normalize_slot-pair}
use carrera_monitor.Client.Adapter.Timers.{eq_ℤ-next}
use carrera_monitor.Client.ReadLoop.{events_of}
use carrera_monitor.Client.ReadLoop.LapEvents.{
  IsOrdered, laps_of, last_of, laps_read, Foretold, own_next, other_next,
}

module _ {F : Type 0} (py : Python F) (debug_raw : Bool) (now : Stamp) where
  own_crossing :
      (c ts : ℕ) (m : CarSlotMapping) (rest : List (Stamp × ℕ)) (a : LiveCarreraAdapter F)
      → 1 ≤ c
      → c ≤ 8
      → IsOrdered (last_of c a) ((now, ts) ∷ rest)
      → Foretold py debug_raw now c rest
          (laps_read py debug_raw c (laps_of c a) (last_of c a) ((now, ts) ∷ rest))
          (crossing ts a (some (pos c), m))
  unfolding crossing
  own_crossing c ts m rest a low high order =
      own_next py debug_raw now c ts (last_of c a) rest
        (record a { slot_mapping = m; prev_lap_ts = put_car (pos c) ts a.prev_lap_ts }) low high
        (get_car-put_car (pos c) ts a.prev_lap_ts) order

  other_crossing :
      (c e ts : ℕ) (m : CarSlotMapping) (rest : List (Stamp × ℕ)) (a : LiveCarreraAdapter F)
      → 1 ≤ e
      → e ≤ 8
      → (e == c) ≡ false
      → eq_ℤ (pos e) (pos c) ≡ false
      → IsOrdered (last_of c a) rest
      → Foretold py debug_raw now c rest
          (laps_read py debug_raw c (laps_of c a) (last_of c a) rest)
          (crossing ts a (some (pos e), m))
  unfolding crossing
  other_crossing c e ts m rest a low high other differs order =
      let b : LiveCarreraAdapter F = record a {
        slot_mapping = m;
        prev_lap_ts = put_car (pos e) ts a.prev_lap_ts;
      } in
      let same : last_of c b ≡ last_of c a =
        get_car-put_car_other (pos c) (pos e) ts a.prev_lap_ts differs in
      subst
        (λ l.
          Foretold py debug_raw now c rest (laps_read py debug_raw c (laps_of c a) l rest)
            (next_lap (pos e) ts (get_car (pos e) a.prev_lap_ts) b))
        same
        (other_next py debug_raw now c e ts (get_car (pos e) a.prev_lap_ts) rest b low high other
          differs (subst (λ l. IsOrdered l rest) (sym same) order))

  -- A timer of the car's address.
  pub own_timer :
      (k : ℕ) (t : Timer) (rest : List (Stamp × ℕ)) (a : LiveCarreraAdapter F)
      → k < 6
      → CountsFromZero a.slot_mapping
      → t.address ≡ k
      → IsOrdered (last_of (k + 1) a) ((now, t.timestamp) ∷ rest)
      → Foretold py debug_raw now
          (k + 1)
          rest
          (laps_read py debug_raw
            (k + 1)
            (laps_of (k + 1) a)
            (last_of (k + 1) a)
            ((now, t.timestamp) ∷ rest))
          (translate_timer a t)
  unfolding translate_timer
  own_timer k t rest a small counts own order =
      let (m, (is, keeps)) =
        normalize_slot-pair a.slot_mapping t.address true counts (ground arith) in
      let is_k =
        subst (λ j. normalize_slot a.slot_mapping (some (pos t.address)) ≡ (some (pos (j + 1)), m))
          own is in
      rw is_k (own_crossing (k + 1) t.timestamp m rest a (omega arith) (omega arith) order)

  -- A timer of another address.
  pub other_timer :
      (k : ℕ) (t : Timer) (rest : List (Stamp × ℕ)) (a : LiveCarreraAdapter F)
      → CountsFromZero a.slot_mapping
      → (t.address == k) ≡ false
      → IsOrdered (last_of (k + 1) a) rest
      → Foretold py debug_raw now
          (k + 1)
          rest
          (laps_read py debug_raw (k + 1) (laps_of (k + 1) a) (last_of (k + 1) a) rest)
          (translate_timer a t)
  unfolding translate_timer crossing events_of
  other_timer k t rest a counts other order = elim (Bool-cases (ltb t.address 6)) [
    | inl small ↦
        let (m, (is, keeps)) = normalize_slot-pair a.slot_mapping t.address true counts small in
        rw is (
          other_crossing (k + 1) (t.address + 1) t.timestamp m rest a (omega arith) (ground arith)
            (ground arith) (eq_ℤ-next t.address k other) order)
    | inr large ↦
        let (m, (is, keeps)) = normalize_slot-pair a.slot_mapping t.address false counts large in
        rw is (([], refl, refl, order))
  ]
