-- ===== src/Client/Adapter/Timers.antt =====
-- The laps that a `LiveCarreraAdapter` counts for one car.
use carrera_monitor.Prelude.{
  ℕ, ◌+◌, ◌==◌, ◌<◌, true, false, ◌≡◌, refl, sym, ap, ◌∙◌, inl, inr, ltb, Option, none, some, List,
  [], ◌∷◌, ◌++◌, if◌then◌else◌, arith, Bool-cases,
}
use mathlib.Core.Path.{subst}
use carrera_monitor.Prelude.Int.{ℤ, pos, sub_ℕ}
use carrera_monitor.Continuity.{CarSlotMapping, eq_ℤ, normalize_slot}
use carrera_monitor.Continuity.Slots.{eq_ℤ_refl}
use carrera_monitor.Client.Adapter.Mapping.{CountsFromZero, normalize_slot-pair}
use carrera_monitor.Client.Frames.{RawFrame}
use carrera_monitor.Client.Adapter.{
  Timer, LiveCarreraAdapter, get_car, put_car, lap_frame, count_of, next_lap, crossing,
  translate_timer,
}
use carrera_monitor.Client.Adapter.Cars.{get_car-put_car, get_car-put_car_other}

-- The timestamps of an address.
abbrev pub times_of : ℕ → List Timer → List ℕ
times_of k [] = []
times_of k (t ∷ ts) =
    let rest = times_of k ts in if t.address == k then t.timestamp ∷ rest else rest

module _ {F : Type 0} where
  -- The frames of some timers, and the adapter after them.
  abbrev pub translate_timers :
      List Timer → LiveCarreraAdapter F → List (RawFrame F) × LiveCarreraAdapter F
  translate_timers [] a = ([], a)
  translate_timers (t ∷ ts) a =
      let (fs, b) = translate_timer a t in let (gs, e) = translate_timers ts b in (fs ++ gs, e)

  -- A frame before others, where it is the car's.
  abbrev pub add_own : ℤ → Option ℤ → RawFrame F → List (RawFrame F) → List (RawFrame F)
  add_own c none f rest = rest
  add_own c (some d) f rest = if eq_ℤ d c then f ∷ rest else rest

  -- The frames of a car.
  abbrev pub frames_of : ℤ → List (RawFrame F) → List (RawFrame F)
  frames_of c [] = []
  frames_of c (f ∷ fs) = add_own c f.car_id f (frames_of c fs)

  -- The laps of a car with `n` laps that crossed the line last at some time, or not yet.
  abbrev pub laps_from : ℤ → ℕ → Option ℕ → List ℕ → List (RawFrame F)
  laps_from c n last [] = []
  laps_from c n none (ts ∷ rest) = laps_from c n (some ts) rest
  laps_from c n (some last) (ts ∷ rest) =
      lap_frame c (n + 1) (sub_ℕ ts last) ts ∷ laps_from c (n + 1) (some ts) rest

  -- The laps between successive crossings of a car, numbered from one.
  abbrev pub laps_between : ℤ → List ℕ → List (RawFrame F)
  laps_between c times = laps_from c 0 none times

  abbrev laps_of : ℤ → LiveCarreraAdapter F → ℕ
  laps_of c a = count_of (get_car c a.lap_counts)

  add_own_append :
      (c : ℤ) (car : Option ℤ) (f : RawFrame F) (fs gs : List (RawFrame F))
      → add_own c car f (fs ++ gs) ≡ add_own c car f fs ++ gs
  add_own_append c none f fs gs = refl
  add_own_append c (some d) f fs gs = elim (Bool-cases (eq_ℤ d c)) [
    | inl same ↦ rw (same) refl
    | inr other ↦ rw (other) refl
  ]

  frames_of_append :
      (c : ℤ) (fs gs : List (RawFrame F))
      → frames_of c (fs ++ gs) ≡ frames_of c fs ++ frames_of c gs
  frames_of_append c [] gs = refl
  frames_of_append c (f ∷ fs) gs =
      ap (add_own c f.car_id f) (frames_of_append c fs gs)
      ∙ add_own_append c f.car_id f (frames_of c fs) (frames_of c gs)

  -- A crossing by the car itself.
  own_crossing :
      (c : ℤ) (ts : ℕ) (last : Option ℕ) (rest : List ℕ) (a : LiveCarreraAdapter F)
      → frames_of c (next_lap c ts last a).0
          ++ laps_from c (laps_of c (next_lap c ts last a).1) (some ts) rest
        ≡ laps_from c (laps_of c a) last (ts ∷ rest)
  unfolding next_lap
  own_crossing c ts none rest a = refl
  own_crossing c ts (some last) rest a =
      rw (eq_ℤ_refl c, get_car-put_car c (count_of (get_car c a.lap_counts) + 1) a.lap_counts) refl

  -- A crossing by another car.
  other_crossing :
      (c e : ℤ) (ts : ℕ) (last : Option ℕ) (a : LiveCarreraAdapter F)
      → eq_ℤ e c ≡ false
      → (frames_of c (next_lap e ts last a).0 ≡ [])
        × (laps_of c (next_lap e ts last a).1 ≡ laps_of c a)
  unfolding next_lap
  other_crossing c e ts none a other = (refl, refl)
  other_crossing c e ts (some last) a other = (
    rw (other) refl,
    ap count_of
        (get_car-put_car_other c e (count_of (get_car e a.lap_counts) + 1) a.lap_counts other),
  )

  pub next_lap-keeps :
      (e : ℤ) (ts : ℕ) (last : Option ℕ) (a : LiveCarreraAdapter F)
      → ((next_lap e ts last a).1.prev_lap_ts ≡ a.prev_lap_ts)
        × ((next_lap e ts last a).1.slot_mapping ≡ a.slot_mapping)
  unfolding next_lap
  next_lap-keeps e ts none a = (refl, refl)
  next_lap-keeps e ts (some last) a = (refl, refl)

pub eq_ℤ-next : (j k : ℕ) → (j == k) ≡ false → eq_ℤ (pos (j + 1)) (pos (k + 1)) ≡ false
eq_ℤ-next j k h = ground arith

module _ {F : Type 0} where
  abbrev laps_left : ℤ → LiveCarreraAdapter F → List ℕ → List (RawFrame F)
  laps_left c a times = laps_from c (laps_of c a) (get_car c a.prev_lap_ts) times

  crossing_of_car :
      (c : ℤ) (ts : ℕ) (m : CarSlotMapping) (rest : List ℕ) (a : LiveCarreraAdapter F)
      → frames_of c (crossing ts a (some c, m)).0 ++ laps_left c (crossing ts a (some c, m)).1 rest
        ≡ laps_left c a (ts ∷ rest)
  unfolding crossing
  crossing_of_car c ts m rest a =
      let b : LiveCarreraAdapter F = record a {
        slot_mapping = m;
        prev_lap_ts = put_car c ts a.prev_lap_ts;
      } in
      let (times, _) = next_lap-keeps c ts (get_car c a.prev_lap_ts) b in
      rw (times, get_car-put_car c ts a.prev_lap_ts)
        (own_crossing c ts (get_car c a.prev_lap_ts) rest b)

  crossing_of_other :
      (c e : ℤ) (ts : ℕ) (m : CarSlotMapping) (rest : List ℕ) (a : LiveCarreraAdapter F)
      → eq_ℤ e c ≡ false
      → frames_of c (crossing ts a (some e, m)).0 ++ laps_left c (crossing ts a (some e, m)).1 rest
        ≡ laps_left c a rest
  unfolding crossing
  crossing_of_other c e ts m rest a other =
      let b : LiveCarreraAdapter F = record a {
        slot_mapping = m;
        prev_lap_ts = put_car e ts a.prev_lap_ts;
      } in
      let (times, _) = next_lap-keeps e ts (get_car e a.prev_lap_ts) b in
      let (frames, laps) = other_crossing c e ts (get_car e a.prev_lap_ts) b other in
      rw (frames, laps, times, get_car-put_car_other c e ts a.prev_lap_ts other) refl

  -- A car's laps are what one crossing adds, and what is left after it.
  timer_of_car :
      (a : LiveCarreraAdapter F) (t : Timer) (k : ℕ) (rest : List ℕ)
      → k < 6
      → CountsFromZero a.slot_mapping
      → t.address ≡ k
      → frames_of (pos (k + 1)) (translate_timer a t).0
          ++ laps_left (pos (k + 1)) (translate_timer a t).1 rest
        ≡ laps_left (pos (k + 1)) a (t.timestamp ∷ rest)
  unfolding translate_timer
  timer_of_car a t k rest small counts own =
      let (m, (is, keeps)) =
        normalize_slot-pair a.slot_mapping t.address true counts (ground arith) in
      let is_k =
        subst (λ j. normalize_slot a.slot_mapping (some (pos t.address)) ≡ (some (pos (j + 1)), m))
          own is in
      rw (is_k) (crossing_of_car (pos (k + 1)) t.timestamp m rest a)

  timer_of_other :
      (a : LiveCarreraAdapter F) (t : Timer) (k : ℕ) (rest : List ℕ)
      → CountsFromZero a.slot_mapping
      → (t.address == k) ≡ false
      → frames_of (pos (k + 1)) (translate_timer a t).0
          ++ laps_left (pos (k + 1)) (translate_timer a t).1 rest
        ≡ laps_left (pos (k + 1)) a rest
  unfolding translate_timer
  timer_of_other a t k rest counts other = elim (Bool-cases (ltb t.address 6)) [
    | inl small ↦
        let (m, (is, keeps)) = normalize_slot-pair a.slot_mapping t.address true counts small in
        rw (is) (
          crossing_of_other (pos (k + 1)) (pos (t.address + 1)) t.timestamp m rest a
            (eq_ℤ-next t.address k other))
    | inr large ↦
        let (m, (is, keeps)) = normalize_slot-pair a.slot_mapping t.address false counts large in
        rw (is) refl
  ]

  pub timer_keeps :
      (a : LiveCarreraAdapter F) (t : Timer)
      → CountsFromZero a.slot_mapping
      → CountsFromZero (translate_timer a t).1.slot_mapping
  unfolding translate_timer crossing
  timer_keeps a t counts = elim (Bool-cases (ltb t.address 6)) [
    | inl small ↦
        let (m, (is, keeps)) = normalize_slot-pair a.slot_mapping t.address true counts small in
        rw (is) (subst CountsFromZero (sym (next_lap-keeps _ _ _ _).1) keeps)
    | inr large ↦
        let (m, (is, keeps)) = normalize_slot-pair a.slot_mapping t.address false counts large in
        rw (is) keeps
  ]

  laps_left-translate_timers :
      (ts : List Timer) (a : LiveCarreraAdapter F) (k : ℕ)
      → k < 6
      → CountsFromZero a.slot_mapping
      → frames_of (pos (k + 1)) (translate_timers ts a).0
        ≡ laps_left (pos (k + 1)) a (times_of k ts)
  laps_left-translate_timers [] a k small counts = refl
  laps_left-translate_timers (t ∷ ts) a k small counts =
      let b = (translate_timer a t).1 in
      let ih = laps_left-translate_timers ts b k small (timer_keeps a t counts) in
      let split =
        frames_of_append (pos (k + 1)) (translate_timer a t).0 (translate_timers ts b).0
        ∙ ap (λ l. frames_of (pos (k + 1)) (translate_timer a t).0 ++ l) ih in
      elim (Bool-cases (t.address == k)) [
        | inl own ↦
            rw (own) (split ∙ timer_of_car a t k (times_of k ts) small counts (ground arith))
        | inr other ↦ rw (other) (split ∙ timer_of_other a t k (times_of k ts) counts other)
      ]

  abbrev pub new_adapter : CarSlotMapping → LiveCarreraAdapter F
  new_adapter m = record { prev_status = none; slot_mapping = m; lap_counts = []; prev_lap_ts = [] }

  -- A new adapter whose mapping counts slots from zero, is not locked and has no other decisions,
  -- given any timers in any order, makes of the timers of an address below 6 exactly the laps
  -- between its successive timestamps: none at the first, numbered from one without a gap, each
  -- with the difference of its two timestamps.
  pub timers-laps_between :
      (m : CarSlotMapping) (ts : List Timer) (k : ℕ)
      → k < 6
      → CountsFromZero m
      → frames_of (pos (k + 1)) (translate_timers ts (new_adapter m)).0
        ≡ laps_between (pos (k + 1)) (times_of k ts)
  unfolding get_car
  timers-laps_between m ts k small counts =
      laps_left-translate_timers ts (new_adapter m) k small counts
