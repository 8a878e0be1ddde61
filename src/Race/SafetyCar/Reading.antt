-- ===== src/Race/SafetyCar/Reading.antt =====
-- The safety-car phase reads as it was set.
use carrera_monitor.Prelude.{
  ℕ, Bool, true, false, ◌≡◌, refl, ap, ◌∙◌, inl, inr, some, if◌then◌else◌, arith, Bool-cases,
  Option-cases,
}
use carrera_monitor.Race.Model.{Race}
use carrera_monitor.Race.Repository.{get_race, is_live, add_event, latest_event_type}
use carrera_monitor.Race.App.{App, Cache, ok, lookup, put}
use carrera_monitor.Race.SafetyCar.{
  same, is_started, cache_safety_car, is_safety_car_active, toggle_row, set_safety_car,
}

lookup-put : (k : ℕ) (b : Bool) (c : Cache) → lookup k (put k b c) ≡ some b
unfolding lookup put
lookup-put k b c = ground arith

same-is : (a b : Bool) → same a b ≡ true → a ≡ b
same-is true true h = refl
same-is true false h = ground arith
same-is false true h = ground arith
same-is false false h = refl

module _ {F : Type 0} where
  -- What a reading of a live race answers, and leaves for the next reading.
  reading :
      (k : ℕ) (race : Race) (s : App F)
      → get_race s.db k ≡ some race
      → is_live race.status ≡ true
      → let (b, t) = is_safety_car_active k s in
        (t.db ≡ s.db) × (lookup k t.safety_car_active ≡ some b)
  unfolding is_safety_car_active cache_safety_car
  reading k race s found live = elim (Option-cases (lookup k s.safety_car_active)) [
    | inl unknown ↦
        ground (arith, lookup-put k (is_started (latest_event_type s.db k)) s.safety_car_active)
    | inr (b, known) ↦ ground arith
  ]

  cached :
      (k : ℕ) (race : Race) (s : App F) (b : Bool)
      → get_race s.db k ≡ some race
      → is_live race.status ≡ true
      → lookup k s.safety_car_active ≡ some b
      → (is_safety_car_active k s).0 ≡ b
  unfolding is_safety_car_active
  cached k race s b found live known = ground arith

  toggled :
      (now k : ℕ) (b : Bool) (s : App F)
      → (get_race (toggle_row now k b s).db k ≡ get_race s.db k)
        × (lookup k (toggle_row now k b s).safety_car_active ≡ some b)
  unfolding toggle_row cache_safety_car get_race add_event
  toggled now k b s = (refl, lookup-put k b s.safety_car_active)

  set_live :
      (now k : ℕ) (b : Bool) (race : Race) (s : App F)
      → get_race s.db k ≡ some race
      → is_live race.status ≡ true
      → let (current, t) = is_safety_car_active k s in
        set_safety_car now k b s
        ≡ (if same current b then (ok current, t) else (ok b, toggle_row now k b t))
  unfolding set_safety_car
  set_live now k b race s found live = ground arith

  -- For a race that is running or paused, setting the safety car answers the value that was asked
  -- for, and the next reading answers the same.
  pub set_safety_car_reads :
      (now k : ℕ) (b : Bool) (race : Race) (s : App F)
      → get_race s.db k ≡ some race
      → is_live race.status ≡ true
      → let (r, t) = set_safety_car now k b s in (r ≡ ok b) × ((is_safety_car_active k t).0 ≡ b)
  set_safety_car_reads now k b race s found live =
      let (current, t) = is_safety_car_active k s in
      let (db_same, known) = reading k race s found live in
      let found' : get_race t.db k ≡ some race = rw (db_same) found in
      elim (Bool-cases (same current b)) [
        | inl is ↦
            let p : current ≡ b = same-is current b is in
            rw (set_live now k b race s found live, is)
              ((ap ok p, cached k race t b found' live (known ∙ ap some p)))
        | inr other ↦
            let (row_race, row_known) = toggled now k b t in
            rw (set_live now k b race s found live, other)
              ((refl, cached k race (toggle_row now k b t) b (row_race ∙ found') live row_known))
      ]
