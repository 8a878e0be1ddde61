-- ===== src/Continuity/Slots.antt =====
-- A slot keeps its car.
use carrera_monitor.Prelude.{
  true, ◌≡◌, refl, sym, ap, ◌∙◌, ◌⊎◌, inl, inr, Option, none, some, List, [], ◌∷◌, arith,
  Bool-cases, Option-cases,
}
use mathlib.Core.Option.{some-injective}
use carrera_monitor.Prelude.Int.{ℤ, pos, negsuc, ◌≤ℤ◌}
use carrera_monitor.Continuity.{
  CarSlotMapping, SlotTable, decision, decide, candidate, eq_ℤ, in_range, if_in_range,
  normalize_slot,
}

-- The mapping after a list of calls of `normalize_slot`.
abbrev pub normalize_all : List (Option ℤ) → CarSlotMapping → CarSlotMapping
normalize_all [] m = m
normalize_all (r ∷ rs) m = normalize_all rs (normalize_slot m r).1

in_range→bounds : (c : ℤ) → in_range c ≡ true → (pos 1 ≤ℤ c) × (c ≤ℤ pos 6)
unfolding in_range
in_range→bounds c h = ground arith

pub eq_ℤ_refl : (a : ℤ) → eq_ℤ a a ≡ true
eq_ℤ_refl (pos a) = ground arith
eq_ℤ_refl (negsuc a) = ground arith

pub eq_ℤ→≡ : (a b : ℤ) → eq_ℤ a b ≡ true → a ≡ b
eq_ℤ→≡ (pos a) (pos b) h = ground arith
eq_ℤ→≡ (negsuc a) (negsuc b) h = ground arith
eq_ℤ→≡ (pos a) (negsuc b) h = ground arith
eq_ℤ→≡ (negsuc a) (pos b) h = ground arith

abbrev pub with_decision : CarSlotMapping → ℤ → ℤ → CarSlotMapping
with_decision m s c = record m { slot_to_car_id = (s, c) ∷ m.slot_to_car_id }

-- Without a decision, a call refuses, or decides for a car in range.
pub decide_cases :
    (m : CarSlotMapping) (s : ℤ)
    → (decide m s ≡ (none, m))
      ⊎ ((c : ℤ) × ((in_range c ≡ true) × (decide m s ≡ (some c, with_decision m s c))))
unfolding decide
decide_cases m s = elim (Bool-cases m.locked) [
  | inl shut ↦ inl (ground arith)
  | inr free ↦ elim (Option-cases (candidate m.mapping_mode s)) [
    | inl nothing ↦ inl (ground arith)
    | inr (c, found) ↦ elim (Bool-cases (in_range c)) [
      | inl good ↦ inr (c, (good, ground arith))
      | inr bad ↦ inl (ground arith)
    ]
  ]
]

pub normalize-known :
    (m : CarSlotMapping) (s c : ℤ)
    → decision s m.slot_to_car_id ≡ some c
    → normalize_slot m (some s) ≡ (if_in_range c, m)
unfolding normalize_slot
normalize-known m s c h = rw (h, normalize_slot) refl

pub normalize-new :
    (m : CarSlotMapping) (s : ℤ)
    → decision s m.slot_to_car_id ≡ none
    → normalize_slot m (some s) ≡ decide m s
unfolding normalize_slot
normalize-new m s h = rw (h, normalize_slot) refl

pub decision-add :
    (s t c d : ℤ) (table : SlotTable)
    → decision s table ≡ none
    → decision t table ≡ some d
    → decision t ((s, c) ∷ table) ≡ some d
unfolding decision
decision-add s t c d table new old = elim (Bool-cases (eq_ℤ s t)) [
  | inl same ↦ absurd (ground (arith, eq_ℤ→≡ s t same))
  | inr other ↦ rw (other) old
]

pub decision-here : (s c : ℤ) (table : SlotTable) → decision s ((s, c) ∷ table) ≡ some c
unfolding decision
decision-here s c table = rw (eq_ℤ_refl s) refl

if_in_range-true : (c : ℤ) → in_range c ≡ true → if_in_range c ≡ some c
unfolding if_in_range
if_in_range-true c h = rw (h) refl

if_in_range-some : (c d : ℤ) → if_in_range c ≡ some d → (in_range d ≡ true) × (c ≡ d)
unfolding if_in_range
if_in_range-some c d h = elim (Bool-cases (in_range c)) [
  | inl good ↦ let p : c ≡ d = ground arith in (rw (sym p) good, p)
  | inr bad ↦ ground arith
]

-- A car that a call returns is in range, and is the slot's decision from then on.
unfoldable Decided : CarSlotMapping → ℤ → ℤ → Type 0
Decided m s c = (in_range c ≡ true) × (decision s m.slot_to_car_id ≡ some c)

decided :
    (m : CarSlotMapping) (s c : ℤ)
    → (normalize_slot m (some s)).0 ≡ some c
    → Decided (normalize_slot m (some s)).1 s c
unfolding Decided
decided m s c h = elim (Option-cases (decision s m.slot_to_car_id)) [
  | inl new ↦ elim (decide_cases m s) [
    | inl no_car ↦ absurd (ground (arith, normalize-new m s new))
    | inr (d, (good, is)) ↦
        let p = normalize-new m s new ∙ is in
        let q : c ≡ d = some-injective c d (sym h ∙ ap (λ r. r.0) p) in
        rw (p, q) ((good, decision-here s d m.slot_to_car_id))
  ]
  | inr (d, known) ↦
      let p = normalize-known m s d known in
      let (good, q) = if_in_range-some d c (sym (ap (λ r. r.0) p) ∙ h) in
      rw (p) ((good, known ∙ ap some q))
]

stays :
    (m : CarSlotMapping) (r : Option ℤ) (s c : ℤ)
    → Decided m s c
    → Decided (normalize_slot m r).1 s c
unfolding normalize_slot Decided
stays m none s c h = h
stays m (some t) s c (good, held) = elim (Option-cases (decision t m.slot_to_car_id)) [
  | inl new ↦ elim (decide_cases m t) [
    | inl no_car ↦ rw (normalize-new m t new ∙ no_car) ((good, held))
    | inr (d, (ok, is)) ↦
        rw (normalize-new m t new ∙ is) ((good, decision-add t s d c m.slot_to_car_id new held))
  ]
  | inr (d, known) ↦ rw (normalize-known m t d known) ((good, held))
]

stays_all :
    (rs : List (Option ℤ)) (m : CarSlotMapping) (s c : ℤ)
    → Decided m s c
    → Decided (normalize_all rs m) s c
stays_all [] m s c h = h
stays_all (r ∷ rs) m s c h = stays_all rs (normalize_slot m r).1 s c (stays m r s c h)

-- Where a call returns a car for a slot, the car lies between 1 and 6, and after any further
-- calls, a call for that slot returns the same car and changes nothing.
pub slot_keeps_car :
    (m : CarSlotMapping) (s c : ℤ) (rs : List (Option ℤ))
    → (normalize_slot m (some s)).0 ≡ some c
    → ((pos 1 ≤ℤ c) × (c ≤ℤ pos 6))
      × (normalize_slot (normalize_all rs (normalize_slot m (some s)).1) (some s)
          ≡ (some c, normalize_all rs (normalize_slot m (some s)).1))
unfolding Decided
slot_keeps_car m s c rs h =
    let m' = (normalize_slot m (some s)).1 in
    let (good, held) = stays_all rs m' s c (decided m s c h) in
    (
      in_range→bounds c good,
      normalize-known (normalize_all rs m') s c held
          ∙ ap (λ r. (r, normalize_all rs m')) (if_in_range-true c good),
    )
