-- ===== src/Client/Adapter/Mapping.antt =====
-- A slot mapping that counts from zero.
use carrera_monitor.Prelude.{
  ℕ, ◌+◌, ◌==◌, Bool, false, ◌≡◌, refl, ap, ◌∙◌, ◌⊎◌, inl, inr, ltb, none, some, ◌∷◌, if◌then◌else◌,
  arith, Bool-cases,
}
use carrera_monitor.Prelude.Int.{pos, ◌+ℤ◌}
use carrera_monitor.Continuity.{
  CarSlotMapping, MappingMode, SlotTable, decision, decide, in_range, if_in_range, candidate,
  normalize_slot,
}
use carrera_monitor.Continuity.Slots.{normalize-known, normalize-new}

-- A mapping that counts slots from zero, is not locked, and has only decisions that it took.
unfoldable pub CountsFromZero : CarSlotMapping → Type 0
CountsFromZero m =
    (m.mapping_mode ≡ MappingMode.zero_based)
    × ((m.locked ≡ false)
        × ((k : ℕ)
            → (decision (pos k) m.slot_to_car_id ≡ none)
              ⊎ (decision (pos k) m.slot_to_car_id ≡ some (pos (k + 1)))))

decision-add_next :
    (k j : ℕ) (table : SlotTable)
    → (decision (pos j) table ≡ none) ⊎ (decision (pos j) table ≡ some (pos (j + 1)))
    → (decision (pos j) ((pos k, pos (k + 1)) ∷ table) ≡ none)
      ⊎ (decision (pos j) ((pos k, pos (k + 1)) ∷ table) ≡ some (pos (j + 1)))
unfolding decision
decision-add_next k j table h = elim (Bool-cases (k == j)) [
  | inl same ↦ inr (ground arith)
  | inr other ↦ rw (other) h
]

if_in_range-next :
    (k : ℕ) → if_in_range (pos (k + 1)) ≡ (if ltb k 6 then some (pos (k + 1)) else none)
unfolding if_in_range in_range
if_in_range-next k = ground arith

add_one : (k : ℕ) → pos k +ℤ pos 1 ≡ pos (k + 1)
unfolding ◌+ℤ◌
add_one k = ground arith

in_range-next : (k : ℕ) → in_range (pos (k + 1)) ≡ ltb k 6
unfolding in_range
in_range-next k = ground arith

decide-next :
    (m : CarSlotMapping) (k : ℕ)
    → CountsFromZero m
    → ((decide m (pos k)).0 ≡ (if ltb k 6 then some (pos (k + 1)) else none))
      × CountsFromZero (decide m (pos k)).1
unfolding decide candidate CountsFromZero
decide-next m k (based, (free, table)) = elim (Bool-cases (ltb k 6)) [
  | inl small ↦
      rw (free, based, add_one k, in_range-next k, small)
        ((refl, (based, (free, λ j. decision-add_next k j m.slot_to_car_id (table j)))))
  | inr large ↦ rw (free, based, add_one k, in_range-next k, large) ((refl, (based, (free, table))))
]

-- Slot `k` is car `k + 1`, where that is one of the six.
normalize-next :
    (m : CarSlotMapping) (k : ℕ)
    → CountsFromZero m
    → ((normalize_slot m (some (pos k))).0 ≡ (if ltb k 6 then some (pos (k + 1)) else none))
      × CountsFromZero (normalize_slot m (some (pos k))).1
unfolding CountsFromZero
normalize-next m k (based, (free, table)) = elim (table k) [
  | inl new ↦ rw (normalize-new m (pos k) new) (decide-next m k (based, (free, table)))
  | inr known ↦
      rw (normalize-known m (pos k) (pos (k + 1)) known)
        ((if_in_range-next k, (based, (free, table))))
]

pub normalize_slot-pair :
    (m : CarSlotMapping) (k : ℕ) (b : Bool)
    → CountsFromZero m
    → ltb k 6 ≡ b
    → (m' : CarSlotMapping) × ((normalize_slot m (some (pos k))
          ≡ (if b then some (pos (k + 1)) else none, m'))
        × CountsFromZero m')
normalize_slot-pair m k b counts h =
    let (car, keeps) = normalize-next m k counts in
    let m' = (normalize_slot m (some (pos k))).1 in
    (m', (ap (λ c. (c, m')) (car ∙ ap (λ x. if x then some (pos (k + 1)) else none) h), keeps))
