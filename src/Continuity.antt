-- ===== src/Continuity.antt =====
-- services/live_continuity.py: the mapping of slots to cars, the detector of active cars and the
-- tracker of the link's health. (Its checkpoint service is in `Race`.) Raw slots are Python
-- integers; the detector gets the car numbers of validated events.
pub mod Slots
pub mod Link
use carrera_monitor.Prelude.{
  ℕ, ◌+◌, ◌==◌, String, Bool, true, false, ◌&&◌, Option, none, some, List, [], ◌∷◌, leb, take,
  if◌then◌else◌,
}
use carrera_monitor.Prelude.Int.{ℤ, pos, negsuc, ◌+ℤ◌, leb_ℤ}
use carrera_monitor.Prelude.Sort.{sort_by}

pub data MappingMode : Type 0 where
  zero_based one_based explicit : MappingMode

-- A dictionary from slots to cars.
abbrev pub SlotTable : Type 0
SlotTable = List (ℤ × ℤ)

pub record CarSlotMapping : Type 0 where
  pub mapping_mode : MappingMode
  pub slot_to_car_id : SlotTable
  pub locked : Bool

abbrev pub eq_ℤ : ℤ → ℤ → Bool
eq_ℤ (pos a) (pos b) = a == b
eq_ℤ (negsuc a) (negsuc b) = a == b
eq_ℤ _ _ = false

unfoldable pub decision : ℤ → SlotTable → Option ℤ
decision slot [] = none
decision slot ((s, c) ∷ table) = if eq_ℤ s slot then some c else decision slot table

unfoldable pub in_range : ℤ → Bool
in_range c = leb_ℤ (pos 1) c && leb_ℤ c (pos 6)

unfoldable pub if_in_range : ℤ → Option ℤ
unfolding in_range
if_in_range c = if in_range c then some c else none

unfoldable pub candidate : MappingMode → ℤ → Option ℤ
candidate MappingMode.zero_based slot = some (slot +ℤ pos 1)
candidate MappingMode.one_based slot = some slot
candidate MappingMode.explicit slot = none

-- `normalize_slot` of a slot without a decision.
unfoldable pub decide : CarSlotMapping → ℤ → Option ℤ × CarSlotMapping
unfolding candidate in_range
decide m slot = if m.locked then (none, m) else (elim (candidate m.mapping_mode slot) [
  | none ↦ (none, m)
  | some c ↦
      if in_range c
      then (some c, record m { slot_to_car_id = (slot, c) ∷ m.slot_to_car_id })
      else (none, m)
])

unfoldable pub normalize_slot : CarSlotMapping → Option ℤ → Option ℤ × CarSlotMapping
unfolding decision decide if_in_range
normalize_slot m none = (none, m)
normalize_slot m (some slot) = elim (decision slot m.slot_to_car_id) [
  | some c ↦ (if_in_range c, m)
  | none ↦ decide m slot
]

unfoldable pub normalize_car_id : CarSlotMapping → Option ℤ → Option ℤ × CarSlotMapping
unfolding normalize_slot
normalize_car_id m none = (none, m)
normalize_car_id m (some raw) = normalize_slot m (some raw)

pub record ActiveCarDetector : Type 0 where
  pub window_ms : ℕ
  pub last_seen_ms : List (ℕ × ℕ)

-- `d[k] = v`: a known key keeps its place.
unfoldable pub assign : ℕ → ℕ → List (ℕ × ℕ) → List (ℕ × ℕ)
assign k v [] = (k, v) ∷ []
assign k v ((j, w) ∷ d) = let rest = assign k v d in if j == k then (k, v) ∷ d else (j, w) ∷ rest

unfoldable pub observe : ActiveCarDetector → Option ℕ → ℕ → ActiveCarDetector
unfolding assign
observe det none now = det
observe det (some c) now =
    if leb 1 c && leb c 6 then record det { last_seen_ms = assign c now det.last_seen_ms } else det

abbrev pub horizon : ActiveCarDetector → ℕ
horizon det = if leb det.window_ms 100 then 100 else det.window_ms

-- `[cid for cid, last in ... if now_ms - last <= horizon]`
unfoldable pub recent : ℕ → ℕ → List (ℕ × ℕ) → List ℕ
recent now h [] = []
recent now h ((c, last) ∷ d) =
    let rest = recent now h d in if leb now (last + h) then c ∷ rest else rest

unfoldable pub active_car_ids : ActiveCarDetector → ℕ → List ℕ
unfolding recent
active_car_ids det now = take 6 (sort_by leb (recent now (horizon det) det.last_seen_ms))

pub data LinkHealthStatus : Type 0 where
  healthy degraded stalled reconnecting : LinkHealthStatus

pub record LinkHealthState : Type 0 where
  pub state : LinkHealthStatus
  pub timeout_streak : ℕ
  pub last_frame_at_ms : ℕ
  pub reason : Option String

pub record LinkHealthTracker : Type 0 where
  pub warning_threshold : ℕ
  pub hard_threshold : ℕ
  pub link : LinkHealthState

unfoldable pub on_timeout : LinkHealthTracker → LinkHealthTracker
on_timeout t =
    let streak = t.link.timeout_streak + 1 in
    if leb t.hard_threshold streak
    then record t {
      link = record {
        state = stalled;
        timeout_streak = streak;
        last_frame_at_ms = t.link.last_frame_at_ms;
        reason = some "timeout_streak_hard";
      };
    }
    else if leb t.warning_threshold streak
    then record t {
      link = record {
        state = degraded;
        timeout_streak = streak;
        last_frame_at_ms = t.link.last_frame_at_ms;
        reason = some "timeout_streak_warning";
      };
    }
    else record t { link = record t.link { timeout_streak = streak } }

unfoldable pub on_frame : ℕ → LinkHealthTracker → LinkHealthTracker
on_frame now t = record t {
  link = record {
    state = healthy;
    timeout_streak = 0;
    last_frame_at_ms = now;
    reason = some "frame_received";
  };
}

unfoldable pub mark_reconnecting : String → LinkHealthTracker → LinkHealthTracker
mark_reconnecting why t = record t {
  link = record t.link { state = reconnecting; reason = some why };
}
