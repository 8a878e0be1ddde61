-- ===== src/Client/Adapter/Connect/Target.antt =====
-- The control unit that the adapter connects to.
use carrera_monitor.Prelude.{
  String, str_eq, Bool, true, false, ◌≡◌, refl, sym, ap, ◌∙◌, ◌↔◌, ◌⊎◌, inl, inr, Option, none,
  some, List, [], ◌∷◌, map, arith, Bool-cases, Option-cases,
}
use mathlib.Core.Option.{some-injective, none-ne-some}
use carrera_monitor.Client.Adapter.Connect.{
  DiscoveredDevice, scanned, Opening, opened, open_failed, connected_to, discovered, find_named,
  first_address, Reset, reset_returns, reset_raises, Clock, restarted, clock_after, or_address,
  pick_device, given, open_at, opened_at, connect, has_named,
}

-- A device that stands in a list.
pub data Stands (d : DiscoveredDevice) : List DiscoveredDevice → Type 0 where
  here : {ds : List DiscoveredDevice} → Stands d (d ∷ ds)
  there : {e : DiscoveredDevice} {ds : List DiscoveredDevice} → Stands d ds → Stands d (e ∷ ds)

find_named-Stands :
    (ds : List DiscoveredDevice) (a : String)
    → find_named ds ≡ some a
    → (d : DiscoveredDevice) × (Stands d ds
        × ((d.address ≡ a) × (str_eq d.name "Control_Unit" ≡ true)))
unfolding find_named
find_named-Stands [] a h = absurd (none-ne-some a h)
find_named-Stands (d ∷ ds) a h = elim (Bool-cases (str_eq d.name "Control_Unit")) [
  | inl named ↦ (d, (here, (ground arith, named)))
  | inr other ↦
      let (e, (stands, facts)) = find_named-Stands ds a (ground arith) in (e, (there stands, facts))
]

find_named-missing : (ds : List DiscoveredDevice) → find_named ds ≡ none → has_named ds ≡ false
unfolding find_named
find_named-missing [] h = refl
find_named-missing (d ∷ ds) h = elim (Bool-cases (str_eq d.name "Control_Unit")) [
  | inl named ↦ ground arith
  | inr other ↦ let ih = find_named-missing ds (ground arith) in ground arith
]

find_named-has_named :
    (ds : List DiscoveredDevice) (a : String) → find_named ds ≡ some a → has_named ds ≡ true
unfolding find_named
find_named-has_named [] a h = absurd (none-ne-some a h)
find_named-has_named (d ∷ ds) a h = elim (Bool-cases (str_eq d.name "Control_Unit")) [
  | inl named ↦ ground arith
  | inr other ↦ let ih = find_named-has_named ds a (ground arith) in ground arith
]

-- A device of a list with an address, a control unit where the list has one.
abbrev pub Picked : List DiscoveredDevice → String → Type 0
Picked ds a =
    (d : DiscoveredDevice) × (Stands d ds
      × ((d.address ≡ a) × (str_eq d.name "Control_Unit" ≡ has_named ds)))

first_address-Picked :
    (ds : List DiscoveredDevice) (a : String)
    → has_named ds ≡ false
    → first_address ds ≡ some a
    → Picked ds a
first_address-Picked [] a missing h = absurd (none-ne-some a h)
first_address-Picked (d ∷ ds) a missing h =
    (d, (here, (some-injective d.address a h, ground arith)))

pick_device-Picked :
    (ds : List DiscoveredDevice) (a : String) → pick_device ds ≡ some a → Picked ds a
unfolding pick_device
pick_device-Picked ds a h = elim (Option-cases (find_named ds)) [
  | inl missing ↦
      first_address-Picked ds a (find_named-missing ds missing)
        (ap (λ o. or_address o (first_address ds)) (sym missing) ∙ h)
  | inr (b, found) ↦
      let is_a = found ∙ sym (ap (λ o. or_address o (first_address ds)) found) ∙ h in
      let (d, (stands, (address, named))) = find_named-Stands ds a is_a in
      (d, (stands, (address, named ∙ sym (find_named-has_named ds a is_a))))
]

opened_at-target :
    (reset : Bool) (cu_reset : Reset) (clock : Clock) (target quoted a : String) (o : Opening)
    → opened_at reset cu_reset target quoted o ≡ connected_to a clock
    → (target ≡ a) × (clock_after reset cu_reset ≡ clock)
opened_at-target reset cu_reset clock target quoted a opened h = (ground arith, ground arith)
opened_at-target reset cu_reset clock target quoted a (open_failed text) h = ground arith

open_at-target :
    (reset : Bool) (cu_reset : Reset) (clock : Clock) (open_unit : String → Opening)
    (quoted : String → String)
    → (o : Option String) (a : String)
    → open_at reset cu_reset open_unit quoted o ≡ connected_to a clock
    → (o ≡ some a) × (clock_after reset cu_reset ≡ clock)
open_at-target reset cu_reset clock open_unit quoted none a h = ground arith
open_at-target reset cu_reset clock open_unit quoted (some b) a h =
    let (same, flag) = opened_at-target reset cu_reset clock b (quoted b) a (open_unit b) h in
    (ap some same, flag)

clock_is_restarted :
    (reset : Bool) (cu_reset : Reset)
    → (clock_after reset cu_reset ≡ restarted) ↔ ((reset ≡ true) × (cu_reset ≡ reset_returns))
clock_is_restarted true reset_returns = (λ h. (refl, refl), λ h. refl)
clock_is_restarted true reset_raises = (λ h. absurd (ground arith), λ h. absurd (ground arith))
clock_is_restarted false r = (λ h. absurd (ground arith), λ h. absurd (ground arith))

-- Where the adapter connects after a scan that returns, its address is the one it was given, if
-- that is not empty, and otherwise that of a device that was found, one named Control_Unit where
-- there is such a device; the clock of the control unit is restarted exactly where the adapter is
-- told to reset it and the reset does not raise.
pub connect-target :
    (reset : Bool) (cu_reset : Reset) (clock : Clock) (mac : Option String)
    (rows : List (String × Option String))
    → (open_unit : String → Opening) (quoted : String → String) (a : String)
    → connect reset cu_reset mac (scanned rows) open_unit quoted ≡ connected_to a clock
    → ((clock ≡ restarted) ↔ ((reset ≡ true) × (cu_reset ≡ reset_returns)))
      × ((given mac ≡ some a) ⊎ ((given mac ≡ none) × Picked (map discovered rows) a))
unfolding connect
connect-target reset cu_reset clock mac rows open_unit quoted a h =
    let ds = map discovered rows in
    let (target, flag) =
      open_at-target reset cu_reset clock open_unit quoted (or_address (given mac) (pick_device ds))
        a h in
    (
      rw (sym flag) (clock_is_restarted reset cu_reset),
      elim (Option-cases (given mac)) [
        | inl no_mac ↦ inr (
          no_mac,
          pick_device-Picked ds a (ap (λ o. or_address o (pick_device ds)) (sym no_mac) ∙ target),
        )
        | inr (b, is) ↦ inl (is ∙ sym (ap (λ o. or_address o (pick_device ds)) is) ∙ target)
      ],
    )
