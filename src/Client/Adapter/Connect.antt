-- ===== src/Client/Adapter/Connect.antt =====
-- carrera_client.py: `LiveCarreraAdapter.connect` and `_pick_device`. What carreralib's scan and the
-- opening of a control unit return or raise are arguments.
pub mod Target
use Prim.Native.String.{◌++◌ as append}
use carrera_monitor.Prelude.{
  ℕ, String, str_eq, Bool, true, false, ◌||◌, ◌≡◌, refl, sym, ap, ◌∙◌, ◌⊎◌, inl, inr, Option, none,
  some, List, [], ◌∷◌, map, if◌then◌else◌, arith, Bool-cases, Option-cases,
}
use mathlib.Core.Option.{some-injective, none-ne-some}

pub record DiscoveredDevice : Type 0 where
  pub name : String
  pub address : String

-- `list(cl_conn.scan())`, with its imports.
pub data Discovery : Type 0 where
  import_failed : Discovery
  scan_failed : String → Discovery
  scanned : List (String × Option String) → Discovery

-- `ControlUnit(target)`
pub data Opening : Type 0 where
  opened : Opening
  open_failed : String → Opening

-- `cu.reset()`
pub data Reset : Type 0 where
  reset_returns reset_raises : Reset

-- The clock of the control unit after `connect`.
pub data Clock : Type 0 where
  restarted kept : Clock

-- The adapter is connected to an address, or an `AdapterConnectionError` is raised.
pub data Connection : Type 0 where
  connected_to : String → Clock → Connection
  connection_error : String → Connection

-- `str(name or "?")`
abbrev pub device_name : Option String → String
device_name none = "?"
device_name (some s) = if str_eq s "" then "?" else s

abbrev pub discovered : String × Option String → DiscoveredDevice
discovered (address, name) = record { name = device_name name; address = address }

unfoldable pub find_named : List DiscoveredDevice → Option String
find_named [] = none
find_named (d ∷ ds) = if str_eq d.name "Control_Unit" then some d.address else find_named ds

abbrev pub first_address : List DiscoveredDevice → Option String
first_address [] = none
first_address (d ∷ ds) = some d.address

abbrev pub or_address : Option String → Option String → Option String
or_address none b = b
or_address (some a) b = some a

-- `_pick_device`
unfoldable pub pick_device : List DiscoveredDevice → Option String
unfolding find_named
pick_device ds = or_address (find_named ds) (first_address ds)

-- `mac_address or ...`: an empty address counts as none.
abbrev pub given : Option String → Option String
given none = none
given (some s) = if str_eq s "" then none else some s

-- A reset that raises is logged, and the clock goes on.
abbrev pub clock_after : Bool → Reset → Clock
clock_after true reset_returns = restarted
clock_after true reset_raises = kept
clock_after false r = kept

abbrev pub opened_at : Bool → Reset → String → String → Opening → Connection
opened_at reset cu_reset target quoted opened = connected_to target (clock_after reset cu_reset)
opened_at reset cu_reset target quoted (open_failed text) =
    connection_error (append "failed to open Control Unit at " (append quoted (append ": " text)))

abbrev pub open_at :
    Bool → Reset → (String → Opening) → (String → String) → Option String → Connection
open_at reset cu_reset open_unit quoted none =
    connection_error
      "no Carrera Control Unit found via BLE/serial scan; power the AppConnect on (it must not be paired with the iOS/Android app at the same time), or pass --mac <address> explicitly"
open_at reset cu_reset open_unit quoted (some target) =
    opened_at reset cu_reset target (quoted target) (open_unit target)

-- `connect`, with `repr` of a text; `reset` is `_reset_on_connect`.
unfoldable pub connect :
    Bool → Reset → Option String → Discovery → (String → Opening) → (String → String) → Connection
unfolding pick_device
connect reset cu_reset mac import_failed open_unit quoted =
    connection_error
      "carreralib is not installed; install it with `pip install carreralib` (or `pip install -e .[live]`), or run with --mock"
connect reset cu_reset mac (scan_failed text) open_unit quoted =
    connection_error (append "BLE/serial scan failed: " text)
connect reset cu_reset mac (scanned rows) open_unit quoted =
    open_at reset cu_reset open_unit quoted
      (or_address (given mac) (pick_device (map discovered rows)))

abbrev pub has_named : List DiscoveredDevice → Bool
has_named [] = false
has_named (d ∷ ds) = str_eq d.name "Control_Unit" || has_named ds
