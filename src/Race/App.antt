-- ===== src/Race/App.antt =====
-- The state of `RaceService`: the database, the `ActiveRaceContext` of race_context.py and the
-- safety-car cache. A method is an action: it returns a result, or raises, and leaves a state.
use carrera_monitor.Prelude.{
  ℕ, String, Bool, false, Option, none, some, List, [], ◌∷◌, ◌==◌, if◌then◌else◌,
}
use carrera_monitor.Race.Model.{Database}

-- services/__init__.py, and pydantic's and SQLAlchemy's errors
pub data Error : Type 0 where
  race_not_found invalid_race_state race_not_editable race_validation : Error
  schema_validation integrity : Error

pub data Result {ℓ} (A : Type ℓ) : Type ℓ where
  ok : A → Result A
  err : Error → Result A

-- config.py
pub record RaceManagementConfig : Type 0 where
  pub persist_all_events : Bool
  pub allow_edit_running_race : Bool
  pub default_race_status_after_create : String
  pub recover_running_race : Bool

abbrev pub Cache : Type 0
Cache = List (ℕ × Bool)

unfoldable pub lookup : ℕ → Cache → Option Bool
lookup k [] = none
lookup k ((j, b) ∷ c) = if j == k then some b else lookup k c

-- `cache.pop(k, None)`
unfoldable pub pop : ℕ → Cache → Cache
pop k [] = []
pop k ((j, b) ∷ c) = let rest = pop k c in if j == k then rest else (j, b) ∷ rest

-- `cache[k] = b`
unfoldable pub put : ℕ → Bool → Cache → Cache
unfolding pop
put k b c = (k, b) ∷ pop k c

pub record App (F : Type 0) : Type 0 where
  pub db : Database F
  pub active : Option ℕ
  pub safety_car_active : Cache

abbrev pub Action : Type 0 → Type 0 → Type 0
Action F A = App F → Result A × App F

-- `ActiveRaceContext.get() == race_id`
abbrev pub is_active : Option ℕ → ℕ → Bool
is_active none k = false
is_active (some j) k = j == k

-- `if ActiveRaceContext.get() == race_id: ActiveRaceContext.clear()`
unfoldable pub clear_active : {F : Type 0} → ℕ → App F → App F
clear_active k s = if is_active s.active k then record s { active = none } else s

unfoldable pub set_active : {F : Type 0} → ℕ → App F → App F
set_active k s = record s { active = some k }

unfoldable pub drop_safety_car : {F : Type 0} → ℕ → App F → App F
unfolding pop
drop_safety_car k s = record s { safety_car_active = pop k s.safety_car_active }
