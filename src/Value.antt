-- ===== src/Value.antt =====
-- Python values, as far as the translation and the validation of payloads look into them, and
-- dictionaries with text keys. `F` is the type of floats; `Python` is what the interpreter does
-- with floats and with text that stands for a number.
use carrera_monitor.Prelude.{
  ℕ, ◌==◌, String, str_eq, Bool, true, false, not, Option, none, some, is_some, List, [], ◌∷◌,
  if◌then◌else◌,
}
use carrera_monitor.Prelude.Int.{ℤ, pos, negsuc}

-- `bytes` is a `bytes` or a `bytearray`, `other` any other object, with its truth value.
pub data Value (F : Type 0) : Type 0 where
  null : Value F
  bool : Bool → Value F
  int : ℤ → Value F
  float : F → Value F
  str : String → Value F
  bytes : List ℕ → Value F
  other : Bool → Value F

pub record Python (F : Type 0) : Type 0 where
  pub float_of_int : ℤ → F
  pub le_float : F → F → Bool
  pub lt_float : F → F → Bool
  pub is_zero : F → Bool
  pub mul_float : F → F → F
  pub div_float : F → F → F
  -- `int(x)` and `float(x)` of a float, a text or bytes, `none` where they raise
  pub int_of_float : F → Option ℤ
  pub int_of_text : String → Option ℤ
  pub float_of_text : String → Option F
  pub int_of_bytes : List ℕ → Option ℤ
  pub float_of_bytes : List ℕ → Option F
  -- `str(v)` of a value that is no text
  pub text_of : Value F → String
  -- `v == w`
  pub eq_value : Value F → Value F → Bool
  -- `repr(s)` of a text
  pub repr_text : String → String

abbrev pub Dict : Type 0 → Type 0
Dict F = List (String × Value F)

abbrev pub bool_int : Bool → ℤ
bool_int true = pos 1
bool_int false = pos 0

abbrev pub zero_int : ℤ → Bool
zero_int (pos n) = n == 0
zero_int (negsuc n) = false

module _ {F : Type 0} where
  -- `d.get(key)`; `none` is a missing key.
  unfoldable pub get : String → Dict F → Option (Value F)
  get key [] = none
  get key ((k, v) ∷ d) = if str_eq k key then some v else get key d

  -- `d.pop(key, None)`
  unfoldable pub remove : String → Dict F → Dict F
  remove key [] = []
  remove key ((k, v) ∷ d) = let rest = remove key d in if str_eq k key then rest else (k, v) ∷ rest

  -- `key in d`
  abbrev pub has : String → Dict F → Bool
  has key d = is_some (get key d)

  -- `isinstance(v, int)`, with the number; a bool is an int.
  abbrev pub as_int : Value F → Option ℤ
  as_int (int i) = some i
  as_int (bool b) = some (bool_int b)
  as_int _ = none

  -- `isinstance(v, str)`
  abbrev pub as_text : Value F → Option String
  as_text (str s) = some s
  as_text _ = none

  -- `isinstance(v, bool)`
  abbrev pub as_bool : Value F → Option Bool
  as_bool (bool b) = some b
  as_bool _ = none

  -- `isinstance(v, (int, float))`, with `float(v)`.
  abbrev pub as_number : Python F → Value F → Option F
  as_number py (int i) = some (py.float_of_int i)
  as_number py (bool b) = some (py.float_of_int (bool_int b))
  as_number py (float x) = some x
  as_number py _ = none

  -- `int(v)`, `float(v)` and `str(v)`.
  unfoldable pub to_int : Python F → Value F → Option ℤ
  to_int py (int i) = some i
  to_int py (bool b) = some (bool_int b)
  to_int py (float x) = py.int_of_float x
  to_int py (str s) = py.int_of_text s
  to_int py (bytes bs) = py.int_of_bytes bs
  to_int py _ = none

  unfoldable pub to_float : Python F → Value F → Option F
  to_float py (int i) = some (py.float_of_int i)
  to_float py (bool b) = some (py.float_of_int (bool_int b))
  to_float py (float x) = some x
  to_float py (str s) = py.float_of_text s
  to_float py (bytes bs) = py.float_of_bytes bs
  to_float py _ = none

  unfoldable pub to_text : Python F → Value F → String
  to_text py (str s) = s
  to_text py v = py.text_of v

  -- `bool(v)`
  unfoldable pub truthy : Python F → Value F → Bool
  truthy py null = false
  truthy py (bool b) = b
  truthy py (int i) = not (zero_int i)
  truthy py (float x) = not (py.is_zero x)
  truthy py (str s) = not (str_eq s "")
  truthy py (bytes []) = false
  truthy py (bytes (b ∷ bs)) = true
  truthy py (other b) = b
