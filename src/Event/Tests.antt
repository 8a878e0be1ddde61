-- ===== src/Event/Tests.antt =====
-- The validation of a payload at concrete data, with natural numbers for floats.
use carrera_monitor.Prelude.{
  ℕ, ◌*◌, ◌/◌, ◌==◌, false, true, ◌||◌, ◌≡◌, refl, none, some, [], ◌∷◌, leb, ltb,
}
use carrera_monitor.Prelude.Int.{pos, pos_part}
use carrera_monitor.Value.{int, Dict, Python, get, remove}
use carrera_monitor.Event.{EventType, Payload, payload_type}
use carrera_monitor.Event.Validation.{
  is_raw, payload_shape, known_keys, type_shape, take_alias, lap_shape, allowed_keys,
}
use carrera_monitor.Event.Typed.{typed}
use carrera_monitor.Event.Typed.Accepted.{in_range, payload_shape-typed}

abbrev pub whole_floats : Python ℕ
whole_floats = record {
  float_of_int = pos_part;
  le_float = leb;
  lt_float = ltb;
  is_zero = λ x. x == 0;
  mul_float = ◌*◌;
  div_float = ◌/◌;
  int_of_float = λ x. some (pos x);
  int_of_text = λ s. none;
  float_of_text = λ s. none;
  int_of_bytes = λ s. none;
  float_of_bytes = λ s. none;
  text_of = λ v. "";
  eq_value = λ v w. false;
  repr_text = λ s. s;
}

-- A lap that the adapter names in the older way.
abbrev old_lap : Dict ℕ
old_lap = ("lap", int (pos 3)) ∷ ("time_ms", int (pos 7100)) ∷ []

abbrev new_lap : Dict ℕ
new_lap = ("lap_number", int (pos 3)) ∷ ("lap_time_ms", int (pos 7100)) ∷ []

payload_shape-typed_example :
    ((is_raw EventType.lap || known_keys EventType.lap old_lap) ≡ true)
    × ((x : Payload ℕ) × (typed whole_floats EventType.lap new_lap ≡ some x)
        × (payload_type x ≡ EventType.lap)
        × (in_range whole_floats x ≡ true))
unfolding payload_shape known_keys type_shape take_alias lap_shape allowed_keys get remove
payload_shape-typed_example = payload_shape-typed whole_floats EventType.lap old_lap new_lap refl
