-- ===== src/Client/Adapter/Cars.antt =====
-- Reading a car of a dictionary of the adapter after one is written.
use carrera_monitor.Prelude.{false, ◌≡◌, refl, inl, inr, some, List, [], ◌∷◌, Bool-cases}
use carrera_monitor.Prelude.Int.{ℤ}
use carrera_monitor.Continuity.{eq_ℤ}
use carrera_monitor.Continuity.Slots.{eq_ℤ_refl, eq_ℤ→≡}
use carrera_monitor.Client.Adapter.{get_car, put_car}

module _ {ℓ} {A : Type ℓ} where
  pub get_car-put_car : (c : ℤ) (a : A) (d : List (ℤ × A)) → get_car c (put_car c a d) ≡ some a
  unfolding get_car put_car
  get_car-put_car c a [] = rw (eq_ℤ_refl c) refl
  get_car-put_car c a ((k, b) ∷ d) = elim (Bool-cases (eq_ℤ k c)) [
    | inl here ↦ rw (here, eq_ℤ_refl c) refl
    | inr there ↦ rw (there, there) (get_car-put_car c a d)
  ]

  pub get_car-put_car_other :
      (c e : ℤ) (a : A) (d : List (ℤ × A))
      → eq_ℤ e c ≡ false
      → get_car c (put_car e a d) ≡ get_car c d
  unfolding get_car put_car
  get_car-put_car_other c e a [] other = rw (other) refl
  get_car-put_car_other c e a ((k, b) ∷ d) other = elim (Bool-cases (eq_ℤ k e)) [
    | inl here ↦ let p = eq_ℤ→≡ k e here in rw (here, p, other) refl
    | inr there ↦ elim (Bool-cases (eq_ℤ k c)) [
      | inl yes_c ↦ rw (there, yes_c) refl
      | inr no_c ↦ rw (there, no_c) (get_car-put_car_other c e a d other)
    ]
  ]
