-- ===== src/State/Cars.antt =====
-- The car that a key has in the dictionary of cars, after a change of a car.
use carrera_monitor.Prelude.{
  ℕ, ◌==◌, false, ◌≡◌, Option, none, some, List, [], ◌∷◌, if◌then◌else◌, arith,
}
use carrera_monitor.State.Model.{CarState, new_car}
use carrera_monitor.State.Apply.{with_car, or_else}

module _ {F : Type 0} where
  -- `cars.get(c)`
  unfoldable pub find_car : ℕ → List (CarState F) → Option (CarState F)
  find_car c [] = none
  find_car c (x ∷ xs) = if x.car_id == c then some x else find_car c xs

  -- The car under a key, where a missing one reads as a new one.
  abbrev pub car_at : ℕ → List (CarState F) → CarState F
  car_at c xs = or_else (new_car c) (find_car c xs)

  pub with_car-here :
      (c : ℕ) (f : CarState F → CarState F) (xs : List (CarState F))
      → ((x : CarState F) → (f x).car_id ≡ x.car_id)
      → car_at c (with_car c f xs) ≡ f (car_at c xs)
  unfolding find_car with_car
  with_car-here c f [] keeps = ground (arith, keeps (new_car c))
  with_car-here c f (x ∷ xs) keeps = ground (arith, keeps x, with_car-here c f xs keeps)

  pub with_car-other :
      (c d : ℕ) (f : CarState F → CarState F) (xs : List (CarState F))
      → ((x : CarState F) → (f x).car_id ≡ x.car_id)
      → (c == d) ≡ false
      → car_at d (with_car c f xs) ≡ car_at d xs
  unfolding find_car with_car
  with_car-other c d f [] keeps other = ground (arith, keeps (new_car c))
  with_car-other c d f (x ∷ xs) keeps other =
      ground (arith, keeps x, with_car-other c d f xs keeps other)
