-- ===== src/Queue.antt =====
-- `asyncio.Queue`, as the pipeline uses it: `put_nowait` and `get_nowait`, and the drop-oldest
-- offer that event_bus.py, carrera_client.py and bluetooth_connection_supervisor.py make with them.
pub mod DropOldest
use carrera_monitor.Prelude.{
  ℕ, Bool, ◌&&◌, Option, none, some, List, [], ◌∷◌, ◌++◌, length, ltb, leb, if◌then◌else◌,
}

-- A `maxsize` of zero sets no limit.
pub record Queue {ℓ} (E : Type ℓ) : Type ℓ where
  pub maxsize : ℕ
  pub items : List E

module _ {ℓ} {E : Type ℓ} where
  abbrev pub is_full : Queue E → Bool
  is_full q = ltb 0 q.maxsize && leb q.maxsize (length q.items)

  -- `none` is `QueueFull`.
  unfoldable pub put_nowait : Queue E → E → Option (Queue E)
  put_nowait q e = if is_full q then none else some (record q { items = q.items ++ e ∷ [] })

  abbrev take_first : Queue E → List E → Option (E × Queue E)
  take_first q [] = none
  take_first q (x ∷ xs) = some (x, record q { items = xs })

  -- `none` is `QueueEmpty`.
  unfoldable pub get_nowait : Queue E → Option (E × Queue E)
  get_nowait q = take_first q q.items

  -- The queue after `get_nowait` with `QueueEmpty` suppressed.
  unfoldable pub drop_oldest : Queue E → Queue E
  unfolding get_nowait
  drop_oldest q = elim (get_nowait q) [ none ↦ q | some (x, rest) ↦ rest ]

  -- A put; where the queue is full the oldest item is dropped, and a second put that fails is
  -- suppressed.
  unfoldable pub offer : Queue E → E → Queue E
  unfolding put_nowait drop_oldest
  offer q e = elim (put_nowait q e) [
    | some q' ↦ q'
    | none ↦ let r = drop_oldest q in elim (put_nowait r e) [ some r' ↦ r' | none ↦ r ]
  ]

  unfoldable pub offer_all : Queue E → List E → Queue E
  unfolding offer
  offer_all q [] = q
  offer_all q (e ∷ es) = offer_all (offer q e) es
