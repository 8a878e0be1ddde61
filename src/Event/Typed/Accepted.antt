-- ===== src/Event/Typed/Accepted.antt =====
-- What the validation of a payload accepts.
use carrera_monitor.Prelude.{
  ℕ, String, str_eq, eq_iff, Bool, true, false, not, ◌&&◌, ◌||◌, ◌≡◌, refl, ap, ◌∙◌, inl, inr,
  Option, none, some, is_some, [], ◌∷◌, arith, Bool-cases, Option-cases, leb,
}
use mathlib.Core.Option.{none-ne-some}
use carrera_monitor.Prelude.Int.{pos}
use carrera_monitor.Value.{Value, Dict, Python, get, remove, as_int, as_text, as_bool}
use carrera_monitor.Event.{EventType, Payload, payload_type}
use carrera_monitor.Event.Validation.{
  bind, is_null, is_nat, text_or_null, passes, take_alias, lap_shape, connection_entries,
  connection_shape, type_shape, payload_shape, known_keys, is_raw,
}
use carrera_monitor.Event.Typed.{typed, connection_payload, read_entry, plain, nullable, as_nat}

bind_inversion :
    {A B : Type 0} (o : Option A) (f : A → Option B) (b : B)
    → bind o f ≡ some b
    → (a : A) × (o ≡ some a) × (f a ≡ some b)
bind_inversion none f b h = absurd (none-ne-some b h)
bind_inversion (some a) f b h = (a, refl, h)

bind-is_some :
    {A B : Type 0} (o : Option A) (f : A → Option B)
    → is_some o ≡ true
    → ((a : A) → is_some (f a) ≡ true)
    → is_some (bind o f) ≡ true
bind-is_some none f h next = absurd (ground arith)
bind-is_some (some a) f h next = next a

both-split : (a b : Bool) → (a && b) ≡ true → (a ≡ true) × (b ≡ true)
both-split true b h = (refl, h)
both-split false b h = absurd (ground arith)

module _ {F : Type 0} where
  abbrev pub between : Python F → ℕ → ℕ → F → Bool
  between py lo hi x =
      py.le_float (py.float_of_int (pos lo)) x && py.le_float x (py.float_of_int (pos hi))

  -- The ranges of event_model.py: a lap is numbered from one, a fuel level is a percentage, a
  -- throttle or a brake lies between zero and one, and a speed is not below zero.
  unfoldable pub in_range : Python F → Payload F → Bool
  in_range py (Payload.lap n t cu) = leb 1 n
  in_range py (Payload.fuel x) = between py 0 100 x
  in_range py (Payload.controller_input x y) = between py 0 1 x && between py 0 1 y
  in_range py (Payload.speed x) = not (py.lt_float x (py.float_of_int (pos 0)))
  in_range py (Payload.brake x) = between py 0 1 x
  in_range py _ = true

  abbrev ranged : Python F → Option (Payload F) → Bool
  ranged py none = false
  ranged py (some x) = in_range py x

  get-remove : (j k : String) (d : Dict F) → str_eq j k ≡ false → get k (remove j d) ≡ get k d
  unfolding get remove
  get-remove j k [] other = refl
  get-remove j k ((i, v) ∷ d) other = elim (Bool-cases (str_eq i j)) [
    | inl same ↦
        let e : str_eq i k ≡ false = ap (λ x. str_eq x k) ((eq_iff i j).0 same) ∙ other in
        rw (same, e) (get-remove j k d other)
    | inr differs ↦ ground (arith, get-remove j k d other)
  ]

  lap_entry :
      (key : String) (p : Dict F)
      → str_eq "lap" key ≡ false
      → str_eq "time_ms" key ≡ false
      → get key (remove "time_ms" (remove "lap" p)) ≡ get key p
  lap_entry key p a b = get-remove "time_ms" key (remove "lap" p) b ∙ get-remove "lap" key p a

  lap_ranged :
      (py : Python F) (p q : Dict F)
      → lap_shape p ≡ some q
      → ranged py (typed py EventType.lap q) ≡ true
  unfolding lap_shape typed in_range
  lap_ranged py p q h =
      ground (arith, lap_entry "lap_number" p refl refl, lap_entry "lap_time_ms" p refl refl)

  plain-is_some :
      {A : Type 0} (read : Value F → Option A) (v : Value F)
      → is_some (read v) ≡ true
      → is_some (plain read v) ≡ true
  plain-is_some read v h = elim (Option-cases (read v)) [
    | inl e ↦ absurd (ground arith)
    | inr (a, e) ↦ rw e refl
  ]

  nullable-is_some :
      {A : Type 0} (read : Value F → Option A) (v : Value F)
      → (is_null v || is_some (read v)) ≡ true
      → is_some (nullable read v) ≡ true
  nullable-is_some read v h = elim (Bool-cases (is_null v)) [
    | inl e ↦ rw e refl
    | inr e ↦ rw e (plain-is_some read v (rw e at h))
  ]

  -- An optional entry that passes its test is read, and what follows it is read too.
  read_next :
      {A B : Type 0} (test : Value F → Bool) (read : Value F → Option (Option A))
      → ((v : Value F) → test v ≡ true → is_some (read v) ≡ true)
      → (o : Option (Value F)) (rest : Bool) (f : Option A → Option B)
      → (passes test o && rest) ≡ true
      → (rest ≡ true → (a : Option A) → is_some (f a) ≡ true)
      → is_some (bind (read_entry read o) f) ≡ true
  read_next test read reads none rest f h next = next h none
  read_next test read reads (some v) rest f h next =
      let (ok, more) = both-split (test v) rest h in
      bind-is_some (read v) f (reads v ok) (next more)

  text_next :
      {B : Type 0} (o : Option (Value F)) (rest : Bool) (f : Option String → Option B)
      → (passes text_or_null o && rest) ≡ true
      → (rest ≡ true → (a : Option String) → is_some (f a) ≡ true)
      → is_some (bind (read_entry (nullable as_text) o) f) ≡ true
  text_next = read_next text_or_null (nullable as_text) (nullable-is_some as_text)

  nat_next :
      {B : Type 0} (o : Option (Value F)) (rest : Bool) (f : Option ℕ → Option B)
      → (passes is_nat o && rest) ≡ true
      → (rest ≡ true → (a : Option ℕ) → is_some (f a) ≡ true)
      → is_some (bind (read_entry (plain as_nat) o) f) ≡ true
  nat_next = read_next is_nat (plain as_nat) (plain-is_some as_nat)

  connection_typed :
      (p : Dict F) → connection_shape p ≡ true → is_some (connection_payload p) ≡ true
  unfolding connection_shape connection_entries connection_payload
  connection_typed p shaped =
      let (state, entries) = both-split _ (connection_entries p) shaped in
      bind-is_some _ _ state λ st. text_next (get "error" p) _ _ entries λ h e.
        text_next (get "reason" p) _ _ h λ h r. nat_next (get "timeout_streak" p) _ _ h λ h t.
          text_next (get "event" p) _ _ h λ h ev.
            read_next _ (plain as_bool) (plain-is_some as_bool) (get "desired_connected" p) _ _ h
              λ h d. text_next (get "device_id" p) _ _ h λ h i.
                text_next (get "device_name" p) _ _ h λ h n.
                  text_next (get "mac_address" p) _ _ h λ h m.
                    text_next (get "connected_at" p) _ _ h λ h c.
                      text_next (get "disconnected_at" p) _ _ h λ h x.
                        text_next (get "last_seen_at" p) _ _ h λ h l.
                          read_next _ (nullable as_int) (nullable-is_some as_int) (get "rssi" p) _ _
                            h
                            λ h s.
                              read_next _ (nullable as_nat) (nullable-is_some as_nat)
                                (get "last_rx_monotonic_ms" p) _ _ h
                                λ h rx. nat_next (get "reconnect_attempts" p) _ _ h λ h a. refl

  connection_ranged :
      (py : Python F) (p : Dict F)
      → connection_shape p ≡ true
      → ranged py (typed py EventType.connection_state p) ≡ true
  unfolding typed in_range
  connection_ranged py p h = elim (Option-cases (connection_payload p)) [
    | inl e ↦ absurd (ground (arith, connection_typed p h))
    | inr (c, e) ↦ rw e refl
  ]

  type_shape-ranged :
      (py : Python F) (et : EventType) (p q : Dict F)
      → type_shape py et p ≡ some q
      → ranged py (typed py et q) ≡ true
  unfolding type_shape typed in_range
  type_shape-ranged py EventType.lap p q h =
      let (r, taken, more) = bind_inversion (take_alias py "lap_number" "lap" p) _ q h in
      let (t, both, shaped) = bind_inversion (take_alias py "lap_time_ms" "time_ms" r) _ q more in
      lap_ranged py t q shaped
  type_shape-ranged py EventType.connection_state p q h = ground (arith, connection_ranged py p)
  type_shape-ranged py EventType.fuel p q h = ground arith
  type_shape-ranged py EventType.speed p q h = ground arith
  type_shape-ranged py EventType.brake p q h = ground arith
  type_shape-ranged py EventType.controller_input p q h = ground arith
  type_shape-ranged py EventType.pitlane p q h = ground arith
  type_shape-ranged py EventType.race_state p q h = ground arith
  type_shape-ranged py EventType.raw p q h = refl
  type_shape-ranged py EventType.not_supported p q h = ground arith

  typed-type :
      (py : Python F) (et : EventType) (q : Dict F) (x : Payload F)
      → typed py et q ≡ some x
      → payload_type x ≡ et
  unfolding typed
  typed-type py EventType.lap q x h = ground arith
  typed-type py EventType.connection_state q x h = ground arith
  typed-type py EventType.fuel q x h = ground arith
  typed-type py EventType.speed q x h = ground arith
  typed-type py EventType.brake q x h = ground arith
  typed-type py EventType.controller_input q x h = ground arith
  typed-type py EventType.pitlane q x h = ground arith
  typed-type py EventType.race_state q x h = ground arith
  typed-type py EventType.raw q x h = ground arith
  typed-type py EventType.not_supported q x h = ground arith

  accepted :
      (py : Python F) (et : EventType) (p q : Dict F)
      → payload_shape py et p ≡ some q
      → ((is_raw et || known_keys et p) ≡ true) × (type_shape py et p ≡ some q)
  unfolding payload_shape
  accepted py et p q h = (ground arith, ground arith)

  -- A payload of an event type that the validation accepts has only the keys of that type, unless
  -- it is raw, and stands, as the validation leaves it, for a typed payload of that type: each
  -- entry, the optional ones of a connection event too, has a value of its type, and a lap is
  -- numbered from one, a fuel level lies between 0 and 100, a throttle and a brake between 0 and 1,
  -- and a speed is not below 0.
  pub payload_shape-typed :
      (py : Python F) (et : EventType) (p q : Dict F)
      → payload_shape py et p ≡ some q
      → ((is_raw et || known_keys et p) ≡ true)
        × ((x : Payload F) × (typed py et q ≡ some x)
            × (payload_type x ≡ et)
            × (in_range py x ≡ true))
  payload_shape-typed py et p q h =
      let (keys, shaped) = accepted py et p q h in
      (
        keys,
        elim (Option-cases (typed py et q)) [
          | inl e ↦ absurd (ground (arith, type_shape-ranged py et p q shaped))
          | inr (x, e) ↦
              let r = type_shape-ranged py et p q shaped in
              (x, e, typed-type py et q x e, rw e at r)
        ],
      )
