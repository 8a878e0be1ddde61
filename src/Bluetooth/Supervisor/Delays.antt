-- ===== src/Bluetooth/Supervisor/Delays.antt =====
-- The delay before the supervisor tries again.
use carrera_monitor.Prelude.{
  ℕ, zero, suc, ◌-◌, ◌≤◌, true, false, ◌≡◌, refl, ap, ◌∙◌, Option, none, some, List, [], ◌∷◌,
  length, arith,
}
use Prim.Native.Nat.{min}
use carrera_monitor.Bluetooth.{BluetoothConfig, is_valid_config, is_empty, all_positive}
use carrera_monitor.Bluetooth.Supervisor.{next_backoff_delay, entry_or_last}

abbrev pub get_elem? : List ℕ → ℕ → Option ℕ
get_elem? [] i = none
get_elem? (n ∷ ns) zero = some n
get_elem? (n ∷ ns) (suc i) = get_elem? ns i

entry_or_last-get_elem? :
    (i last n : ℕ) (ns : List ℕ)
    → get_elem? (n ∷ ns) (min i (length ns)) ≡ some (entry_or_last i last (n ∷ ns))
entry_or_last-get_elem? zero last n ns = let e : min 0 (length ns) ≡ 0 = omega arith in rw (e) refl
entry_or_last-get_elem? (suc i) last n [] = let e : min (suc i) 0 ≡ 0 = omega arith in rw (e) refl
entry_or_last-get_elem? (suc i) last n (m ∷ ns) =
    let e : min (suc i) (suc (length ns)) ≡ suc (min i (length ns)) = omega arith in
    rw (e) (entry_or_last-get_elem? i n m ns)

entry_or_last-positive :
    (i last : ℕ) (ns : List ℕ) → 1 ≤ last → all_positive ns ≡ true → 1 ≤ entry_or_last i last ns
entry_or_last-positive i last [] one h = one
entry_or_last-positive zero last (n ∷ ns) one h = ground arith
entry_or_last-positive (suc i) last (n ∷ ns) one h =
    entry_or_last-positive i n ns (ground arith) (ground arith)

scheduled :
    (i last : ℕ) (ns : List ℕ)
    → is_empty ns ≡ false
    → get_elem? ns (min i (length ns - 1)) ≡ some (entry_or_last i last ns)
scheduled i last [] h = ground arith
scheduled i last (n ∷ ns) h =
    let e : suc (length ns) - 1 ≡ length ns = omega arith in
    ap (λ k. get_elem? (n ∷ ns) (min i k)) e ∙ entry_or_last-get_elem? i last n ns

-- With a valid configuration, the delay after some failed attempts is positive, and is the entry
-- of the schedule for that number of attempts, or its last entry where there are fewer.
pub next_backoff_delay-scheduled :
    (cfg : BluetoothConfig) (attempts : ℕ)
    → is_valid_config cfg ≡ true
    → (1 ≤ next_backoff_delay cfg attempts)
      × (get_elem? cfg.reconnect_backoff_seconds
            (min (attempts - 1) (length cfg.reconnect_backoff_seconds - 1))
          ≡ some (next_backoff_delay cfg attempts))
unfolding next_backoff_delay is_valid_config
next_backoff_delay-scheduled cfg attempts valid = (
  entry_or_last-positive (attempts - 1) cfg.reconnect_interval_seconds cfg.reconnect_backoff_seconds
      (ground arith) (ground arith),
  scheduled (attempts - 1) cfg.reconnect_interval_seconds cfg.reconnect_backoff_seconds
      (ground arith),
)
