-- ===== src/Client/Runner/Backoff.antt =====
-- How the wait between two attempts of a `CarreraClientRunner` grows.
use Prim.Native.Nat.{min, max, ◌^◌}
use carrera_monitor.Prelude.{
  ℕ, zero, suc, ◌+◌, ◌*◌, ◌≤◌, String, false, Bool-cases, leb, inl, inr, ◌<◌, ◌≡◌, refl, ap, ◌∙◌,
  List, [], ◌∷◌, length, arith,
}
use native.Mathlib.Numerals.{unary_clauses}
use carrera_monitor.Client.Frames.{Stamp}
use carrera_monitor.Client.Runner.{Runner, begin, rest, connect_failed, slept, emit_connection}

times_pos : (a e : ℕ) → 1 ≤ e → a ≤ a * e
times_pos a zero h = absurd (omega arith)
times_pos a (suc e) h = omega arith

pow_pos : (k : ℕ) → 1 ≤ 2 ^ k
pow_pos zero = omega arith
pow_pos (suc k) = let ih = pow_pos k in omega arith

times_double : (b e : ℕ) → b * 2 * e ≡ b * (e * 2)
times_double b e = omega arith

double_clamped :
    (b m e : ℕ) → 1 ≤ b → 1 ≤ e → min (min (max 1 (b * 2)) m * e) m ≡ min (b * (e * 2)) m
double_clamped b m e one pos_e = elim (Bool-cases (leb (b * 2) m)) [
  | inl small_test ↦
      let small : b * 2 ≤ m = ground arith in
      let p : min (max 1 (b * 2)) m ≡ b * 2 = omega arith in
      rw (p) (ap (λ x. min x m) (times_double b e))
  | inr large_test ↦
      let large : m < b * 2 = ground arith in
      let p : min (max 1 (b * 2)) m ≡ m = omega arith in
      let q = times_pos m e pos_e in let w = times_pos (b * 2) e pos_e in rw (p) (omega arith)
]

module _ {F : Type 0} where
  -- Attempts that fail one after the other, each with the time and the text of the failure and the
  -- time of the next attempt.
  abbrev pub fail_all : List (Stamp × (String × Stamp)) → Runner F → Runner F
  fail_all [] r = r
  fail_all ((now, (text, next)) ∷ rest) r = fail_all rest (slept next (connect_failed now text r))

  fail_once :
      (now next : Stamp) (text : String) (r : Runner F)
      → r.stop ≡ false
      → ((slept next (connect_failed now text r)).stop ≡ false)
        × (((slept next (connect_failed now text r)).backoff
              ≡ min (max 1 (r.backoff * 2)) r.reconnect_max)
            × (((slept next (connect_failed now text r)).attempt ≡ r.attempt + 1)
                × ((slept next (connect_failed now text r)).reconnect_max ≡ r.reconnect_max)))
  unfolding slept connect_failed rest begin emit_connection
  fail_once now next text r on = rw (on) ((refl, (refl, (refl, refl))))

  -- From a backoff of at least one second and at most the maximum, attempts of a runner that is not
  -- to stop that fail one after the other make it that backoff times two to the number of attempts,
  -- up to the maximum, and every one of them is counted.
  pub backoff-fail_all :
      (fs : List (Stamp × (String × Stamp))) (r : Runner F)
      → r.stop ≡ false
      → 1 ≤ r.backoff
      → r.backoff ≤ r.reconnect_max
      → ((fail_all fs r).backoff ≡ min (r.backoff * 2 ^ length fs) r.reconnect_max)
        × ((fail_all fs r).attempt ≡ r.attempt + length fs)
  backoff-fail_all [] r on one high = (omega arith, omega arith)
  backoff-fail_all ((now, (text, next)) ∷ fs) r on one high =
      let s = slept next (connect_failed now text r) in
      let (on', (is, (count, limit))) = fail_once now next text r on in
      let (ih, counts) = backoff-fail_all fs s on' (omega arith) (omega arith) in
      (
        ih
            ∙ rw (is, limit)
                (simp unary_clauses (
                  double_clamped r.backoff r.reconnect_max (2 ^ length fs) one
                    (pow_pos (length fs)))),
        counts ∙ rw (count) (omega arith),
      )
