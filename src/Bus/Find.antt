-- ===== src/Bus/Find.antt =====
-- The queue of a name after each step.
use carrera_monitor.Prelude.{
  ℕ, String, str_eq, eq_iff, true, false, ◌≡◌, refl, sym, ap, ◌∙◌, inl, inr, some, List, [], ◌∷◌,
  ◌++◌, map, Bool-cases,
}
use carrera_monitor.Queue.{Queue, drop_oldest, offer}
use carrera_monitor.Bus.{Subscription, find, deliver}
use mathlib.Core.Option.{none-ne-some, some-injective}
use carrera_monitor.Bus.Steps.{take_from}

same_name : (a b c : String) → str_eq a b ≡ true → str_eq a c ≡ str_eq b c
same_name a b c h = ap (λ x. str_eq x c) ((eq_iff a b).0 h)

module _ {ℓ} {E : Type ℓ} where
  find_nil : (name : String) (q : Queue E) → ¬ (find name [] ≡ some q)
  unfolding find
  find_nil name q h = none-ne-some q h

  find-here :
      (name : String) (s : Subscription E) (ss : List (Subscription E))
      → str_eq s.name name ≡ true
      → find name (s ∷ ss) ≡ some s.queue
  unfolding find
  find-here name s ss h = rw (h) refl

  find-later :
      (name : String) (s : Subscription E) (ss : List (Subscription E))
      → str_eq s.name name ≡ false
      → find name (s ∷ ss) ≡ find name ss
  unfolding find
  find-later name s ss h = rw (h) refl

  deliver_name : (now : ℕ) (e : E) (s : Subscription E) → (deliver now e s).name ≡ s.name
  unfolding deliver
  deliver_name now e s = refl

  deliver_queue : (now : ℕ) (e : E) (s : Subscription E) → (deliver now e s).queue ≡ offer s.queue e
  unfolding deliver
  deliver_queue now e s = refl

  pub find-deliver :
      (name : String) (now : ℕ) (e : E) (ss : List (Subscription E)) (q : Queue E)
      → find name ss ≡ some q
      → find name (map (deliver now e) ss) ≡ some (offer q e)
  find-deliver name now e [] q h = absurd (find_nil name q h)
  find-deliver name now e (s ∷ ss) q h = elim (Bool-cases (str_eq s.name name)) [
    | inl here ↦
        let p : s.queue ≡ q = some-injective s.queue q (sym (find-here name s ss here) ∙ h) in
        find-here name (deliver now e s) (map (deliver now e) ss) (rw (deliver_name now e s) here)
        ∙ rw (deliver_queue now e s, p) refl
    | inr later ↦
        find-later name (deliver now e s) (map (deliver now e) ss) (rw (deliver_name now e s) later)
        ∙ find-deliver name now e ss q (sym (find-later name s ss later) ∙ h)
  ]

  pub find-append :
      (name : String) (ss ts : List (Subscription E)) (q : Queue E)
      → find name ss ≡ some q
      → find name (ss ++ ts) ≡ some q
  find-append name [] ts q h = absurd (find_nil name q h)
  find-append name (s ∷ ss) ts q h = elim (Bool-cases (str_eq s.name name)) [
    | inl here ↦ find-here name s (ss ++ ts) here ∙ sym (find-here name s ss here) ∙ h
    | inr later ↦
        find-later name s (ss ++ ts) later
        ∙ find-append name ss ts q (sym (find-later name s ss later) ∙ h)
  ]

  pub find-take_from :
      (name : String) (ss : List (Subscription E)) (q : Queue E)
      → find name ss ≡ some q
      → find name (take_from name ss) ≡ some (drop_oldest q)
  find-take_from name [] q h = absurd (find_nil name q h)
  find-take_from name (s ∷ ss) q h = elim (Bool-cases (str_eq s.name name)) [
    | inl here ↦
        let p : s.queue ≡ q = some-injective s.queue q (sym (find-here name s ss here) ∙ h) in
        let r : Subscription E = record s { queue = drop_oldest s.queue } in
        rw (here) (find-here name r ss here ∙ ap (λ x. some (drop_oldest x)) p)
    | inr later ↦ rw (later) (
        find-later name s (take_from name ss) later
        ∙ find-take_from name ss q (sym (find-later name s ss later) ∙ h))
  ]

  pub find-take_from_other :
      (name n : String) (ss : List (Subscription E)) (q : Queue E)
      → str_eq n name ≡ false
      → find name ss ≡ some q
      → find name (take_from n ss) ≡ some q
  find-take_from_other name n [] q other h = absurd (find_nil name q h)
  find-take_from_other name n (s ∷ ss) q other h = elim (Bool-cases (str_eq s.name n)) [
    | inl here ↦
        let later : str_eq s.name name ≡ false = same_name s.name n name here ∙ other in
        let r : Subscription E = record s { queue = drop_oldest s.queue } in
        rw (here) (find-later name r ss later ∙ sym (find-later name s ss later) ∙ h)
    | inr elsewhere ↦ elim (Bool-cases (str_eq s.name name)) [
      | inl is ↦
          rw (elsewhere) (find-here name s (take_from n ss) is ∙ sym (find-here name s ss is) ∙ h)
      | inr later ↦ rw (elsewhere) (
          find-later name s (take_from n ss) later
          ∙ find-take_from_other name n ss q other (sym (find-later name s ss later) ∙ h))
    ]
  ]
