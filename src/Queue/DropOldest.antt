-- ===== src/Queue/DropOldest.antt =====
-- A bounded queue keeps the newest items, in the order in which they came.
use carrera_monitor.Prelude.{
  ℕ, suc, ◌-◌, ◌≤◌, ◌<◌, ◌≡◌, refl, sym, ap, ◌∙◌, inl, inr, List, [], ◌∷◌, ◌++◌, length,
  length-append, drop, leb, if◌then◌else◌, arith, Bool-cases,
}
use mathlib.Core.List.{append_assoc, append-nil}
use carrera_monitor.Queue.{Queue, offer, offer_all}

module _ {ℓ} {E : Type ℓ} where
  abbrev pub tail : List E → List E
  tail [] = []
  tail (x ∷ xs) = xs

  -- What an offer does to a queue that holds at most `maxsize` items.
  pub offer_items :
      (q : Queue E) (e : E)
      → 0 < q.maxsize
      → length q.items ≤ q.maxsize
      → (offer q e).items
        ≡ (if leb q.maxsize (length q.items) then tail q.items ++ e ∷ [] else q.items ++ e ∷ [])
  unfolding offer
  offer_items q e pos fits = ground arith

  pub offer_maxsize : (q : Queue E) (e : E) → (offer q e).maxsize ≡ q.maxsize
  unfolding offer
  offer_maxsize q e = ground arith

  -- The newest `m` items of a list.
  abbrev pub newest : ℕ → List E → List E
  newest m xs = drop (length xs - m) xs

  newest-longer : (m : ℕ) (x : E) (xs : List E) → m ≤ length xs → newest m (x ∷ xs) ≡ newest m xs
  newest-longer m x xs le =
      let p : suc (length xs) - m ≡ suc (length xs - m) = omega arith in rw (p) refl

  push-full :
      (m : ℕ) (xs : List E) (e : E) (es : List E)
      → 0 < m
      → length xs ≡ m
      → newest m ((tail xs ++ e ∷ []) ++ es) ≡ newest m (xs ++ e ∷ es)
  push-full m [] e es pos same = ground arith
  push-full m (x ∷ xs) e es pos same =
      let le : m ≤ length (xs ++ e ∷ es) = omega (arith, length-append xs (e ∷ es)) in
      ap (newest m) (append_assoc xs (e ∷ []) es) ∙ sym (newest-longer m x (xs ++ e ∷ es) le)

  newest-push :
      (m : ℕ) (xs : List E) (e : E) (es : List E)
      → 0 < m
      → length xs ≤ m
      → newest m ((if leb m (length xs) then tail xs ++ e ∷ [] else xs ++ e ∷ []) ++ es)
        ≡ newest m (xs ++ e ∷ es)
  newest-push m xs e es pos fits = elim (Bool-cases (leb m (length xs))) [
    | inl full ↦ rw (full) (push-full m xs e es pos (ground arith))
    | inr room ↦ rw (room) (ap (newest m) (append_assoc xs (e ∷ []) es))
  ]

  length-tail : (xs : List E) → length (tail xs) ≡ length xs - 1
  length-tail [] = omega arith
  length-tail (x ∷ xs) = omega arith

  pub length-offer :
      (q : Queue E) (e : E)
      → 0 < q.maxsize
      → length q.items ≤ q.maxsize
      → length (offer q e).items ≤ (offer q e).maxsize
  length-offer q e pos fits =
      rw (offer_items q e pos fits, offer_maxsize q e)
        (ground (
          arith,
          length-append (tail q.items) (e ∷ []),
          length-append q.items (e ∷ []),
          length-tail q.items,
        ))

  pub offer_all-newest :
      (q : Queue E) (es : List E)
      → 0 < q.maxsize
      → length q.items ≤ q.maxsize
      → (offer_all q es).items ≡ newest q.maxsize (q.items ++ es)
  unfolding offer_all
  offer_all-newest q [] pos fits =
      let p : length (q.items ++ []) - q.maxsize ≡ 0 = omega (arith, length-append q.items []) in
      rw (p) (sym (append-nil q.items))
  offer_all-newest q (e ∷ es) pos fits =
      let pos' : 0 < (offer q e).maxsize = rw (offer_maxsize q e) pos in
      offer_all-newest (offer q e) es pos' (length-offer q e pos fits)
      ∙ rw (offer_maxsize q e, offer_items q e pos fits)
          (newest-push q.maxsize q.items e es pos fits)
