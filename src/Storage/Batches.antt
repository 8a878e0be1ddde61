-- ===== src/Storage/Batches.antt =====
-- What a batch takes from a writer's queue, and what it leaves written.
use carrera_monitor.Prelude.{
  ℕ, zero, suc, ◌-◌, true, false, ◌&&◌, ◌≡◌, refl, sym, ap, ◌∙◌, Option, none, some, List, [], ◌∷◌,
  ◌++◌, length, arith,
}
use mathlib.Core.List.{append_assoc, append-nil}
use carrera_monitor.Event.{TelemetryEvent}
use carrera_monitor.Queue.{Queue, get_nowait}
use carrera_monitor.Storage.{
  JsonlEventWriter, Faults, LapRow, lap_row, cons_some, lap_rows, take_up_to, write_batch,
  write_unless_empty,
}

cons_some_append :
    (row : Option LapRow) (xs ys : List LapRow) → cons_some row (xs ++ ys) ≡ cons_some row xs ++ ys
cons_some_append none xs ys = refl
cons_some_append (some row) xs ys = refl

abbrev pub no_faults : Faults
no_faults = record { jsonl_write = false; csv_write = false }

module _ {F : Type 0} where
  -- The events of a queue from its front.
  abbrev queue_of : ℕ → List (TelemetryEvent F) → Queue (TelemetryEvent F)
  queue_of m xs = record { maxsize = m; items = xs }

  take_up_to-items :
      (n m : ℕ) (xs : List (TelemetryEvent F))
      → ((take_up_to n (queue_of m xs)).0 ++ (take_up_to n (queue_of m xs)).1.items ≡ xs)
        × (((take_up_to n (queue_of m xs)).1.maxsize ≡ m)
            × (length (take_up_to n (queue_of m xs)).1.items ≡ length xs - n))
  unfolding take_up_to get_nowait
  take_up_to-items zero m xs = (refl, (refl, ground arith))
  take_up_to-items (suc n) m [] = (refl, (refl, ground arith))
  take_up_to-items (suc n) m (x ∷ xs) =
      let (items, (size, left)) = take_up_to-items n m xs in
      (ap (λ l. x ∷ l) items, (size, left ∙ ground arith))

  pub lap_rows_append :
      (xs ys : List (TelemetryEvent F)) → lap_rows (xs ++ ys) ≡ lap_rows xs ++ lap_rows ys
  unfolding lap_rows
  lap_rows_append [] ys = refl
  lap_rows_append (x ∷ xs) ys =
      ap (cons_some (lap_row x)) (lap_rows_append xs ys)
      ∙ cons_some_append (lap_row x) (lap_rows xs) (lap_rows ys)

  -- Both files are written.
  unfoldable pub IsOpen : JsonlEventWriter F → Type 0
  IsOpen w =
      ((w.jsonl_enabled && w.is_jsonl_open) ≡ true) × ((w.csv_enabled && w.is_csv_open) ≡ true)

  write-lines :
      (batch : List (TelemetryEvent F)) (w : JsonlEventWriter F)
      → IsOpen w
      → ((write_unless_empty no_faults batch w).jsonl_lines ≡ w.jsonl_lines ++ batch)
        × (((write_unless_empty no_faults batch w).csv_rows ≡ w.csv_rows ++ lap_rows batch)
            × (IsOpen (write_unless_empty no_faults batch w)
                × ((write_unless_empty no_faults batch w).queue ≡ w.queue)))
  unfolding IsOpen write_batch lap_rows
  write-lines [] w h = (sym (append-nil _), (sym (append-nil _), (h, refl)))
  write-lines (x ∷ xs) w (j, c) = (ground arith, (ground arith, ((j, c), refl)))

  -- What is written, with what is left in the queue.
  abbrev pub logged : JsonlEventWriter F → List (TelemetryEvent F)
  logged w = w.jsonl_lines ++ w.queue.items

  abbrev pub lapped : JsonlEventWriter F → List LapRow
  lapped w = w.csv_rows ++ lap_rows w.queue.items

  -- A writer with these two, whose queue has a size and a number of events.
  unfoldable pub Holds : JsonlEventWriter F → List (TelemetryEvent F) → List LapRow → ℕ → ℕ → Type 0
  Holds w lines rows size k =
      (logged w ≡ lines)
      × ((lapped w ≡ rows) × (IsOpen w × ((w.queue.maxsize ≡ size) × (length w.queue.items ≡ k))))

  -- Some events are taken from the queue and written.
  abbrev pub take_and_write : ℕ → JsonlEventWriter F → JsonlEventWriter F
  take_and_write n w =
      write_unless_empty no_faults (take_up_to n w.queue).0
        (record w { queue = (take_up_to n w.queue).1 })

  pub take_and_write-Holds :
      (n : ℕ) (w : JsonlEventWriter F)
      → IsOpen w
      → Holds (take_and_write n w) (logged w) (lapped w) w.queue.maxsize (length w.queue.items - n)
  unfolding Holds IsOpen
  take_and_write-Holds n w h =
      let batch = (take_up_to n w.queue).0 in
      let left = (take_up_to n w.queue).1 in
      let (items, (size, count)) = take_up_to-items n w.queue.maxsize w.queue.items in
      let (lines, (rows, (open_files, q))) = write-lines batch (record w { queue = left }) h in
      (
        ap (λ l. l ++ (take_and_write n w).queue.items) lines
            ∙ ap (λ x. (w.jsonl_lines ++ batch) ++ x.items) q
            ∙ append_assoc w.jsonl_lines batch left.items
            ∙ ap (λ l. w.jsonl_lines ++ l) items,
        (
          ap (λ l. l ++ lap_rows (take_and_write n w).queue.items) rows
              ∙ ap (λ x. (w.csv_rows ++ lap_rows batch) ++ lap_rows x.items) q
              ∙ append_assoc w.csv_rows (lap_rows batch) (lap_rows left.items)
              ∙ ap (λ l. w.csv_rows ++ l)
                  (sym (lap_rows_append batch left.items) ∙ ap lap_rows items),
          (open_files, (ap (λ x. x.maxsize) q ∙ size, ap (λ x. length x.items) q ∙ count)),
        ),
      )
