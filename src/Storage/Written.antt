-- ===== src/Storage/Written.antt =====
-- What a writer has written, and what is left in its queue.
use carrera_monitor.Prelude.{
  ◌-◌, ◌+◌, false, ◌≡◌, refl, sym, ap, ◌∙◌, List, [], ◌∷◌, ◌++◌, length, arith,
}
use mathlib.Core.List.{append_assoc, append-nil}
use carrera_monitor.Event.{TelemetryEvent}
use carrera_monitor.Queue.{Queue, is_full, put_nowait, offer}
use carrera_monitor.Storage.{
  JsonlEventWriter, lap_rows, collect_batch, run_once, drain_remaining, stop,
}
use carrera_monitor.Storage.Batches.{
  no_faults, IsOpen, logged, lapped, Holds, lap_rows_append, take_and_write, take_and_write-Holds,
}

-- An event is published, or the writer's task runs an iteration.
pub data Action (F : Type 0) : Type 0 where
  publishes : TelemetryEvent F → Action F
  iterates : Action F

module _ {F : Type 0} where
  length_snoc :
      (xs : List (TelemetryEvent F)) (x : TelemetryEvent F) → length (xs ++ x ∷ []) ≡ length xs + 1
  length_snoc [] x = ground arith
  length_snoc (y ∷ xs) x = let ih = length_snoc xs x in ground arith

  abbrev pub act : Action F → JsonlEventWriter F → JsonlEventWriter F
  act (publishes ev) w = record w { queue = offer w.queue ev }
  act iterates w = run_once no_faults w

  abbrev pub act_all : List (Action F) → JsonlEventWriter F → JsonlEventWriter F
  act_all [] w = w
  act_all (a ∷ more) w = act_all more (act a w)

  abbrev pub published : List (Action F) → List (TelemetryEvent F)
  published [] = []
  published (publishes ev ∷ more) = ev ∷ published more
  published (iterates ∷ more) = published more

  -- Each event that is published finds room in the queue as it is then.
  abbrev pub FindRoom : List (Action F) → JsonlEventWriter F → Type 0
  FindRoom [] w = Unit
  FindRoom (publishes ev ∷ more) w =
      (is_full w.queue ≡ false) × FindRoom more (act (publishes ev) w)
  FindRoom (iterates ∷ more) w = FindRoom more (act iterates w)

  offer-fits :
      (q : Queue (TelemetryEvent F)) (ev : TelemetryEvent F)
      → is_full q ≡ false
      → offer q ev ≡ record q { items = q.items ++ ev ∷ [] }
  unfolding offer put_nowait
  offer-fits q ev room = ground arith

  publish-Holds :
      (ev : TelemetryEvent F) (w : JsonlEventWriter F)
      → IsOpen w
      → is_full w.queue ≡ false
      → Holds
          (act (publishes ev) w)
          (logged w ++ ev ∷ [])
          (lapped w ++ lap_rows (ev ∷ []))
          w.queue.maxsize
          (length w.queue.items + 1)
  unfolding Holds IsOpen
  publish-Holds ev w h room =
      let e = offer-fits w.queue ev room in
      (
        ap (λ q. w.jsonl_lines ++ q.items) e
            ∙ sym (append_assoc w.jsonl_lines w.queue.items (ev ∷ [])),
        (
          ap (λ q. w.csv_rows ++ lap_rows q.items) e
              ∙ ap (λ l. w.csv_rows ++ l) (lap_rows_append w.queue.items (ev ∷ []))
              ∙ sym (append_assoc w.csv_rows (lap_rows w.queue.items) (lap_rows (ev ∷ []))),
          (h, (ap (λ q. q.maxsize) e, ap (λ q. length q.items) e ∙ length_snoc w.queue.items ev)),
        ),
      )

  iterate-Holds :
      (w : JsonlEventWriter F)
      → IsOpen w
      → Holds (act iterates w) (logged w) (lapped w) w.queue.maxsize (length w.queue.items - 512)
  unfolding run_once collect_batch
  iterate-Holds w h = take_and_write-Holds 512 w h

  act_all-Holds :
      (acts : List (Action F)) (w : JsonlEventWriter F)
      → IsOpen w
      → FindRoom acts w
      → (logged (act_all acts w) ≡ logged w ++ published acts)
        × ((lapped (act_all acts w) ≡ lapped w ++ lap_rows (published acts))
            × IsOpen (act_all acts w))
  unfolding Holds lap_rows
  act_all-Holds [] w h room = (sym (append-nil (logged w)), (sym (append-nil (lapped w)), h))
  act_all-Holds (publishes ev ∷ acts) w h room =
      let v = act (publishes ev) w in
      let (lines, (rows, (open_files, (size, count)))) = publish-Holds ev w h room.0 in
      let (all_lines, (all_rows, still)) = act_all-Holds acts v open_files room.1 in
      (
        all_lines
            ∙ ap (λ l. l ++ published acts) lines
            ∙ append_assoc (logged w) (ev ∷ []) (published acts),
        (
          all_rows
              ∙ ap (λ l. l ++ lap_rows (published acts)) rows
              ∙ append_assoc (lapped w) (lap_rows (ev ∷ [])) (lap_rows (published acts))
              ∙ ap (λ l. lapped w ++ l) (sym (lap_rows_append (ev ∷ []) (published acts))),
          still,
        ),
      )
  act_all-Holds (iterates ∷ acts) w h room =
      let v = act iterates w in
      let (lines, (rows, (open_files, (size, count)))) = iterate-Holds w h in
      let (all_lines, (all_rows, still)) = act_all-Holds acts v open_files room in
      (
        all_lines ∙ ap (λ l. l ++ published acts) lines,
        (all_rows ∙ ap (λ l. l ++ lap_rows (published acts)) rows, still),
      )

  nothing_left : (xs : List (TelemetryEvent F)) → length xs ≡ 0 → xs ≡ []
  nothing_left [] h = refl
  nothing_left (x ∷ xs) h = ground arith

  -- Of a writer whose two files are open and whose writes do not fail, whatever events are
  -- published and whenever its task runs, as long as each event finds room in the queue when it is
  -- published, `stop` leaves the queue empty, and the files hold what they held, followed by every
  -- event that was waiting or published, each once and in order: a line for each, and a row for
  -- each lap that names its car.
  pub stop-logged :
      (acts : List (Action F)) (w : JsonlEventWriter F)
      → IsOpen w
      → FindRoom acts w
      → ((stop no_faults (act_all acts w)).queue.items ≡ [])
        × (((stop no_faults (act_all acts w)).jsonl_lines
              ≡ w.jsonl_lines ++ (w.queue.items ++ published acts))
            × ((stop no_faults (act_all acts w)).csv_rows
                ≡ w.csv_rows ++ lap_rows (w.queue.items ++ published acts)))
  unfolding stop drain_remaining Holds
  stop-logged acts w h room =
      let v = act_all acts w in
      let (all_lines, (all_rows, still)) = act_all-Holds acts w h room in
      let (lines, (rows, (open_files, (size, count)))) =
        take_and_write-Holds (length v.queue.items) v still in
      let d = take_and_write (length v.queue.items) v in
      let empty = nothing_left d.queue.items (count ∙ ground arith) in
      (
        empty,
        (
          sym (append-nil d.jsonl_lines)
              ∙ ap (λ l. d.jsonl_lines ++ l) (sym empty)
              ∙ lines
              ∙ all_lines
              ∙ append_assoc w.jsonl_lines w.queue.items (published acts),
          sym (append-nil d.csv_rows)
              ∙ ap (λ l. d.csv_rows ++ lap_rows l) (sym empty)
              ∙ rows
              ∙ all_rows
              ∙ append_assoc w.csv_rows (lap_rows w.queue.items) (lap_rows (published acts))
              ∙ ap (λ l. w.csv_rows ++ l) (sym (lap_rows_append w.queue.items (published acts))),
        ),
      )
