-- ===== src/Storage.antt =====
-- storage.py: `JsonlEventWriter`. The two files are lists: the events whose line stands in the JSONL
-- file, and the rows of the CSV file below its header. A write that raises `OSError` is an argument
-- of a batch, and leaves its file as it was.
pub mod Batches
pub mod Written
pub mod Tests
use carrera_monitor.Prelude.{
  ℕ, zero, suc, ◌-◌, Bool, true, false, not, ◌&&◌, length, Option, none, some, List, [], ◌∷◌, ◌++◌,
  if◌then◌else◌,
}
use carrera_monitor.Event.{TelemetryEvent, Payload}
use carrera_monitor.Queue.{Queue, get_nowait}

pub record LapRow : Type 0 where
  pub car_id : ℕ
  pub lap_number : ℕ
  pub lap_time_ms : ℕ
  pub timestamp_iso : ℕ

-- `jsonl_file` and `csv_file` are there while the file is open.
pub record JsonlEventWriter (F : Type 0) : Type 0 where
  pub queue : Queue (TelemetryEvent F)
  pub jsonl_enabled : Bool
  pub csv_enabled : Bool
  pub is_jsonl_open : Bool
  pub is_csv_open : Bool
  pub jsonl_lines : List (TelemetryEvent F)
  pub csv_rows : List LapRow

-- Which writes of a batch raise an `OSError`.
pub record Faults : Type 0 where
  pub jsonl_write : Bool
  pub csv_write : Bool

abbrev pub cons_some : Option LapRow → List LapRow → List LapRow
cons_some none rows = rows
cons_some (some row) rows = row ∷ rows

module _ {F : Type 0} where
  abbrev row_of : Option ℕ → ℕ → Payload F → Option LapRow
  row_of (some car) iso (Payload.lap n t cu) =
      some (record { car_id = car; lap_number = n; lap_time_ms = t; timestamp_iso = iso })
  row_of _ iso p = none

  -- The row of a lap event that names its car.
  abbrev pub lap_row : TelemetryEvent F → Option LapRow
  lap_row ev = row_of ev.car_id ev.timestamp_iso ev.payload

  unfoldable pub lap_rows : List (TelemetryEvent F) → List LapRow
  lap_rows [] = []
  lap_rows (ev ∷ evs) = cons_some (lap_row ev) (lap_rows evs)

  -- `get_nowait` until the queue is empty or some number of events is taken.
  unfoldable pub take_up_to :
      ℕ → Queue (TelemetryEvent F) → List (TelemetryEvent F) × Queue (TelemetryEvent F)
  unfolding get_nowait
  take_up_to zero q = ([], q)
  take_up_to (suc n) q = elim (get_nowait q) [
    | none ↦ ([], q)
    | some (ev, rest) ↦ (ev ∷ (take_up_to n rest).0, (take_up_to n rest).1)
  ]

  -- `_collect_batch`; no events are taken where the wait for the first one ends.
  unfoldable pub collect_batch :
      Queue (TelemetryEvent F) → List (TelemetryEvent F) × Queue (TelemetryEvent F)
  unfolding take_up_to
  collect_batch q = take_up_to 512 q

  -- `_write_batch`
  unfoldable pub write_batch :
      Faults → List (TelemetryEvent F) → JsonlEventWriter F → JsonlEventWriter F
  unfolding lap_rows
  write_batch faults batch w = record w {
    jsonl_lines =
        if w.jsonl_enabled && w.is_jsonl_open && not faults.jsonl_write
        then w.jsonl_lines ++ batch
        else w.jsonl_lines;
    csv_rows =
        if w.csv_enabled && w.is_csv_open && not faults.csv_write
        then w.csv_rows ++ lap_rows batch
        else w.csv_rows;
  }

  abbrev pub write_unless_empty :
      Faults → List (TelemetryEvent F) → JsonlEventWriter F → JsonlEventWriter F
  write_unless_empty faults [] w = w
  write_unless_empty faults (ev ∷ evs) w = write_batch faults (ev ∷ evs) w

  -- One iteration of `_run`.
  unfoldable pub run_once : Faults → JsonlEventWriter F → JsonlEventWriter F
  unfolding collect_batch write_batch
  run_once faults w =
      let (batch, left) = collect_batch w.queue in
      write_unless_empty faults batch (record w { queue = left })

  -- `_drain_remaining`
  unfoldable pub drain_remaining : Faults → JsonlEventWriter F → JsonlEventWriter F
  unfolding write_batch take_up_to
  drain_remaining faults w =
      let (batch, left) = take_up_to (length w.queue.items) w.queue in
      write_unless_empty faults batch (record w { queue = left })

  -- `start`, with which of the two files cannot be opened.
  unfoldable pub start : Faults → JsonlEventWriter F → JsonlEventWriter F
  start faults w = record w {
    jsonl_enabled = w.jsonl_enabled && not faults.jsonl_write;
    csv_enabled = w.csv_enabled && not faults.csv_write;
    is_jsonl_open = w.jsonl_enabled && not faults.jsonl_write;
    is_csv_open = w.csv_enabled && not faults.csv_write;
  }

  -- `stop`, after the task has ended.
  unfoldable pub stop : Faults → JsonlEventWriter F → JsonlEventWriter F
  unfolding drain_remaining
  stop faults w = record (drain_remaining faults w) { is_jsonl_open = false; is_csv_open = false }
