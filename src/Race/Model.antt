-- ===== src/Race/Model.antt =====
-- models.py and schemas/race_schema.py: the rows of the database, and their enumerations.
-- A race row holds its driver rows. Wall-clock times are microseconds.
use carrera_monitor.Prelude.{ℕ, String, Bool, Option, none, some, List, str_eq, if◌then◌else◌}
use carrera_monitor.Prelude.Int.{ℤ}
use carrera_monitor.Event.{EventType, Payload}

pub data RaceMode : Type 0 where
  fixed_laps fixed_duration : RaceMode

pub data RaceStatus : Type 0 where
  draft ready running paused finished cancelled : RaceStatus

-- `RaceStatus(text)`: the enumeration's lookup by value.
unfoldable pub parse_status : String → Option RaceStatus
parse_status s =
    if str_eq s "draft"
    then some RaceStatus.draft
    else if str_eq s "ready"
    then some RaceStatus.ready
    else if str_eq s "running"
    then some RaceStatus.running
    else if str_eq s "paused"
    then some RaceStatus.paused
    else if str_eq s "finished"
    then some RaceStatus.finished
    else if str_eq s "cancelled"
    then some RaceStatus.cancelled
    else none

pub record Driver : Type 0 where
  pub car_id : ℕ
  pub driver_name : String

pub record Race : Type 0 where
  pub id : ℕ
  pub name : String
  pub mode : RaceMode
  pub lap_target : Option ℕ
  pub duration_seconds : Option ℕ
  pub driver_count : ℕ
  pub status : RaceStatus
  pub notes : Option String
  pub source_race_id : Option ℕ
  pub created_at : ℕ
  pub updated_at : ℕ
  pub started_at : Option ℕ
  pub finished_at : Option ℕ
  pub drivers : List Driver

pub record Lap : Type 0 where
  pub race_id : ℕ
  pub car_id : ℕ
  pub driver_name : String
  pub lap_number : ℕ
  pub lap_time_ms : ℕ
  pub timestamp_iso : ℕ

pub record Checkpoint : Type 0 where
  pub race_id : ℕ
  pub car_id : ℕ
  pub last_cu_timestamp_ms : ℕ
  pub lap_count : ℕ
  pub updated_at : ℕ

pub record Identity : Type 0 where
  pub race_id : ℕ
  pub car_id : ℕ
  pub cu_timestamp_ms : ℕ

-- The lifecycle methods of the service that go through `_transition`.
pub data Method : Type 0 where
  mark_ready start_race pause_race resume_race finish_race cancel_race : Method

pub data TriggeredBy : Type 0 where
  auto user : TriggeredBy

-- The `event_type` column of `race_events`.
pub data RowType : Type 0 where
  mark_ready race_started race_paused race_resumed race_finished race_cancelled : RowType
  safety_car_started safety_car_ended : RowType
  telemetry : EventType → RowType

-- What `payload_json` encodes.
pub data RowPayload (F : Type 0) : Type 0 where
  lifecycle : Method → Option TriggeredBy → RowPayload F
  safety_car : Bool → RowPayload F
  telemetry : Payload F → RowPayload F

pub record EventRow (F : Type 0) : Type 0 where
  pub race_id : ℕ
  pub timestamp_iso : ℕ
  pub event_type : RowType
  pub car_id : Option ℕ
  pub payload : RowPayload F

pub record DriverStats : Type 0 where
  pub car_id : ℕ
  pub driver_name : String
  pub total_laps : ℕ
  pub best_lap_ms : Option ℕ
  pub average_lap_ms : Option ℕ
  pub last_lap_ms : Option ℕ
  pub total_race_time_ms : Option ℕ

pub record StandingsRow : Type 0 where
  pub position : ℕ
  pub car_id : ℕ
  pub driver_name : String
  pub lap_count : ℕ
  pub best_lap_ms : Option ℕ
  pub total_race_time_ms : Option ℕ
  pub gap_to_leader_ms : Option ℤ
  pub laps_behind : ℤ

pub record RaceSummary : Type 0 where
  pub race : Race
  pub duration_ms : Option ℤ
  pub drivers : List DriverStats
  pub standings : List StandingsRow

pub data ReportType : Type 0 where
  race_summary : ReportType

pub record Report : Type 0 where
  pub race_id : ℕ
  pub report_type : ReportType
  pub payload : RaceSummary
  pub created_at : ℕ

-- The tables.
pub record Database (F : Type 0) : Type 0 where
  pub races : List Race
  pub laps : List Lap
  pub checkpoints : List Checkpoint
  pub identities : List Identity
  pub events : List (EventRow F)
  pub reports : List Report
