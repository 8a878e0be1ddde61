-- ===== src/Race.antt =====
-- The race-management module: schemas, ORM rows, repository, services and telemetry ingest.
pub mod Model
pub mod Repository
pub mod Reporting
pub mod Schema
pub mod App
pub mod Crud
pub mod SafetyCar
pub mod Ingest
pub mod Lifecycle
pub mod Rows
pub mod Transition
pub mod Standings
pub mod Runner
pub mod StartFailure
pub mod Crossing
pub mod LapRows
pub mod Numbering
pub mod Duplicates
pub mod Exclusive
pub mod Recovery
pub mod Restart
pub mod Runs
mod Tests
