-- ===== src/State.antt =====
-- state_manager.py and telemetry_processor.py: the live aggregate of the event stream. `FloatOps`
-- is Python's float arithmetic. The dictionary of cars is a list in the order of first use. Wall
-- clock readings are arguments.
pub mod Model
pub mod Apply
pub mod Snapshot
pub mod Cars
pub mod Grown
pub mod Aggregates
pub mod Counts
pub mod Recent
