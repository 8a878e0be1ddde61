-- ===== src/Client.antt =====
-- carrera_client.py: the translation of raw frames, the live adapter and the reconnecting runner.
-- What carreralib and the radio do is an argument of the steps.
pub mod Frames
pub mod Adapter
pub mod ReadLoop
pub mod Runner
pub mod Tests
