-- ===== src/Gateway.antt =====
-- The routes of src/server/main.py that put jobs on the queue and report on them.
pub mod Admission
pub mod Gate
pub mod Jobs
pub mod Erasure
mod Tests
