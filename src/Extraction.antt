-- ===== src/Extraction.antt =====
-- The extractor runs of backend/app/api/runner.py: a run is a row of `extractor_runs`, a registered
-- subprocess and a monitor thread; requests cancel runs, and the shutdown ends them all. Every step
-- of a thread between two waits is an operation here, so that their orders can be told apart.
pub mod Log
pub mod Runs
pub mod Steps
mod Tests
