-- ===== src/Restart.antt =====
-- The restart of an interrupted publication: src/candidate_production_recover.py.
pub mod Classify
pub mod Verify
pub mod Confirmed
mod Tests
