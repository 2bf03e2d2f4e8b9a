-- ===== src/Recovery.antt =====
-- src/candidate_production_recovery_engine.py: the rollback of an interrupted transaction.
pub mod Journal
pub mod Execute
mod Tests
