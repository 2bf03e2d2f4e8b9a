-- ===== src/Reconcile.antt =====
-- The release after a committed publication: src/candidate_committed_reconciliation.py.
pub mod Proof
pub mod Release
pub mod Restart
mod Tests
