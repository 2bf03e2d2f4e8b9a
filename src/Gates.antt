-- ===== src/Gates.antt =====
-- The gates before a publication: src/candidate_remote_coordination_policy.py,
-- src/candidate_remote_recovery_policy.py, src/candidate_batch_editorial_acceptance.py,
-- src/candidate_executor_readiness.py and src/candidate_publish_authorization.py.
pub mod Policies
pub mod Acceptance
pub mod Readiness
pub mod Authorization
mod Tests
