-- ===== src/Mutation.antt =====
-- src/candidate_canonical_record_mutation.py: the record mutations of one sealed transaction.
pub mod Validate
pub mod Execute
mod Tests
