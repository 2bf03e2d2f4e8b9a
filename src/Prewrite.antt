-- ===== src/Prewrite.antt =====
-- src/candidate_transaction_prewrite_arm.py.
pub mod Capture
pub mod Arm
